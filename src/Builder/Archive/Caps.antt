-- ===== src/Builder/Archive/Caps.antt =====
-- What an extraction may leave on the disk, whatever the archive holds.
use space_elevator.Base.{
  ◌+◌, ◌*◌, ◌^◌, ◌≤◌, ◌≡◌, refl, Option, none, some, List, [], ◌∷◌, ◌⊎◌, inl, inr, Bytes, arith,
}
use space_elevator.Builder.Archive.{
  Member, Counters, new_counters, Extraction, put_tar_member, put_zip_member, Format, tar_gz, zip,
  put_member, at_target, extract_member, extract_members, ending_of, extract_archive,
}
use space_elevator.Builder.Archive.SafeJoin.{safe_join}
use space_elevator.Builder.Archive.Tracked.{
  Tracked, Kept, Tracked-Capped, step-Ended, extract_directory-Kept, extract_file-Kept,
}

put_member-Kept :
    (f : Format) (target : Bytes) (m : Member) (c : Counters)
    → Tracked c
    → Kept (put_member f target m c)
unfolding put_member put_tar_member put_zip_member
put_member-Kept tar_gz target m c h =
    let a = h.counted in
    let b = h.few in
    let s = h.summed in
    let t = h.small in
    ground (arith, extract_directory-Kept m c h, extract_file-Kept target none m c h)
put_member-Kept zip target m c h =
    let a = h.counted in
    let b = h.few in
    let s = h.summed in
    let t = h.small in
    ground (arith, extract_directory-Kept m c h, extract_file-Kept target m.open_member m c h)

-- With a call that fails and leaves the counters alone.
refused-Kept : (e : Option Bytes) (c : Counters) → Tracked c → Kept (e, c)
refused-Kept e c h = (λ e'. h, Tracked-Capped c h)

at_target-Kept :
    (x : Bytes ⊎ Bytes) (c : Counters) (k : Bytes → Extraction)
    → Tracked c
    → ((target : Bytes) → Kept (k target))
    → Kept (at_target x c k)
at_target-Kept (inl e) c k h next = refused-Kept (some e) c h
at_target-Kept (inr target) c k h next = next target

extract_member-Kept :
    (f : Format) (root : Bytes) (m : Member) (c : Counters)
    → Tracked c
    → Kept (extract_member f root m c)
unfolding extract_member
extract_member-Kept f root m c h =
    at_target-Kept (safe_join m.lstat root m.name) c (λ target. put_member f target m c) h
      (λ target. put_member-Kept f target m c h)

extract_members-Kept :
    (f : Format) (root : Bytes) (ending : Option Bytes) (ms : List Member) (c : Counters)
    → Tracked c
    → Kept (extract_members f root ending ms c)
unfolding extract_members
extract_members-Kept f root ending [] c h = refused-Kept ending c h
extract_members-Kept f root ending (m ∷ ms) c h =
    step-Ended Tracked Tracked (extract_member f root m c) (extract_members f root ending ms)
      (extract_member-Kept f root m c h) (λ c' h'. extract_members-Kept f root ending ms c' h')

new_counters-Tracked : Tracked new_counters
new_counters-Tracked = record {
  counted = omega arith;
  few = omega arith;
  summed = refl;
  small = omega arith;
}

-- Whatever an archive holds, whatever it is extracted to and whatever call fails, its extraction
-- makes at most 10,000 files and directories for its members and writes at most
-- 512 MiB + 128 MiB + 1 byte; if it succeeds, it wrote at most 512 MiB.
pub extract_archive_bounded :
    (f : Format) (root : Bytes) (next : Option Bytes) (ms : List Member)
    → let (failed, c) = extract_archive f root next ms in
      (c.created ≤ 10_000)
      × (c.written ≤ 512 * 2 ^ 20 + 128 * 2 ^ 20 + 1)
      × (failed ≡ none → c.written ≤ 512 * 2 ^ 20)
unfolding extract_archive
extract_archive_bounded f root next ms =
    let (keep, cap) =
      extract_members-Kept f root (ending_of f next) ms new_counters new_counters-Tracked in
    (cap.0, cap.1, λ e. omega (arith, (keep e).summed, (keep e).small))
