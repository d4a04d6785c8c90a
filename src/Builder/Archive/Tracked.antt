-- ===== src/Builder/Archive/Tracked.antt =====
-- What holds of the counters and the disk between the calls for one member.
use space_elevator.Base.{
  ℕ, ◌+◌, ◌≤◌, ◌≡◌, refl, Option, none, some, inl, inr, Bytes, arith, Bool-cases, ltb,
}
use space_elevator.Builder.Archive.{
  extract_max_entries, extract_max_total_bytes, extract_max_file_bytes, Member, Counters,
  Extraction, add_entry, add_bytes, copied, copy_archive_data, and_then, answered, make_file,
  copy_and_count, extract_directory, extract_file,
}

-- Between two members.
pub record Tracked (c : Counters) : Type 0 where
  pub counted : c.created ≤ c.entries
  pub few : c.entries ≤ extract_max_entries
  pub summed : c.written ≡ c.total_bytes
  pub small : c.total_bytes ≤ extract_max_total_bytes

-- At any time: one file may be copied before its bytes are counted.
abbrev pub Capped : Counters → Type 0
Capped c =
    (c.created ≤ extract_max_entries)
    × (c.written ≤ extract_max_total_bytes + extract_max_file_bytes + 1)

-- Between the entry's count and the file's or the directory's making.
record Room (c : Counters) : Type 0 where
  counted : c.created + 1 ≤ c.entries
  few : c.entries ≤ extract_max_entries
  summed : c.written ≡ c.total_bytes
  small : c.total_bytes ≤ extract_max_total_bytes

-- Between the copy of a file and the count of its bytes.
record Copied (n : ℕ) (c : Counters) : Type 0 where
  counted : c.created ≤ c.entries
  few : c.entries ≤ extract_max_entries
  summed : c.written ≡ c.total_bytes + n
  small : c.total_bytes ≤ extract_max_total_bytes
  short : n ≤ extract_max_file_bytes + 1

-- Capped whatever is answered, and in the state P where no call has failed.
abbrev pub Ended : (Counters → Type 0) → Extraction → Type 0
Ended P x = (x.0 ≡ none → P x.1) × Capped x.1

abbrev pub Kept : Extraction → Type 0
Kept = Ended Tracked

pub Tracked-Capped : (c : Counters) → Tracked c → Capped c
Tracked-Capped c h =
    let a = h.counted in
    let b = h.few in let s = h.summed in let t = h.small in (omega arith, omega arith)

Room-Capped : (c : Counters) → Room c → Capped c
Room-Capped c h =
    let a = h.counted in
    let b = h.few in let s = h.summed in let t = h.small in (omega arith, omega arith)

Copied-Capped : (n : ℕ) (c : Counters) → Copied n c → Capped c
Copied-Capped n c h =
    let a = h.counted in
    let b = h.few in
    let s = h.summed in let t = h.small in let l = h.short in (omega arith, omega arith)

pub step-Ended :
    (P Q : Counters → Type 0) (x : Extraction) (k : Counters → Extraction)
    → Ended P x
    → ((c : Counters) → P c → Ended Q (k c))
    → Ended Q (and_then x k)
step-Ended P Q (none, c) k h next = next c (h.0 refl)
step-Ended P Q (some e, c) k h next = (λ e'. absurd cc, h.1)

add_entry-Room : (c : Counters) → Tracked c → Ended Room (add_entry c)
unfolding add_entry
add_entry-Room c h =
    let a = h.counted in
    let b = h.few in
    let s = h.summed in
    let t = h.small in
    (
      λ e. record { counted = omega arith; few = ground arith; summed = s; small = t },
      (omega arith, omega arith),
    )

make_file-Tracked : (c : Counters) → Room c → Kept (make_file c)
make_file-Tracked c h =
    let a = h.counted in
    let b = h.few in
    let s = h.summed in
    let t = h.small in
    (λ e. record { counted = a; few = b; summed = s; small = t }, (omega arith, omega arith))

copied-le : (m : Member) → copied m ≤ extract_max_file_bytes + 1
unfolding copied
copied-le m = omega arith

copy_archive_data-Copied :
    (target : Bytes) (m : Member) (c : Counters)
    → Tracked c
    → Ended (Copied (copied m)) (copy_archive_data target m c)
unfolding copy_archive_data
copy_archive_data-Copied target m c h =
    let a = h.counted in
    let b = h.few in
    let s = h.summed in
    let t = h.small in
    let l = copied-le m in
    (
      λ e. record { counted = a; few = b; summed = omega arith; small = t; short = l },
      (omega arith, omega arith),
    )

add_bytes-Tracked : (n : ℕ) (c : Counters) → Copied n c → Kept (add_bytes n c)
unfolding add_bytes
add_bytes-Tracked n c h = elim (Bool-cases (ltb extract_max_total_bytes (c.total_bytes + n))) [
  | inl over ↦ rw over (λ e. absurd cc, Copied-Capped n c h)
  | inr fits ↦
      let s = h.summed in
      rw fits (
        λ e. record { counted = h.counted; few = h.few; summed = s; small = ground arith },
        Copied-Capped n c h,
      )
]

pub extract_directory-Kept : (m : Member) (c : Counters) → Tracked c → Kept (extract_directory m c)
unfolding extract_directory
extract_directory-Kept m c h =
    step-Ended Room Tracked (add_entry c) _ (add_entry-Room c h) (λ c₁ h₁.
      step-Ended Room Tracked (answered m.make_directory c₁) make_file (λ e. h₁, Room-Capped c₁ h₁)
        make_file-Tracked)

copy_and_count-Kept :
    (target : Bytes) (m : Member) (c : Counters) → Tracked c → Kept (copy_and_count target m c)
unfolding copy_and_count
copy_and_count-Kept target m c h =
    let C = Copied (copied m) in
    step-Ended C Tracked (copy_archive_data target m c)
      (λ c'. and_then (answered m.close c') (add_bytes (copied m)))
      (copy_archive_data-Copied target m c h)
      (λ c₁ h₁.
        step-Ended C Tracked (answered m.close c₁) (add_bytes (copied m))
          (λ e. h₁, Copied-Capped (copied m) c₁ h₁) (add_bytes-Tracked (copied m)))

pub extract_file-Kept :
    (target : Bytes) (o : Option Bytes) (m : Member) (c : Counters)
    → Tracked c
    → Kept (extract_file target o m c)
unfolding extract_file
extract_file-Kept target o m c h =
    step-Ended Room Tracked (add_entry c) _ (add_entry-Room c h) (λ c₁ h₁.
      step-Ended Room Tracked (answered m.make_directory c₁) _ (λ e. h₁, Room-Capped c₁ h₁)
        (λ c₂ h₂.
          step-Ended Room Tracked (answered m.open_file c₂) _ (λ e. h₂, Room-Capped c₂ h₂)
            (λ c₃ h₃.
              step-Ended Tracked Tracked (make_file c₃) _ (make_file-Tracked c₃ h₃) (λ c₄ h₄.
                step-Ended Tracked Tracked (answered o c₄) (copy_and_count target m)
                  (λ e. h₄, Tracked-Capped c₄ h₄) (λ c₅ h₅. copy_and_count-Kept target m c₅ h₅)))))
