-- ===== src/Builder/Archive.antt =====
-- archive.go: the extraction of a tarball or a zip under the caps, into a directory given by its
-- absolute path. A member of the archive carries what the file system and the readers answer for it.
pub mod SafeJoin
mod Tracked
pub mod Caps
pub mod Places
pub mod Contents
use space_elevator.Base.{
  ℕ, ◌+◌, ◌*◌, ◌^◌, min, Bool, true, false, Option, none, some, List, [], ◌∷◌, ◌++◌, ◌⊎◌, inl, inr,
  ltb, if◌then◌else◌, Bytes, bytes, length, take,
}
use space_elevator.Builder.Archive.SafeJoin.{Look, safe_join}

abbrev pub extract_max_entries : ℕ
extract_max_entries = 10_000

-- 512 MiB and 128 MiB
abbrev pub extract_max_total_bytes : ℕ
extract_max_total_bytes = 512 * 2 ^ 20

abbrev pub extract_max_file_bytes : ℕ
extract_max_file_bytes = 128 * 2 ^ 20

-- hdr.Typeflag, or the mode of a zip member, which has no hard links
pub data Flag : Type 0 where
  link directory regular other : Flag

pub record Member : Type 0 where
  pub name : Bytes
  -- os.Lstat while the name is joined
  pub lstat : Bytes → Look
  pub flag : Flag
  -- the size in the header; `none` is negative
  pub size : Option ℕ
  pub make_directory : Option Bytes
  pub open_file : Option Bytes
  -- opening the member of a zip
  pub open_member : Option Bytes
  -- the bytes that the reader yields before its end or its error
  pub content : Bytes
  pub read : Option Bytes
  pub close : Option Bytes

-- extractCounters, and what is on the disk: the files and directories made for members, their
-- bytes, and what was written to which file, the first first.
pub record Counters : Type 0 where
  pub entries : ℕ
  pub total_bytes : ℕ
  pub created : ℕ
  pub written : ℕ
  pub files : List (Bytes × Bytes)

abbrev pub new_counters : Counters
new_counters = record { entries = 0; total_bytes = 0; created = 0; written = 0; files = [] }

abbrev pub Extraction : Type 0
Extraction = Option Bytes × Counters

unfoldable pub add_entry : Counters → Extraction
add_entry c =
    let c' = record c { entries = c.entries + 1 } in
    (
      if ltb extract_max_entries (c.entries + 1)
          then some (bytes "archive has too many entries")
          else none,
      c',
    )

-- The size is a count of bytes copied, so `size < 0` never holds; `max - size` is below 0 for a size
-- above the cap, hence the sum.
unfoldable pub add_bytes : ℕ → Counters → Extraction
add_bytes size c =
    if ltb extract_max_total_bytes (c.total_bytes + size)
    then (some (bytes "archive expands too far"), c)
    else (none, record c { total_bytes = c.total_bytes + size })

-- copyArchiveData: at most one byte above the limit is read.
unfoldable pub copied : Member → ℕ
copied m = min (length m.content) (extract_max_file_bytes + 1)

-- The reader's bytes, up to that limit, go to the file.
unfoldable pub with_file : Bytes → Bytes → List (Bytes × Bytes) → List (Bytes × Bytes)
with_file target content files = files ++ (target, take (extract_max_file_bytes + 1) content) ∷ []

-- the error of io.Copy, or that of a file over the limit
abbrev pub copy_error : Option Bytes → ℕ → Option Bytes
copy_error (some e) n = some e
copy_error none n =
    if ltb extract_max_file_bytes n then some (bytes "archive file too large") else none

unfoldable pub copy_archive_data : Bytes → Member → Counters → Extraction
unfolding copied with_file
copy_archive_data target m c = (
  copy_error m.read (copied m),
  record c { written = c.written + copied m; files = with_file target m.content c.files },
)

-- the next call, where the one before it did not fail
abbrev pub and_then : Extraction → (Counters → Extraction) → Extraction
and_then (some e, c) k = (some e, c)
and_then (none, c) k = k c

abbrev pub answered : Option Bytes → Counters → Extraction
answered o c = (o, c)

abbrev pub make_file : Counters → Extraction
make_file c = (none, record c { created = c.created + 1 })

unfoldable pub extract_directory : Member → Counters → Extraction
unfolding add_entry
extract_directory m c =
    and_then (add_entry c) (λ c₁. and_then (answered m.make_directory c₁) make_file)

-- from the copy to addBytes
unfoldable pub copy_and_count : Bytes → Member → Counters → Extraction
unfolding copy_archive_data add_bytes copied
copy_and_count target m c =
    and_then (copy_archive_data target m c)
      (λ c'. and_then (answered m.close c') (add_bytes (copied m)))

-- from addEntry to addBytes
unfoldable pub extract_file : Bytes → Option Bytes → Member → Counters → Extraction
unfolding add_entry copy_and_count
extract_file target open_source m c = and_then (add_entry c) (λ c₁.
    and_then (answered m.make_directory c₁) (λ c₂. and_then (answered m.open_file c₂) (λ c₃.
      and_then (make_file c₃)
        (λ c₄. and_then (answered open_source c₄) (copy_and_count target m)))))

abbrev too_large : Option ℕ → Bool
too_large none = true
too_large (some size) = ltb extract_max_file_bytes size

-- what the loop of extractTarGz does with a member whose name is joined
unfoldable pub put_tar_member : Bytes → Member → Counters → Extraction
unfolding extract_directory extract_file
put_tar_member target m c = elim m.flag [
  | link ↦ (some (bytes "archive symlinks and hard links are not allowed"), c)
  | directory ↦ extract_directory m c
  | regular ↦
      if too_large m.size
      then (some (bytes "archive file too large"), c)
      else extract_file target none m c
  | other ↦ (none, c)
]

-- and that of extractZip: what is neither a link nor a directory is a file
unfoldable pub put_zip_member : Bytes → Member → Counters → Extraction
unfolding extract_directory extract_file
put_zip_member target m c =
    let file =
      if too_large m.size
      then (some (bytes "archive file too large"), c)
      else extract_file target m.open_member m c in
    elim m.flag [
      | link ↦ (some (bytes "archive symlinks are not allowed"), c)
      | directory ↦ extract_directory m c
      | regular ↦ file
      | other ↦ file
    ]

pub data Format : Type 0 where
  tar_gz zip : Format

unfoldable pub put_member : Format → Bytes → Member → Counters → Extraction
unfolding put_tar_member put_zip_member
put_member tar_gz = put_tar_member
put_member zip = put_zip_member

-- what is done with the target that safeJoin returns, where it returns one
abbrev pub at_target : Bytes ⊎ Bytes → Counters → (Bytes → Extraction) → Extraction
at_target (inl e) c k = (some e, c)
at_target (inr target) c k = k target

-- the body of the loops
unfoldable pub extract_member : Format → Bytes → Member → Counters → Extraction
unfolding put_member safe_join
extract_member f root m c =
    at_target (safe_join m.lstat root m.name) c (λ target. put_member f target m c)

-- `ending` is what the loop returns behind the members.
unfoldable pub extract_members : Format → Bytes → Option Bytes → List Member → Counters → Extraction
unfolding extract_member
extract_members f root ending [] c = (ending, c)
extract_members f root ending (m ∷ ms) c =
    and_then (extract_member f root m c) (λ c'. extract_members f root ending ms c')

-- tr.Next() ends the tarball, with an error or not; a zip lists its members.
abbrev pub ending_of : Format → Option Bytes → Option Bytes
ending_of tar_gz next = next
ending_of zip next = none

-- ExtractArchive, for an archive that opens; `next` is the answer of tr.Next() behind the members.
unfoldable pub extract_archive : Format → Bytes → Option Bytes → List Member → Extraction
unfolding extract_members
extract_archive f root next ms = extract_members f root (ending_of f next) ms new_counters
