-- ===== src/Builder/Archive/Contents.antt =====
-- What an extraction that succeeds has written, and where.
use space_elevator.Base.{
  ℕ, zero, suc, ◌+◌, ◌≤◌, ◌≡◌, ◌≢◌, refl, sym, ap, ◌∙◌, ◌⊎◌, inl, inr, Bool-cases, Bool, true,
  false, Option, none, some, List, [], ◌∷◌, ◌++◌, if◌then◌else◌, ltb, length, take, Bytes, All,
  arith, join, slash,
}
use mathlib.Core.List.{append_assoc, append-nil}
use space_elevator.Base.Paths.Elements.{IsElement}
use space_elevator.Builder.Archive.{
  extract_max_file_bytes, extract_max_total_bytes, Flag, link, directory, regular, other, Member,
  Counters, new_counters, Extraction, add_entry, add_bytes, copied, copy_error, with_file,
  copy_archive_data, and_then, answered, make_file, copy_and_count, extract_directory, extract_file,
  put_tar_member, put_zip_member, Format, tar_gz, zip, put_member, at_target, extract_member,
  extract_members, ending_of, extract_archive,
}
use space_elevator.Builder.Archive.SafeJoin.{safe_join}
use space_elevator.Builder.Archive.Places.{IsBelow, place, absolute, safe_join-place}

take-all : (n : ℕ) (xs : Bytes) → length xs ≤ n → take n xs ≡ xs
take-all zero [] h = refl
take-all zero (x ∷ xs) h = absurd (omega arith)
take-all (suc n) [] h = refl
take-all (suc n) (x ∷ xs) h = ap (λ t. x ∷ t) (take-all n xs (omega arith))

copied-small :
    (m : Member)
    → ltb extract_max_file_bytes (copied m) ≡ false
    → length m.content ≤ extract_max_file_bytes + 1
unfolding copied
copied-small m h = ground arith

copy_error-small :
    (r : Option Bytes) (n : ℕ) → copy_error r n ≡ none → ltb extract_max_file_bytes n ≡ false
copy_error-small r n e = ground arith

-- A copy that is accepted is of everything.
with_file-whole :
    (target : Bytes) (m : Member) (files : List (Bytes × Bytes))
    → length m.content ≤ extract_max_file_bytes + 1
    → with_file target m.content files ≡ files ++ (target, m.content) ∷ []
unfolding with_file
with_file-whole target m files h =
    ap (λ x. files ++ (target, x) ∷ []) (take-all (extract_max_file_bytes + 1) m.content h)

-- A run of calls that succeeds went through each of them.
step-lem :
    (P Q : Counters → Type 0) (x : Extraction) (k : Counters → Extraction)
    → (x.0 ≡ none → P x.1)
    → ((c : Counters) → P c → (k c).0 ≡ none → Q (k c).1)
    → (and_then x k).0 ≡ none
    → Q (and_then x k).1
step-lem P Q (none, c) k h next e = next c (h refl) e
step-lem P Q (some t, c) k h next e = absurd cc

abbrev Logged : List (Bytes × Bytes) → Counters → Type 0
Logged files c = c.files ≡ files

add_entry-files : (c : Counters) → (add_entry c).1.files ≡ c.files
unfolding add_entry
add_entry-files c = refl

copy_archive_data-whole :
    (target : Bytes) (m : Member) (c : Counters)
    → (copy_archive_data target m c).0 ≡ none
    → (copy_archive_data target m c).1.files ≡ c.files ++ (target, m.content) ∷ []
unfolding copy_archive_data
copy_archive_data-whole target m c e =
    with_file-whole target m c.files (copied-small m (copy_error-small m.read (copied m) e))

add_bytes-files :
    (n : ℕ) (c : Counters) → (add_bytes n c).0 ≡ none → (add_bytes n c).1.files ≡ c.files
unfolding add_bytes
add_bytes-files n c e = elim (Bool-cases (ltb extract_max_total_bytes (c.total_bytes + n))) [
  | inl over ↦ rw over refl
  | inr fits ↦ rw fits refl
]

extract_directory-files :
    (m : Member) (c : Counters)
    → (extract_directory m c).0 ≡ none
    → (extract_directory m c).1.files ≡ c.files
unfolding extract_directory
extract_directory-files m c =
    let L = Logged c.files in
    step-lem L L (add_entry c) _ (λ e. add_entry-files c)
      (λ c₁ h₁. step-lem L L (answered m.make_directory c₁) make_file (λ e. h₁) (λ c₂ h₂ e. h₂))

copy_and_count-whole :
    (target : Bytes) (m : Member) (c : Counters) (files : List (Bytes × Bytes))
    → Logged files c
    → (copy_and_count target m c).0 ≡ none
    → (copy_and_count target m c).1.files ≡ files ++ (target, m.content) ∷ []
unfolding copy_and_count
copy_and_count-whole target m c files h =
    let M = Logged (files ++ (target, m.content) ∷ []) in
    step-lem M M (copy_archive_data target m c)
      (λ c'. and_then (answered m.close c') (add_bytes (copied m)))
      (λ e. copy_archive_data-whole target m c e ∙ ap (λ x. x ++ (target, m.content) ∷ []) h)
      (λ c₁ h₁.
        step-lem M M (answered m.close c₁) (add_bytes (copied m)) (λ e. h₁)
          (λ c₂ h₂ e. add_bytes-files (copied m) c₂ e ∙ h₂))

extract_file-whole :
    (target : Bytes) (o : Option Bytes) (m : Member) (c : Counters)
    → (extract_file target o m c).0 ≡ none
    → (extract_file target o m c).1.files ≡ c.files ++ (target, m.content) ∷ []
unfolding extract_file
extract_file-whole target o m c =
    let L = Logged c.files in
    let M = Logged (c.files ++ (target, m.content) ∷ []) in
    step-lem L M (add_entry c) _ (λ e. add_entry-files c)
      (λ c₁ h₁.
        step-lem L M (answered m.make_directory c₁) _ (λ e. h₁)
          (λ c₂ h₂.
            step-lem L M (answered m.open_file c₂) _ (λ e. h₂)
              (λ c₃ h₃.
                step-lem L M (make_file c₃)
                  (λ c'. and_then (answered o c') (copy_and_count target m)) (λ e. h₃)
                  (λ c₄ h₄.
                    step-lem L M (answered o c₄) (copy_and_count target m) (λ e. h₄)
                      (λ c₅ h₅. copy_and_count-whole target m c₅ c.files h₅)))))

abbrev pub is_stored : Format → Flag → Bool
is_stored f link = false
is_stored f directory = false
is_stored f regular = true
is_stored tar_gz other = false
is_stored zip other = true

-- What a member that is put somewhere adds to what is written.
abbrev added : Format → Bytes → Member → List (Bytes × Bytes)
added f target m = if is_stored f m.flag then (target, m.content) ∷ [] else []

put_member-files :
    (f : Format) (target : Bytes) (m : Member) (c : Counters)
    → (put_member f target m c).0 ≡ none
    → (m.flag ≢ link) × ((put_member f target m c).1.files ≡ c.files ++ added f target m)
unfolding put_member put_tar_member put_zip_member
put_member-files tar_gz target m c e =
    ground
      (arith, append-nil c.files, extract_directory-files m c, extract_file-whole target none m c)
put_member-files zip target m c e = ground (
  arith,
  append-nil c.files,
  extract_directory-files m c,
  extract_file-whole target m.open_member m c,
)

at_target-lem :
    (P : Counters → Type 0) (x : Bytes ⊎ Bytes) (c : Counters) (k : Bytes → Extraction)
    → ((target : Bytes) → x ≡ inr target → (k target).0 ≡ none → P (k target).1)
    → (at_target x c k).0 ≡ none
    → P (at_target x c k).1
at_target-lem P (inl t) c k next e = absurd cc
at_target-lem P (inr target) c k next e = next target refl e

-- A member that is no link and whose name stays below the destination.
abbrev pub IsConfined : Member → Type 0
IsConfined m = (m.flag ≢ link) × IsBelow m.name

-- The files among the members, each at its place with its content, in their order.
unfoldable pub stored : Format → Bytes → List Member → List (Bytes × Bytes)
stored f root [] = []
stored f root (m ∷ ms) =
    (if is_stored f m.flag then (place root m.name, m.content) ∷ [] else []) ++ stored f root ms

extract_member-whole :
    (f : Format) (e : Bytes) (es : List Bytes) (m : Member) (c : Counters)
    → All IsElement (e ∷ es)
    → (extract_member f (absolute e es) m c).0 ≡ none
    → IsConfined m
      × ((extract_member f (absolute e es) m c).1.files
          ≡ c.files ++ added f (place (absolute e es) m.name) m)
unfolding extract_member
extract_member-whole f e es m c parts =
    let root = absolute e es in
    at_target-lem (λ c'. IsConfined m × (c'.files ≡ c.files ++ added f (place root m.name) m))
      (safe_join m.lstat root m.name) c (λ target. put_member f target m c)
      (λ target joined done.
        let (below, at) = safe_join-place m.lstat e es m.name target parts joined in
        let (no_link, files) = put_member-files f target m c done in
        ((no_link, below), files ∙ ap (λ x. c.files ++ added f x m) at))

extract_members-whole :
    (f : Format) (e : Bytes) (es : List Bytes) (ending : Option Bytes) (ms : List Member)
    (c : Counters)
    → All IsElement (e ∷ es)
    → (extract_members f (absolute e es) ending ms c).0 ≡ none
    → All IsConfined ms
      × ((extract_members f (absolute e es) ending ms c).1.files
          ≡ c.files ++ stored f (absolute e es) ms)
unfolding extract_members stored
extract_members-whole f e es ending [] c parts done = (tt, sym (append-nil c.files))
extract_members-whole f e es ending (m ∷ ms) c parts done =
    let root = absolute e es in
    let now = added f (place root m.name) m in
    step-lem (λ c'. IsConfined m × (c'.files ≡ c.files ++ now))
      (λ c'. All IsConfined (m ∷ ms) × (c'.files ≡ c.files ++ (now ++ stored f root ms)))
      (extract_member f root m c) (λ c'. extract_members f root ending ms c')
      (extract_member-whole f e es m c parts)
      (λ c' (first, files) done.
        let (rest, all) = extract_members-whole f e es ending ms c' parts done in
        (
          (first, rest),
          all ∙ ap (λ x. x ++ stored f root ms) files ∙ append_assoc c.files now (stored f root ms),
        ))
      done

-- An extraction that succeeds, into a directory whose absolute path is `/` and proper names joined
-- by `/`: no member was a link; every name, trimmed and cleaned, is `.` or consists of proper names
-- (none empty, `.` or `..`); and the writes to files were exactly those of the file members, in
-- their order, each with the member's whole content, at the directory's path followed by `/` and
-- the cleaned name (or at the directory's own, for `.`).
pub extract_archive-whole :
    (f : Format) (e : Bytes) (es : List Bytes) (next : Option Bytes) (ms : List Member)
    → All IsElement (e ∷ es)
    → (extract_archive f (b'/' ∷ join slash (e ∷ es)) next ms).0 ≡ none
    → All IsConfined ms
      × ((extract_archive f (b'/' ∷ join slash (e ∷ es)) next ms).1.files
          ≡ stored f (b'/' ∷ join slash (e ∷ es)) ms)
unfolding extract_archive
extract_archive-whole f e es next ms parts done =
    extract_members-whole f e es (ending_of f next) ms new_counters parts done
