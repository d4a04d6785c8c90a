-- ===== src/Base/Paths.antt =====
-- Slash paths as `path/filepath` reads them on Unix: `clean` is `filepath.Clean`, `join_path`
-- `filepath.Join`.
pub mod Elements
pub mod Whole
use mathlib.Core.Bool.{Bool, true, false, not, ◌||◌}
use mathlib.Core.List.{List, [], ◌∷◌, ◌++◌, reverse, foldl}
use space_elevator.Base.Tests.{◌==◌, if◌then◌else◌}
use space_elevator.Base.Lists.{sift}
use space_elevator.Base.Text.{Bytes, bytes, is_empty, same_bytes}
use space_elevator.Base.Text.Split.{split, join}

abbrev pub dot : Bytes
dot = b'.' ∷ []

abbrev pub dot_dot : Bytes
dot_dot = b'.' ∷ b'.' ∷ []

abbrev pub slash : Bytes
slash = b'/' ∷ []

-- filepath.IsAbs
abbrev pub is_abs : Bytes → Bool
is_abs [] = false
is_abs (c ∷ s) = c == b'/'

-- What `..` does to the elements so far, the last first.
abbrev pub leave_element : Bool → List Bytes → List Bytes
leave_element true [] = []
leave_element false [] = dot_dot ∷ []
leave_element rooted (e ∷ out) = if same_bytes e dot_dot then dot_dot ∷ e ∷ out else out

abbrev pub clean_element : Bool → List Bytes → Bytes → List Bytes
clean_element rooted out e =
    if is_empty e || same_bytes e dot
    then out
    else if same_bytes e dot_dot
    then leave_element rooted out
    else e ∷ out

abbrev pub clean_elements : Bytes → List Bytes
clean_elements s = foldl (clean_element (is_abs s)) [] (split b'/' s)

abbrev pub of_elements : Bool → List Bytes → Bytes
of_elements true out = b'/' ∷ join slash (reverse out)
of_elements false [] = dot
of_elements false (e ∷ out) = join slash (reverse (e ∷ out))

unfoldable pub clean : Bytes → Bytes
unfolding split join
clean s = of_elements (is_abs s) (clean_elements s)

-- Empty elements at the front are dropped, and nothing but them is the empty path.
unfoldable pub join_path : List Bytes → Bytes
unfolding clean
join_path [] = []
join_path ([] ∷ rest) = join_path rest
join_path ((c ∷ s) ∷ rest) = clean (join slash ((c ∷ s) ∷ rest))

-- The elements of an absolute path.
abbrev pub elements : Bytes → List Bytes
elements s = sift (λ e. not (is_empty e)) (split b'/' s)

abbrev pub climbing : List Bytes → List Bytes
climbing [] = []
climbing (e ∷ es) = dot_dot ∷ climbing es

-- From a directory to a path: up from what they do not share, and down again.
unfoldable pub rel_elements : List Bytes → List Bytes → List Bytes
rel_elements [] ts = ts
rel_elements (e ∷ es) [] = climbing (e ∷ es)
rel_elements (e ∷ es) (t ∷ ts) =
    let rest = rel_elements es ts in if same_bytes e t then rest else climbing (e ∷ es) ++ t ∷ ts

-- filepath.Rel between absolute paths, which does not fail
unfoldable pub rel_path : Bytes → Bytes → Bytes
unfolding clean rel_elements sift
rel_path base target =
    let b = clean base in
    let t = clean target in
    if same_bytes b t then dot else join slash (rel_elements (elements b) (elements t))
