-- ===== src/Builder/Tests.antt =====
-- The extraction of internal/builder on concrete archives.
use space_elevator.Base.{
  ◌+◌, ◌*◌, ◌^◌, ◌≤◌, ◌≡◌, refl, none, some, List, [], ◌∷◌, inl, inr, Bytes, bytes, All, length,
  split, join, slash, clean, join_path, rel_path, trim_space, has_prefix,
}
use space_elevator.Base.Paths.{rel_elements}
use space_elevator.Builder.Archive.{
  Flag, link, directory, regular, Member, tar_gz, zip, extract_archive, extract_members,
  extract_member, put_member, put_tar_member, extract_directory, extract_file, copy_and_count,
  add_entry, add_bytes, copy_archive_data, copied, with_file,
}
use space_elevator.Builder.Archive.SafeJoin.{
  Look, missing, safe_join, join_below, reject_symlink_components, reject_components,
}
use space_elevator.Builder.Archive.Caps.{extract_archive_bounded}
use space_elevator.Builder.Archive.Contents.{extract_archive-whole, IsConfined, stored}

abbrev nothing_there : Bytes → Look
nothing_there path = missing

abbrev member : Flag → Bytes → Bytes → Member
member flag name content = record {
  name = name;
  lstat = nothing_there;
  flag = flag;
  size = some (length content);
  make_directory = none;
  open_file = none;
  open_member = none;
  content = content;
  read = none;
  close = none;
}

abbrev site : List Member
site =
    member directory (bytes "a/") []
    ∷ member regular (bytes "./a/b.txt") (bytes "hello")
    ∷ member regular (bytes "i") (bytes "<p>")
    ∷ []

abbrev drops : Bytes
drops = bytes "/srv/drops"

-- The names of archive_test.go.
joined_a : safe_join nothing_there drops (bytes "./a/b.txt") ≡ inr (bytes "/srv/drops/a/b.txt")
unfolding safe_join join_below reject_symlink_components reject_components clean join_path rel_path
    rel_elements split join trim_space has_prefix
joined_a = refl

joined_empty : safe_join nothing_there drops [] ≡ inr drops
unfolding safe_join join_below reject_symlink_components reject_components clean join_path rel_path
    rel_elements split join trim_space has_prefix
joined_empty = refl

refused_escape :
    safe_join nothing_there drops (bytes "a/../../escape") ≡ inl (bytes "illegal path in archive")
unfolding safe_join join_below reject_symlink_components reject_components clean join_path rel_path
    rel_elements split join trim_space has_prefix
refused_escape = refl

extract_archive_bounded_example :
    let (failed, c) = extract_archive zip drops none (member link [] [] ∷ site) in
    (c.created ≤ 10_000)
    × (c.written ≤ 512 * 2 ^ 20 + 128 * 2 ^ 20 + 1)
    × (failed ≡ none → c.written ≤ 512 * 2 ^ 20)
extract_archive_bounded_example = extract_archive_bounded zip drops none (member link [] [] ∷ site)

site-succeeds :
    (extract_archive tar_gz (b'/' ∷ join slash (bytes "srv" ∷ bytes "drops" ∷ [])) none site).0
    ≡ none
unfolding extract_archive extract_members extract_member put_member put_tar_member extract_directory
    extract_file copy_and_count add_entry add_bytes copy_archive_data copied with_file safe_join
    join_below reject_symlink_components reject_components clean join_path rel_path rel_elements
    split join trim_space has_prefix
site-succeeds = refl

extract_archive-whole_example :
    All IsConfined site
    × ((extract_archive tar_gz
          (b'/' ∷ join slash (bytes "srv" ∷ bytes "drops" ∷ []))
          none
          site).1.files
        ≡ stored tar_gz (b'/' ∷ join slash (bytes "srv" ∷ bytes "drops" ∷ [])) site)
extract_archive-whole_example =
    extract_archive-whole tar_gz (bytes "srv") (bytes "drops" ∷ []) none site (refl, (refl, tt))
      site-succeeds
