-- ===== src/FileSystem/Tests.antt =====
-- Examples for the listing, the searches and the reading of files.
use vivi.Base.{
  max, ◌≡◌, refl, true, false, Option, none, some, List, [], ◌∷◌, codes, ◌==◌, text_lt, trim,
  is_space, take, All,
}
use vivi.Base.Strings.{Text}
use vivi.Base.Order.{text_lt_asym, not_lt_trans}
use vivi.Base.Sorting.{IsOrder, sort_by}
use vivi.CommentFields.{ok}
use vivi.PathPolicy.{ok, refused, is_ignored_path, is_excluded, join_path}
use vivi.ViewerKind.{from_last_dot}
use vivi.FileSystem.{
  NodeFileSystem, Disk, empty, file_entry, directory_entry, FileSearchResult, scan_directory,
  walk_files, tree_files, is_skipped, is_included,
}
use vivi.FileSystem.Queries.{Bytes, search_files, terms_of, ranks_before, on_index_file}
use vivi.FileSystem.Walking.{run_until, walk_files-run_until}
use vivi.FileSystem.Searching.{all_files}
use vivi.FileSystem.Ranking.{matching, search_files-best}
use vivi.FileSystem.Showing.{IsShown, scan_directory-IsShown}
use vivi.FileSystem.Resolving.{resolve_inside_root}
use vivi.FileSystem.Depth.{
  read_directory, project_tree_depth, parent_or_null, read_directory-project_tree_depth,
}
use vivi.FileSystem.Reading.{Stat, file, FileCodecs}

-- What the examples compute.
runs : Unit {0}
unfolding scan_directory tree_files terms_of is_skipped is_included is_ignored_path is_excluded ◌==◌
    trim is_space join_path resolve_inside_root
runs = tt

abbrev files : NodeFileSystem
files = record {
  ignored_names = codes "node_modules" ∷ [];
  include_extensions = none;
  exclude_patterns = [];
  max_file_size_bytes = 100;
  extension = from_last_dot;
  to_lower_case = λ s. s;
}

abbrev disk : Disk
disk = directory_entry (codes "docs") true false (file_entry (codes "a.md") true false 7 empty) (
    directory_entry (codes "node_modules") true false (file_entry (codes "b.md") true false 7 empty)
      (file_entry (codes "c.md") true false 9 empty))

abbrev read_all : Text → Option Bytes
read_all path = some record { has_nul = false; text = codes "one two" }

abbrev two : List Text
two = codes "docs/a.md" ∷ codes "c.md" ∷ []

abbrev paths : List FileSearchResult → List Text
paths [] = []
paths (f ∷ fs) = f.path ∷ paths fs

-- What lies under an ignored name is not listed.
lists : paths (all_files files disk) ≡ two
unfolding runs
lists = refl

scan_directory-IsShown_example :
    All (IsShown files) (tree_files (scan_directory files [] none none disk))
scan_directory-IsShown_example = scan_directory-IsShown files [] none none disk

walk_files-run_until_example :
    walk_files files on_index_file [] disk []
    ≡ run_until on_index_file [] (tree_files (scan_directory files [] none none disk))
walk_files-run_until_example = walk_files-run_until files on_index_file [] none disk []

text_lt-IsOrder : IsOrder text_lt
text_lt-IsOrder = record {
  asym = text_lt_asym;
  not_before_trans = λ x y z h k. not_lt_trans z y x k h;
}

terms_md : terms_of files (codes " md") ≡ codes "md" ∷ []
unfolding runs
terms_md = refl

search_files-best_example :
    search_files text_lt files (codes " md") 1 disk
    ≡ take 1
        (sort_by (ranks_before text_lt) (matching files (codes "md" ∷ []) (all_files files disk)))
search_files-best_example =
    search_files-best text_lt files (codes " md") 1 disk (codes "md") [] text_lt-IsOrder terms_md

abbrev codecs : FileCodecs
codecs = record { decode = λ s. some s; sha256 = λ s. s; base64 = λ s. s }

abbrev stat : Text → Stat
stat path = file (codes "1") (codes "one two")

abbrev real : Text → Option Text
real path = some path

accepted :
    resolve_inside_root files (λ s. s) real (codes "docs/./a.md") false ≡ ok (codes "docs/a.md")
unfolding runs
accepted = refl

-- A name that starts with two dots is refused, although it lies inside the root.
two_dots :
    resolve_inside_root files (λ s. s) real (codes "..a.md") false
    ≡ refused (codes "path escapes root")
unfolding runs
two_dots = refl

-- The subdirectory is shown without its file at depth 1.
read_directory-project_tree_depth_example :
    read_directory files [] 1 disk
    ≡ project_tree_depth (max 1 1) (scan_directory files [] (parent_or_null []) none disk)
read_directory-project_tree_depth_example = read_directory-project_tree_depth files [] 1 disk
