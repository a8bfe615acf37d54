-- ===== src/FileSystem.antt =====
-- server/typescript/infrastructure/node-file-system.ts: which files of the workspace are listed, read and searched. The disk
-- is a value: what readdir, stat and realpath answer, with the entries of a directory in the order of localeCompare.
-- `path.extname`, `toLowerCase` and the content of files are parameters; a directory or file that cannot be looked at, the
-- counters, times and the cache of the file index are left out.
pub mod Walking
pub mod Queries
pub mod Searching
pub mod Matches
pub mod Ranking
pub mod Resolving
pub mod Reading
pub mod Texts
pub mod Contents
pub mod Showing
pub mod Depth
mod Tests
use vivi.Base.{
  ℕ, ◌+◌, ◌-◌, Bool, true, false, not, ◌&&◌, ◌||◌, Option, none, some, List, [], ◌∷◌, ◌++◌,
  is_empty, contains, ltb, eqb, if◌then◌else◌,
}
use mathlib.Core.Option
use vivi.Base.Strings.{Text}
use vivi.PathPolicy.{PatternSegment, is_ignored_path, is_excluded}
use vivi.PathPolicy
use vivi.ViewerKind.{classify_viewer}

pub record NodeFileSystem : Type 0 where
  pub ignored_names : List Text
  pub include_extensions : Option (List Text)
  pub exclude_patterns : List (List PatternSegment)
  pub max_file_size_bytes : ℕ
  pub extension : Text → Text
  pub to_lower_case : Text → Text

-- What readdir lists: each entry with its name, whether its real path is inside the root, whether it is a symbolic link, and
-- what stat says of it.
pub data Disk : Type 0 where
  empty : Disk
  file_entry : Text → Bool → Bool → ℕ → Disk → Disk
  directory_entry : Text → Bool → Bool → Disk → Disk → Disk
  other_entry : Text → Bool → Bool → Disk → Disk

-- The nodes of a tree, with path, name and parent; a file with its viewer kind and size, a directory with its children or
-- with none loaded.
pub data FsNodes : Type 0 where
  nil : FsNodes
  file_node : Text → Text → Option Text → Text → ℕ → FsNodes → FsNodes
  directory_node : Text → Text → Option Text → FsNodes → FsNodes → FsNodes
  unread_directory : Text → Text → Option Text → FsNodes → FsNodes

pub record FileSearchResult : Type 0 where
  pub path : Text
  pub name : Text
  pub viewer_kind : Text
  pub size : ℕ
  pub score : ℕ

-- `.replace(/^\./, "")`
abbrev pub without_dot : Text → Text
without_dot [] = []
without_dot (c ∷ s) = if eqb c 46 then s else c ∷ s

-- `this.includeExtensions?.size`
abbrev pub has_extensions : NodeFileSystem → Bool
has_extensions o = elim o.include_extensions [
  | none ↦ false
  | some [] ↦ false
  | some (e ∷ es) ↦ true
]

unfoldable pub is_included : NodeFileSystem → Text → Bool
is_included o path = elim o.include_extensions [
  | none ↦ true
  | some [] ↦ true
  | some (e ∷ es) ↦ contains (e ∷ es) (without_dot (o.to_lower_case (o.extension path)))
]

unfoldable pub is_hidden_path : NodeFileSystem → Text → Bool
is_hidden_path o path = is_ignored_path o.ignored_names path || is_excluded o.exclude_patterns path

abbrev pub child_path : Text → Text → Text
child_path dir name = if is_empty dir then name else dir ++ 47 ∷ name

-- Whether a tree of a depth, infinite if `none`, has a further level, and the depth of that.
abbrev pub has_deeper : Option ℕ → Bool
has_deeper none = true
has_deeper (some n) = ltb 1 n

abbrev pub less_deep : Option ℕ → Option ℕ
less_deep none = none
less_deep (some n) = some (n - 1)

abbrev pub is_nil : FsNodes → Bool
is_nil nil = true
is_nil _ = false

module _ (o : NodeFileSystem) where
  -- Whether the loops skip an entry before they look at what it is.
  unfoldable pub is_skipped : Text → Bool → Bool
  unfolding is_hidden_path
  is_skipped path inside = is_hidden_path o path || not inside

  unfoldable pub scan_directory : Text → Option Text → Option ℕ → Disk → FsNodes
  scan_directory dir parent depth empty = nil
  scan_directory dir parent depth (file_entry name inside symlink size rest) =
      let others = scan_directory dir parent depth rest in
      let path = child_path dir name in
      if is_skipped path inside
      then others
      else if not (is_included o path)
      then others
      else file_node path name parent (classify_viewer o.to_lower_case path) size others
  scan_directory dir parent depth (directory_entry name inside symlink inner rest) =
      let others = scan_directory dir parent depth rest in
      let path = child_path dir name in
      let children = scan_directory path (some path) (less_deep depth) inner in
      if is_skipped path inside || symlink
      then others
      else if not (has_deeper depth)
      then unread_directory path name parent others
      else if has_extensions o && is_nil children
      then others
      else directory_node path name parent children others
  scan_directory dir parent depth (other_entry name inside symlink rest) =
      scan_directory dir parent depth rest

  abbrev pub found_file : Text → Text → ℕ → FileSearchResult
  found_file path name size = record {
    path = path;
    name = name;
    viewer_kind = classify_viewer o.to_lower_case path;
    size = size;
    score = 0;
  }

  -- `walkFiles` with what its callback does to a state, and whether it wants to go on.
  module _ {S : Type 0} (on_file : S → FileSearchResult → S × Bool) where
    unfoldable pub walk_files : Text → Disk → S → S × Bool
    walk_files dir empty s = (s, true)
    walk_files dir (file_entry name inside symlink size rest) s =
        let path = child_path dir name in
        if is_skipped path inside
        then walk_files dir rest s
        else if not (is_included o path)
        then walk_files dir rest s
        else (let seen = on_file s (found_file path name size) in
            let later = walk_files dir rest seen.0 in if seen.1 then later else (seen.0, false))
    walk_files dir (directory_entry name inside symlink inner rest) s =
        let path = child_path dir name in
        if is_skipped path inside || symlink
        then walk_files dir rest s
        else (let seen = walk_files path inner s in
            let later = walk_files dir rest seen.0 in if seen.1 then later else (seen.0, false))
    walk_files dir (other_entry name inside symlink rest) s = walk_files dir rest s

-- The files of a tree, in order.
unfoldable pub tree_files : FsNodes → List FileSearchResult
tree_files nil = []
tree_files (file_node path name parent kind size rest) =
    record { path = path; name = name; viewer_kind = kind; size = size; score = 0 }
    ∷ tree_files rest
tree_files (directory_node path name parent children rest) = tree_files children ++ tree_files rest
tree_files (unread_directory path name parent rest) = tree_files rest
