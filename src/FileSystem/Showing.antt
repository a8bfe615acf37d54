-- ===== src/FileSystem/Showing.antt =====
-- server/typescript/infrastructure/node-file-system.ts: the files that a tree lists.
use vivi.Base.{
  ℕ, ◌≡◌, ◌⊎◌, Bool, true, false, not, ◌&&◌, ◌||◌, Option, some, List, [], ◌∷◌, ◌++◌, All, arith,
  Bool-cases, inl, inr, if◌then◌else◌,
}
use vivi.Base.Strings.{Text}
use vivi.FileSystem.{
  NodeFileSystem, Disk, empty, file_entry, directory_entry, other_entry, FsNodes, directory_node,
  FileSearchResult, is_included, is_hidden_path, is_skipped, has_deeper, less_deep, has_extensions,
  is_nil, child_path, scan_directory, tree_files,
}

All-append {ℓ κ} :
    {A : Type ℓ} (P : A → Type κ) (xs ys : List A) → All P xs → All P ys → All P (xs ++ ys)
All-append P [] ys h k = k
All-append P (x ∷ xs) ys h k = (h.0, All-append P xs ys h.1 k)

not_skipped :
    (o : NodeFileSystem) (path : Text) (inside : Bool)
    → is_skipped o path inside ≡ false
    → is_hidden_path o path ≡ false
unfolding is_skipped
not_skipped o path inside e = ground (arith, e)

module _ (o : NodeFileSystem) where
  -- A file that is not left out: no ignored name and no exclude pattern hides it, and its extension is one that is shown.
  abbrev pub IsShown : FileSearchResult → Type 0
  IsShown file = (is_hidden_path o file.path ≡ false) × (is_included o file.path ≡ true)

  -- Every file of a tree, of whatever depth and directory, is one that is not left out.
  pub scan_directory-IsShown :
      (dir : Text) (parent : Option Text) (depth : Option ℕ) (disk : Disk)
      → All IsShown (tree_files (scan_directory o dir parent depth disk))
  unfolding scan_directory tree_files
  scan_directory-IsShown dir parent depth empty = tt
  scan_directory-IsShown dir parent depth (file_entry name inside symlink size rest) =
      elim (Bool-cases (is_skipped o (child_path dir name) inside)) [
        | inl e ↦ rw e (scan_directory-IsShown dir parent depth rest)
        | inr e ↦ rw e (elim (Bool-cases (is_included o (child_path dir name))) [
          | inl k ↦ rw k (
            (not_skipped o (child_path dir name) inside e, k),
            scan_directory-IsShown dir parent depth rest,
          )
          | inr k ↦ rw k (scan_directory-IsShown dir parent depth rest)
        ])
      ]
  scan_directory-IsShown dir parent depth (directory_entry name inside symlink inner rest) =
      elim (Bool-cases (is_skipped o (child_path dir name) inside || symlink)) [
        | inl e ↦ rw e (scan_directory-IsShown dir parent depth rest)
        | inr e ↦ rw e (elim (Bool-cases (not (has_deeper depth))) [
          | inl k ↦ rw k (scan_directory-IsShown dir parent depth rest)
          | inr k ↦ rw k (
              by_children (Bool-cases (has_extensions o && is_nil children))
                (scan_directory-IsShown (child_path dir name) (some (child_path dir name))
                  (less_deep depth) inner)
                (scan_directory-IsShown dir parent depth rest))
        ])
      ]
    where
      children : FsNodes
      children =
          scan_directory o (child_path dir name) (some (child_path dir name)) (less_deep depth)
            inner

      others : FsNodes
      others = scan_directory o dir parent depth rest

      by_children :
          ((has_extensions o && is_nil children) ≡ true)
            ⊎ ((has_extensions o && is_nil children) ≡ false)
          → All IsShown (tree_files children)
          → All IsShown (tree_files others)
          → All IsShown (
              tree_files (
                if has_extensions o && is_nil children
                then others
                else directory_node (child_path dir name) name parent children others))
      by_children (inl k) h r = rw k r
      by_children (inr k) h r =
          rw k (All-append IsShown (tree_files children) (tree_files others) h r)
  scan_directory-IsShown dir parent depth (other_entry name inside symlink rest) =
      scan_directory-IsShown dir parent depth rest
