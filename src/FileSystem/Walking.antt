-- ===== src/FileSystem/Walking.antt =====
-- server/typescript/infrastructure/node-file-system.ts: the walk over the files is a loop over the files of the tree.
use vivi.Base.{
  ◌≡◌, refl, sym, ap, ◌∙◌, Bool, true, false, not, ◌&&◌, ◌||◌, Option, none, some, List, [], ◌∷◌,
  ◌++◌, arith, Bool-cases, inl, inr, if◌then◌else◌,
}
use vivi.Base.Strings.{Text}
use vivi.FileSystem.{
  NodeFileSystem, Disk, empty, file_entry, directory_entry, other_entry, FsNodes, nil, file_node,
  directory_node, unread_directory, FileSearchResult, is_included, is_skipped, has_extensions,
  is_nil, child_path, found_file, scan_directory, walk_files, tree_files,
}

-- A callback run over a list until it does not want to go on.
abbrev pub run_until {ℓ} : {A : Type ℓ} {S : Type 0} → (S → A → S × Bool) → S → List A → S × Bool
run_until f s [] = (s, true)
run_until f s (x ∷ xs) =
    let seen = f s x in
    let later = run_until f seen.0 xs in if seen.1 then later else (seen.0, false)

run_until-append {ℓ} :
    {A : Type ℓ} {S : Type 0} (f : S → A → S × Bool) (s : S) (xs ys : List A)
    → run_until f s (xs ++ ys) ≡ (
        let seen = run_until f s xs in
        let later = run_until f seen.0 ys in if seen.1 then later else (seen.0, false))
run_until-append f s [] ys = refl
run_until-append f s (x ∷ xs) ys = elim (Bool-cases (f s x).1) [
  | inl e ↦ rw e (run_until-append f (f s x).0 xs ys)
  | inr e ↦ rw e refl
]

tree_files-nil : (n : FsNodes) → is_nil n ≡ true → tree_files n ≡ []
unfolding tree_files
tree_files-nil nil h = refl
tree_files-nil (file_node p n q k s r) h = cc
tree_files-nil (directory_node p n q c r) h = cc
tree_files-nil (unread_directory p n q r) h = cc

module _ (o : NodeFileSystem) {S : Type 0} (on_file : S → FileSearchResult → S × Bool) where
  -- The walk over a directory, whatever its callback does, is the callback run, in order and until it does not want to go on,
  -- over the files that the whole tree of the directory lists.
  pub walk_files-run_until :
      (dir : Text) (parent : Option Text) (disk : Disk) (s : S)
      → walk_files o on_file dir disk s
        ≡ run_until on_file s (tree_files (scan_directory o dir parent none disk))
  unfolding walk_files scan_directory tree_files
  walk_files-run_until dir parent empty s = refl
  walk_files-run_until dir parent (file_entry name inside symlink size rest) s =
      elim (Bool-cases (is_skipped o (child_path dir name) inside)) [
        | inl e ↦ rw e (walk_files-run_until dir parent rest s)
        | inr e ↦ rw e (elim (Bool-cases (not (is_included o (child_path dir name)))) [
          | inl k ↦ rw k (walk_files-run_until dir parent rest s)
          | inr k ↦ rw k (
              ap (λ later. if seen.1 then later else (seen.0, false))
                (walk_files-run_until dir parent rest seen.0))
        ])
      ]
    where
      seen : S × Bool
      seen = on_file s (found_file o (child_path dir name) name size)
  walk_files-run_until dir parent (directory_entry name inside symlink inner rest) s =
      elim (Bool-cases (is_skipped o (child_path dir name) inside || symlink)) [
        | inl e ↦ rw e (walk_files-run_until dir parent rest s)
        | inr e ↦ rw e (elim (Bool-cases (has_extensions o && is_nil children)) [
          | inl k ↦ rw k (
              ap after (
                (walk_files-run_until (child_path dir name) (some (child_path dir name)) inner s)
                ∙ ap (run_until on_file s) (tree_files-nil children (ground (arith, k))))
              ∙ walk_files-run_until dir parent rest s)
          | inr k ↦ rw k (
              ap after
                (walk_files-run_until (child_path dir name) (some (child_path dir name)) inner s)
              ∙ ap
                  (λ later.
                    if (run_until on_file s (tree_files children)).1
                    then later
                    else ((run_until on_file s (tree_files children)).0, false))
                  (walk_files-run_until dir parent rest
                    (run_until on_file s (tree_files children)).0)
              ∙ sym (
                  run_until-append on_file s (tree_files children)
                    (tree_files (scan_directory o dir parent none rest))))
        ])
      ]
    where
      path : Text
      path = child_path dir name

      children : FsNodes
      children = scan_directory o path (some path) none inner

      after : S × Bool → S × Bool
      after seen =
          let later = walk_files o on_file dir rest seen.0 in
          if seen.1 then later else (seen.0, false)
  walk_files-run_until dir parent (other_entry name inside symlink rest) s =
      walk_files-run_until dir parent rest s
