-- ===== src/FileSystem/Depth.antt =====
-- server/typescript/infrastructure/node-file-system.ts: a tree up to a depth.
use vivi.Base.{
  ℕ, suc, ◌+◌, ◌-◌, max, ◌≡◌, refl, sym, ap, false, not, ◌||◌, Option, none, some, [], Bool-cases,
  inl, inr, is_empty, ltb, if◌then◌else◌,
}
use vivi.Base.Strings.{Text}
use vivi.ViewerKind.{classify_viewer}
use vivi.FileSystem.{
  NodeFileSystem, Disk, empty, file_entry, directory_entry, other_entry, FsNodes, nil, file_node,
  directory_node, unread_directory, is_included, is_skipped, has_extensions, child_path,
  scan_directory,
}

-- The directories at the depth lose their children; one without children that lies higher gets an empty list of them.
unfoldable pub project_tree_depth : ℕ → FsNodes → FsNodes
project_tree_depth depth nil = nil
project_tree_depth depth (file_node path name parent kind size rest) =
    file_node path name parent kind size (project_tree_depth depth rest)
project_tree_depth depth (directory_node path name parent children rest) =
    let others = project_tree_depth depth rest in
    let inner = project_tree_depth (depth - 1) children in
    if ltb 1 depth
    then directory_node path name parent inner others
    else unread_directory path name parent others
project_tree_depth depth (unread_directory path name parent rest) =
    let others = project_tree_depth depth rest in
    if ltb 1 depth
    then directory_node path name parent nil others
    else unread_directory path name parent others

unfoldable pub count_tree_nodes : FsNodes → ℕ
count_tree_nodes nil = 0
count_tree_nodes (file_node path name parent kind size rest) = suc (count_tree_nodes rest)
count_tree_nodes (directory_node path name parent children rest) =
    suc (count_tree_nodes children + count_tree_nodes rest)
count_tree_nodes (unread_directory path name parent rest) = suc (count_tree_nodes rest)

-- `resolved.relativePath || null`
abbrev pub parent_or_null : Text → Option Text
parent_or_null path = if is_empty path then none else some path

module _ (o : NodeFileSystem) where
  unfoldable pub read_tree : Disk → FsNodes
  unfolding scan_directory
  read_tree disk = scan_directory o [] none none disk

  -- The nodes of a directory whose path is resolved, with its entries.
  unfoldable pub read_directory : Text → ℕ → Disk → FsNodes
  unfolding scan_directory project_tree_depth
  read_directory path depth disk =
      if has_extensions o
      then project_tree_depth (max 1 depth) (scan_directory o path (parent_or_null path) none disk)
      else scan_directory o path (parent_or_null path) (some (max 1 depth)) disk

  project_tree_depth-scan_directory :
      (dir : Text) (parent : Option Text) (depth : ℕ) (disk : Disk)
      → has_extensions o ≡ false
      → project_tree_depth depth (scan_directory o dir parent none disk)
        ≡ scan_directory o dir parent (some depth) disk
  unfolding scan_directory project_tree_depth
  project_tree_depth-scan_directory dir parent depth empty h = refl
  project_tree_depth-scan_directory dir parent depth (file_entry name inside symlink size rest) h =
      elim (Bool-cases (is_skipped o (child_path dir name) inside)) [
        | inl e ↦ rw e (project_tree_depth-scan_directory dir parent depth rest h)
        | inr e ↦ rw e (elim (Bool-cases (not (is_included o (child_path dir name)))) [
          | inl k ↦ rw k (project_tree_depth-scan_directory dir parent depth rest h)
          | inr k ↦ rw k (
              ap
                (file_node (child_path dir name) name parent
                  (classify_viewer o.to_lower_case (child_path dir name)) size)
                (project_tree_depth-scan_directory dir parent depth rest h))
        ])
      ]
  project_tree_depth-scan_directory dir parent depth
        (directory_entry name inside symlink inner rest) h =
      elim (Bool-cases (is_skipped o (child_path dir name) inside || symlink)) [
        | inl e ↦ rw e (project_tree_depth-scan_directory dir parent depth rest h)
        | inr e ↦
            rw (e, h)
              (elim (Bool-cases (ltb 1 depth)) [
                | inl k ↦
                    rw
                      (
                        k,
                        project_tree_depth-scan_directory dir parent depth rest h,
                        project_tree_depth-scan_directory (child_path dir name)
                            (some (child_path dir name)) (depth - 1) inner h,
                      )
                      refl
                | inr k ↦ rw (k, project_tree_depth-scan_directory dir parent depth rest h) refl
              ])
      ]
  project_tree_depth-scan_directory dir parent depth (other_entry name inside symlink rest) h =
      project_tree_depth-scan_directory dir parent depth rest h

  -- A directory is read as the whole tree below it, cut off at the depth, whether the walk stops there or, where directories
  -- without a file that is shown are left out, the tree is cut off afterwards.
  pub read_directory-project_tree_depth :
      (path : Text) (depth : ℕ) (disk : Disk)
      → read_directory path depth disk
        ≡ project_tree_depth (max 1 depth) (scan_directory o path (parent_or_null path) none disk)
  unfolding read_directory
  read_directory-project_tree_depth path depth disk = elim (Bool-cases (has_extensions o)) [
    | inl h ↦ rw h refl
    | inr h ↦
        rw h
          (sym (project_tree_depth-scan_directory path (parent_or_null path) (max 1 depth) disk h))
  ]
