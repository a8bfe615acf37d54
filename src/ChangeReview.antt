-- ===== src/ChangeReview.antt =====
-- server/typescript/domain/change-review.ts: the status of `git status --porcelain -z`, and the
-- unified diff that the server builds from a line diff. `localeCompare` is a parameter.
pub mod Porcelain
mod Tests
use vivi.Base.{
  ℕ, ◌+◌, Bool, true, false, not, ◌&&◌, ◌||◌, Option, none, some, List, [], ◌∷◌, ◌++◌, map, max,
  codes, ◌==◌, is_empty, show, length, count, filter, take, drop, eqb, any, if◌then◌else◌,
}
use vivi.Base.Strings.{Text}
use vivi.Base.Sorting.{sort_by}
use vivi.Base.Lines.{lf, split_lines, join_lines}
use vivi.LineDiff.{DiffOp, context, remove, add, build_interleaved_line_diff}

pub data GitChangeStatus : Type 0 where
  added modified deleted renamed : GitChangeStatus

pub record GitChange : Type 0 where
  pub path : Text
  pub status : GitChangeStatus
  pub original_path : Option Text

pub data DiffStatus : Type 0 where
  available too_large binary unavailable : DiffStatus

-- A diff as the server sends it; its kind, labels and reason are left out.
pub record TextDiff : Type 0 where
  pub path : Text
  pub status : DiffStatus
  pub content : Text

-- `code.includes(letter)`
abbrev pub includes : Text → ℕ → Bool
includes [] c = false
includes (d ∷ s) c = eqb d c || includes s c

unfoldable pub status_from_code : Text → Option GitChangeStatus
status_from_code code =
    if includes code b'R'
    then some renamed
    else if (code == codes "??") || includes code b'A'
    then some added
    else if includes code b'D'
    then some deleted
    else if includes code b'M' || includes code b'T'
    then some modified
    else none

-- The change of an entry, and whether it takes the next entry for its original path.
abbrev pub plain_change : Text → GitChangeStatus → GitChange
plain_change path status = record { path = path; status = status; original_path = none }

abbrev pub renamed_change : Text → Text → GitChange
renamed_change path original = record {
  path = path;
  status = renamed;
  original_path = some original;
}

abbrev pub is_renamed : Option GitChangeStatus → Bool
is_renamed (some renamed) = true
is_renamed _ = false

-- What an entry gives when it does not rename, or is the last one.
abbrev pub entry_changes : Text → Option GitChangeStatus → List GitChange
entry_changes path none = []
entry_changes path (some status) = if is_empty path then [] else plain_change path status ∷ []

-- The loop of `parseGitPorcelainStatus`. An entry is two letters, a space and a path; a renamed one
-- is followed by the path that it had. The entries are not empty.
unfoldable pub parse_entries : List Text → List GitChange
unfolding status_from_code
parse_entries [] = []
parse_entries (entry ∷ []) = entry_changes (drop 3 entry) (status_from_code (take 2 entry))
parse_entries (entry ∷ next ∷ entries) =
    let path = drop 3 entry in
    let status = status_from_code (take 2 entry) in
    let skipped = parse_entries entries in
    let rest = parse_entries (next ∷ entries) in
    if is_renamed status && not (is_empty path)
    then renamed_change path next ∷ skipped
    else entry_changes path status ++ rest

abbrev push_unit : ℕ → List Text → List Text
push_unit c [] = (c ∷ []) ∷ []
push_unit c (l ∷ ls) = (c ∷ l) ∷ ls

-- `output.split("\0")`
unfoldable pub split_nul : Text → List Text
split_nul [] = [] ∷ []
split_nul (c ∷ s) = let rest = split_nul s in if eqb c 0 then [] ∷ rest else push_unit c rest

-- `a.path.localeCompare(b.path)` is negative.
abbrev pub change_before : (Text → Text → Bool) → GitChange → GitChange → Bool
change_before locale_before a b = locale_before a.path b.path

unfoldable pub parse_git_porcelain_status : (Text → Text → Bool) → Text → List GitChange
unfolding parse_entries split_nul sort_by
parse_git_porcelain_status locale_before output =
    sort_by (change_before locale_before)
      (parse_entries (filter (λ entry. not (is_empty entry)) (split_nul output)))

-- `content.endsWith("\n") ? content.slice(0, -1) : content`
abbrev pub drop_last_lf : Text → Text
drop_last_lf [] = []
drop_last_lf (c ∷ []) = if eqb c lf then [] else c ∷ []
drop_last_lf (c ∷ d ∷ s) = c ∷ drop_last_lf (d ∷ s)

unfoldable pub content_lines : Text → List Text
unfolding split_lines
content_lines [] = [] ∷ []
content_lines (c ∷ s) = split_lines (drop_last_lf (c ∷ s))

unfoldable pub format_diff_op : DiffOp → Text
format_diff_op (add line n) = b'+' ∷ line
format_diff_op (remove line n) = b'-' ∷ line
format_diff_op (context line m n) = b' ' ∷ line

abbrev pub is_add : DiffOp → Bool
is_add (add line n) = true
is_add _ = false

abbrev pub is_remove : DiffOp → Bool
is_remove (remove line n) = true
is_remove _ = false

abbrev pub hunk_header : ℕ → ℕ → Text
hunk_header old_count new_count =
    codes "@@ -1," ++ (show old_count ++ (codes " +1," ++ (show new_count ++ codes " @@")))

unfoldable pub build_full_file_diff_lines : List Text → List Text → List Text
unfolding build_interleaved_line_diff format_diff_op
build_full_file_diff_lines olds news =
    let ops = build_interleaved_line_diff olds news in
    hunk_header (count (λ op. not (is_add op)) ops) (count (λ op. not (is_remove op)) ops)
    ∷ map format_diff_op ops

unfoldable pub build_full_file_diff : Text → Text → Text → Text
unfolding content_lines build_full_file_diff_lines join_lines
build_full_file_diff path before after = join_lines (
    (codes "diff --git a/" ++ (path ++ (codes " b/" ++ path)))
    ∷ codes "index 0000000..0000000"
    ∷ (codes "--- a/" ++ path)
    ∷ (codes "+++ b/" ++ path)
    ∷ build_full_file_diff_lines (content_lines before) (content_lines after))

unfoldable pub build_added_file_diff : Text → Text → Text
unfolding content_lines join_lines show
build_added_file_diff path content =
    let lines = content_lines content in
    join_lines (
      (codes "diff --git a/dev/null b/" ++ path)
      ∷ codes "new file mode 100644"
      ∷ codes "index 0000000..0000000"
      ∷ codes "--- /dev/null"
      ∷ (codes "+++ b/" ++ path)
      ∷ (codes "@@ -0,0 +1," ++ (show (max (length lines) 1) ++ codes " @@"))
      ∷ map (λ line. b'+' ∷ line) lines)

unfoldable pub build_deleted_file_diff : Text → Text → Text
unfolding content_lines join_lines show
build_deleted_file_diff path content =
    let lines = content_lines content in
    join_lines (
      (codes "diff --git a/" ++ (path ++ codes " b/dev/null"))
      ∷ codes "deleted file mode 100644"
      ∷ codes "index 0000000..0000000"
      ∷ (codes "--- a/" ++ path)
      ∷ codes "+++ /dev/null"
      ∷ (codes "@@ -1," ++ (show (max (length lines) 1) ++ codes " +0,0 @@"))
      ∷ map (λ line. b'-' ∷ line) lines)
