-- ===== src/CommentAnchors.antt =====
-- server/typescript/domain/comments.ts: the checks on the anchor of a comment that a client sends.
pub mod Accepted
use vivi.Base.{
  ℕ, ◌+◌, Bool, true, false, not, ◌&&◌, ◌||◌, Option, none, some, List, [], ◌∷◌, ◌++◌, codes, ◌==◌,
  ltb, eqb, or_else, or_option, is_some, show, if◌then◌else◌,
}
use vivi.Base.Strings.{Text}
use vivi.Base.Json.{Json, Fields, get}
use vivi.CommentFields.{
  Result, ok, err, ◌>>=◌, is_record, string_field, optional_string, positive_int,
  optional_positive_int, is_reversed, path_or, is_string,
}
use vivi.Comments.{
  CommentSurface, source, rendered, diff, SourceAnchor, RenderedKind, markdown_page, html_page,
  RenderedAnchor, DiffSide, old, new, ChangeKind, context, added, DiffAnchor, CommentAnchor,
}

unfoldable pub normalize_source_anchor : Option Json → Text → Option Text → Result SourceAnchor
normalize_source_anchor input path file_hash = do
  fs ← is_record input (codes "invalid canonical comment anchor")
  anchor_path ← string_field (path_or (get fs (codes "path")) path) (codes "anchor.canonical.path")
  if not (anchor_path == path)
      then err (codes "canonical comment anchor path must match comment path")
      else do
        line_start ← optional_positive_int (get fs (codes "lineStart")) (codes "lineStart")
        line_end ← optional_positive_int (get fs (codes "lineEnd")) (codes "lineEnd")
        column_start ← optional_positive_int (get fs (codes "columnStart")) (codes "columnStart")
        column_end ← optional_positive_int (get fs (codes "columnEnd")) (codes "columnEnd")
        if is_reversed line_start line_end
            then err (codes "comment lineEnd must be greater than or equal to lineStart")
            else ok (record {
              path = path;
              line_start = line_start;
              line_end = line_end;
              column_start = column_start;
              column_end = column_end;
              quote = optional_string (get fs (codes "quote"));
              file_hash = or_option (optional_string (get fs (codes "fileHash"))) file_hash;
            })

abbrev pub rendered_kind : Text → Result RenderedKind
rendered_kind kind =
    if kind == codes "markdown"
    then ok markdown_page
    else if kind == codes "html"
    then ok html_page
    else err (codes "invalid rendered comment anchor kind")

unfoldable pub normalize_rendered_anchor : Option Json → Result RenderedAnchor
normalize_rendered_anchor input = do
  fs ← is_record input (codes "rendered comment anchor is required")
  name ← string_field (get fs (codes "kind")) (codes "rendered.kind")
  kind ← rendered_kind name
  line_start ← optional_positive_int (get fs (codes "sourceLineStart")) (codes "sourceLineStart")
  line_end ← optional_positive_int (get fs (codes "sourceLineEnd")) (codes "sourceLineEnd")
  if is_reversed line_start line_end
      then err
          (codes "rendered comment sourceLineEnd must be greater than or equal to sourceLineStart")
      else ok (record {
        kind = kind;
        block_id = optional_string (get fs (codes "blockId"));
        selector = optional_string (get fs (codes "selector"));
        text_quote = optional_string (get fs (codes "textQuote"));
        source_line_start = line_start;
        source_line_end = line_end;
      })

abbrev pub side_of : Text → Result DiffSide
side_of name =
    if name == codes "old"
    then ok old
    else if name == codes "new"
    then ok new
    else err (codes "invalid diff side")

abbrev pub side_name : DiffSide → Text
side_name old = codes "old"
side_name new = codes "new"

-- A legacy anchor names one pair of lines, on the new side.
abbrev pub new_line : Bool → Option Json → Text → Option Json → Text → Result (Option ℕ)
new_line true legacy legacy_name v name = do n ← positive_int legacy legacy_name; ok (some n)
new_line false legacy legacy_name v name = optional_positive_int v name

-- `!start || !end || end < start`
abbrev pub line_range : Option ℕ → Option ℕ → Result (ℕ × ℕ)
line_range (some s) (some e) =
    if eqb s 0 || eqb e 0 || ltb e s then err (codes "diff line range is invalid") else ok (s, e)
line_range _ _ = err (codes "diff line range is invalid")

abbrev pub on_side : DiffSide → Option ℕ → Option ℕ → Option ℕ
on_side old o n = o
on_side new o n = n

abbrev pub change_kind_of : Option Json → Option ChangeKind
change_kind_of v =
    if is_string v (codes "context")
    then some context
    else if is_string v (codes "added")
    then some added
    else none

unfoldable pub normalize_diff_anchor : Option Json → Text → Result DiffAnchor
normalize_diff_anchor input path = do
  fs ← is_record input (codes "diff comment anchor is required")
  let legacy = is_string (get fs (codes "side")) (codes "current")
  name ←
      (if legacy
        then ok (codes "new")
        else string_field (get fs (codes "side")) (codes "diff.side"))
  side ← side_of name
  anchor_path ← string_field (path_or (get fs (codes "path")) path) (codes "diff.path")
  if not (anchor_path == path) then err (codes "diff comment path must match path") else do
    old_start ← optional_positive_int (get fs (codes "oldLineStart")) (codes "oldLineStart")
    old_end ← optional_positive_int (get fs (codes "oldLineEnd")) (codes "oldLineEnd")
    new_start ←
        new_line legacy (get fs (codes "lineStart")) (codes "diff.lineStart")
          (get fs (codes "newLineStart")) (codes "newLineStart")
    new_end ←
        new_line legacy (get fs (codes "lineEnd")) (codes "diff.lineEnd")
          (get fs (codes "newLineEnd")) (codes "newLineEnd")
    range ← line_range (on_side side old_start new_start) (on_side side old_end new_end)
    ok (record {
      path = path;
      base = or_else (optional_string (get fs (codes "base"))) (codes "HEAD");
      ref = or_else (optional_string (get fs (codes "ref"))) (codes "working-tree");
      hunk_id = or_else (optional_string (get fs (codes "hunkId"))) (
          codes "legacy:"
          ++ (side_name side ++ (codes ":" ++ (show range.0 ++ (codes "-" ++ show range.1)))));
      side = side;
      old_line_start = old_start;
      old_line_end = old_end;
      new_line_start = new_start;
      new_line_end = new_end;
      diff_hash = optional_string (get fs (codes "diffHash"));
      file_hash = optional_string (get fs (codes "fileHash"));
      change_kind = change_kind_of (get fs (codes "changeKind"));
    })

unfoldable pub normalize_surface : Option Json → Result CommentSurface
normalize_surface v =
    if is_string v (codes "source")
    then ok source
    else if is_string v (codes "rendered")
    then ok rendered
    else if is_string v (codes "diff")
    then ok diff
    else err (codes "invalid comment surface")

-- `canonical.lineStart === undefined && anchor.rendered.sourceLineStart !== undefined`
abbrev pub with_rendered : SourceAnchor → RenderedAnchor → SourceAnchor
with_rendered c r =
    if not (is_some c.line_start) && is_some r.source_line_start
    then record c { line_start = r.source_line_start; line_end = r.source_line_end }
    else c

abbrev pub with_diff : SourceAnchor → DiffAnchor → SourceAnchor
with_diff c d = record c {
  line_start = or_option c.line_start d.new_line_start;
  line_end = or_option c.line_end d.new_line_end;
}

-- `normalizeAnchor` once the surface and the canonical anchor are there.
abbrev pub anchor_on : CommentSurface → Fields → Text → SourceAnchor → Result CommentAnchor
anchor_on source fs path c =
    ok (record { canonical = c; surface = source; rendered_anchor = none; diff_anchor = none })
anchor_on rendered fs path c = do
  r ← normalize_rendered_anchor (get fs (codes "rendered"))
  ok (record {
    canonical = with_rendered c r;
    surface = rendered;
    rendered_anchor = some r;
    diff_anchor = none;
  })
anchor_on diff fs path c = do
  d ← normalize_diff_anchor (get fs (codes "diff")) path
  ok (record {
    canonical = with_diff c d;
    surface = diff;
    rendered_anchor = none;
    diff_anchor = some d;
  })

unfoldable pub normalize_anchor : Option Json → Text → Option Text → Result CommentAnchor
normalize_anchor input path file_hash = do
  fs ← is_record input (codes "invalid comment anchor")
  surface ← normalize_surface (get fs (codes "surface"))
  c ← normalize_source_anchor (get fs (codes "canonical")) path file_hash
  anchor_on surface fs path c
