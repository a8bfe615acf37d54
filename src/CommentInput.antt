-- ===== src/CommentInput.antt =====
-- server/typescript/domain/comments.ts: the checks on comments, updates and filters that a client
-- sends.
pub mod Accepted
mod Tests
use vivi.Base.{
  ℕ, ◌+◌, Bool, true, false, not, ◌&&◌, ◌||◌, Option, none, some, List, [], ◌∷◌, ◌++◌, codes, ◌==◌,
  trim, is_empty, leb, is_some, or_else, if◌then◌else◌, map, starts_with,
}
use mathlib.Core.List.{reverse}
use vivi.Base.Strings.{Text}
use vivi.Base.Json.{Json, Fields, string, get}
use vivi.CommentFields.{Result, ok, err, ◌>>=◌, is_record, string_field, optional_string, is_string}
use vivi.CommentAnchors.{normalize_anchor}
use vivi.Comments.{
  CommentStatus, open_status, resolved, archived, CommentSource, human, claude_code, codex,
  unknown_source, CommentViewerKind, text, markdown, html, image, json, yaml, csv, binary, unknown,
  CommentActor, CommentAnchor,
}

pub record CreateCommentInput : Type 0 where
  pub thread_id : Option Text
  pub path : Text
  pub viewer_kind : CommentViewerKind
  pub review_batch_id : Option Text
  pub anchor : CommentAnchor
  pub body : Text
  pub actor : Option CommentActor
  pub author : Option Text
  pub comment_source : CommentSource
  pub status : CommentStatus

pub record CommentOptions : Type 0 where
  pub resolved_path : Text
  pub file_hash : Option Text
  pub viewer_kind : Text

-- `undefined` has no kind; any other value must name one.
unfoldable pub normalize_comment_viewer_kind : Option Json → Result (Option CommentViewerKind)
normalize_comment_viewer_kind none = ok none
normalize_comment_viewer_kind (some (string s)) =
    if s == codes "text"
    then ok (some text)
    else if s == codes "markdown"
    then ok (some markdown)
    else if s == codes "html"
    then ok (some html)
    else if s == codes "image"
    then ok (some image)
    else if s == codes "json"
    then ok (some json)
    else if s == codes "yaml"
    then ok (some yaml)
    else if s == codes "csv"
    then ok (some csv)
    else if s == codes "binary"
    then ok (some binary)
    else if s == codes "unknown"
    then ok (some unknown)
    else err (codes "invalid comment viewerKind")
normalize_comment_viewer_kind (some v) = err (codes "invalid comment viewerKind")

unfoldable pub normalize_comment_source : Option Json → Result CommentSource
normalize_comment_source none = ok unknown_source
normalize_comment_source (some (string s)) =
    if s == codes "human"
    then ok human
    else if s == codes "claude-code"
    then ok claude_code
    else if s == codes "codex"
    then ok codex
    else if s == codes "unknown"
    then ok unknown_source
    else err (codes "invalid comment source")
normalize_comment_source (some v) = err (codes "invalid comment source")

-- The letter that `/i` takes for `c`, over ASCII.
abbrev pub lower : ℕ → ℕ
lower c = if leb b'A' c && leb c b'Z' then c + 32 else c

-- `/\.(ext)$/i.test(path)`
abbrev pub has_extension : Text → Text → Bool
has_extension path ext = starts_with (reverse (map lower path)) (reverse (codes "." ++ ext))

unfoldable pub comment_viewer_kind_for : Text → Text → CommentViewerKind
comment_viewer_kind_for kind path =
    if kind == codes "markdown"
    then markdown
    else if kind == codes "html"
    then html
    else if kind == codes "image"
    then image
    else if kind == codes "binary"
    then binary
    else if kind == codes "json"
    then json
    else if (kind == codes "text")
        && (has_extension path (codes "csv") || has_extension path (codes "tsv"))
    then csv
    else if (kind == codes "text")
        && (has_extension path (codes "yml") || has_extension path (codes "yaml"))
    then yaml
    else if (kind == codes "text") || (kind == codes "code") || (kind == codes "mermaid")
    then text
    else unknown

unfoldable pub normalize_comment_actor : Option Json → Result (Option CommentActor)
normalize_comment_actor none = ok none
normalize_comment_actor (some v) = do
  fs ← is_record (some v) (codes "invalid comment actor")
  id ← string_field (get fs (codes "id")) (codes "actor.id")
  kind ← normalize_comment_source (get fs (codes "kind"))
  ok (
      some (record {
        id = id;
        kind = kind;
        display_name = optional_string (get fs (codes "displayName"));
      }))

unfoldable pub normalize_comment_create_input :
    Option Json → CommentOptions → Result CreateCommentInput
normalize_comment_create_input input options = do
  fs ← is_record input (codes "invalid comment payload")
  path ← string_field (get fs (codes "path")) (codes "path")
  if not (path == options.resolved_path)
      then err (codes "comment path does not match resolved file path")
      else do
        body ← string_field (get fs (codes "body")) (codes "body")
        anchor ← normalize_anchor (get fs (codes "anchor")) path options.file_hash
        if is_some (get fs (codes "status"))
              && not (is_string (get fs (codes "status")) (codes "open"))
            then err (codes "new comments must be open")
            else do
              kind ← normalize_comment_viewer_kind (get fs (codes "viewerKind"))
              actor ← normalize_comment_actor (get fs (codes "actor"))
              from ← normalize_comment_source (get fs (codes "source"))
              ok (record {
                thread_id = optional_string (get fs (codes "threadId"));
                path = path;
                viewer_kind = or_else kind (comment_viewer_kind_for options.viewer_kind path);
                review_batch_id = optional_string (get fs (codes "reviewBatchId"));
                anchor = anchor;
                body = body;
                actor = actor;
                author = optional_string (get fs (codes "author"));
                comment_source = from;
                status = open_status;
              })

abbrev pub updated : Option Text → Result Text
updated none = err (codes "comment update must include body")
updated (some b) = ok b

-- The new body: an update without one is refused.
unfoldable pub normalize_comment_update_input : Option Json → Result Text
normalize_comment_update_input input = do
  fs ← is_record input (codes "invalid comment update payload")
  body ←
      (if is_some (get fs (codes "body"))
        then (do b ← string_field (get fs (codes "body")) (codes "body"); ok (some b))
        else ok none)
  if is_some (get fs (codes "status"))
      then err (codes "comment lifecycle updates are no longer supported")
      else updated body

pub record CommentListFilters : Type 0 where
  pub path : Option Text
  pub status : Option CommentStatus
  pub review_batch_id : Option Text

unfoldable pub parse_comment_status : Option Text → Result (Option CommentStatus)
parse_comment_status none = ok none
parse_comment_status (some s) =
    if is_empty s
    then ok none
    else if s == codes "open"
    then ok (some open_status)
    else if s == codes "resolved"
    then ok (some resolved)
    else if s == codes "archived"
    then ok (some archived)
    else err (codes "invalid comment status")

-- `value?.trim() || undefined`
abbrev pub trimmed : Option Text → Option Text
trimmed none = none
trimmed (some s) = if is_empty (trim s) then none else some (trim s)

unfoldable pub normalize_comment_filters :
    Option Text → Option Text → Option Text → Result CommentListFilters
normalize_comment_filters path status batch = do
  s ← parse_comment_status status
  ok (record { path = trimmed path; status = s; review_batch_id = trimmed batch })
