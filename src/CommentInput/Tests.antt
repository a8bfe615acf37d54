-- ===== src/CommentInput/Tests.antt =====
-- A comment on a line of a source file, as a client sends it.
use vivi.Base.{ℕ, ◌≡◌, refl, true, false, Option, none, some, codes, ◌==◌, trim}
use vivi.Base.Json.{Json, string, number, object, field, end, get}
use vivi.Comments.{open_status, unknown_source, source, text}
use vivi.CommentFields.{
  ok, ◌>>=◌, is_record, string_field, optional_string, positive_int, optional_positive_int,
}
use vivi.CommentAnchors.{normalize_source_anchor, normalize_surface, normalize_anchor}
use vivi.CommentInput.{
  CreateCommentInput, CommentOptions, normalize_comment_viewer_kind, normalize_comment_source,
  comment_viewer_kind_for, normalize_comment_actor, normalize_comment_create_input,
}
use vivi.CommentInput.Accepted.{IsComment, normalize_comment_create_input-IsComment}

abbrev options : CommentOptions
options = record {
  resolved_path = codes "a.md";
  file_hash = some (codes "h1");
  viewer_kind = codes "text";
}

abbrev canonical : Json
canonical = object (
    field (codes "path") (string (codes "a.md"))
      (field (codes "lineStart") (number 3) (field (codes "lineEnd") (number 4) end)))

abbrev input : Json
input = object (
    field (codes "path") (string (codes "a.md")) (
      field (codes "body") (string (codes " Why? ")) (
        field (codes "anchor")
          (object (
            field (codes "surface") (string (codes "source"))
              (field (codes "canonical") canonical end)))
          end)))

abbrev accepted : CreateCommentInput
accepted = record {
  thread_id = none;
  path = codes "a.md";
  viewer_kind = text;
  review_batch_id = none;
  anchor = record {
    canonical = record {
      path = codes "a.md";
      line_start = some 3;
      line_end = some 4;
      column_start = none;
      column_end = none;
      quote = none;
      file_hash = some (codes "h1");
    };
    surface = source;
    rendered_anchor = none;
    diff_anchor = none;
  };
  body = codes "Why?";
  actor = none;
  author = none;
  comment_source = unknown_source;
  status = open_status;
}

is_accepted : normalize_comment_create_input (some input) options ≡ ok accepted
unfolding normalize_comment_create_input ◌>>=◌ is_record string_field optional_string positive_int
    optional_positive_int normalize_source_anchor normalize_surface normalize_anchor
    normalize_comment_viewer_kind normalize_comment_source comment_viewer_kind_for
    normalize_comment_actor get trim ◌==◌ vivi.Base.is_space
is_accepted = refl

normalize_comment_create_input-IsComment_example : IsComment options accepted
normalize_comment_create_input-IsComment_example =
    normalize_comment_create_input-IsComment (some input) options accepted is_accepted
