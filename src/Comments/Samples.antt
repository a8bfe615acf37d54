-- ===== src/Comments/Samples.antt =====
-- Comments for the tests.
use vivi.Base.{Option, none, some, codes}
use vivi.Base.Strings.{Text}
use vivi.Comments.{ViviComment, CommentStatus, CommentAnchor, source, text}

abbrev pub place : CommentAnchor
place = record {
  canonical = record {
    path = codes "a.md";
    line_start = some 3;
    line_end = some 3;
    column_start = none;
    column_end = none;
    quote = none;
    file_hash = none;
  };
  surface = source;
  rendered_anchor = none;
  diff_anchor = none;
}

abbrev pub comment : Text → Option Text → CommentStatus → Text → ViviComment
comment id thread status time = record {
  id = id;
  thread_id = thread;
  path = codes "a.md";
  viewer_kind = text;
  review_batch_id = none;
  anchor = place;
  body = codes "?";
  created_by = none;
  author = none;
  comment_source = none;
  status = status;
  created_at = time;
  updated_at = time;
  resolved_at = none;
  archived_at = none;
}
