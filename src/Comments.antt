-- ===== src/Comments.antt =====
-- server/typescript/domain/comments.ts: comments, their anchors, and the threads that they form.
-- Times are ISO strings, which the code compares by code units.
pub mod Grouping
pub mod Summary
pub mod Samples
mod Tests
use vivi.Base.{
  ℕ, Bool, true, false, not, ◌&&◌, ◌||◌, Option, none, some, List, [], ◌∷◌, ◌++◌, Text, ◌==◌,
  text_lt, truthy, is_empty, ltb, or_else, or_option, find?, is_some, if◌then◌else◌,
}

pub data CommentStatus : Type 0 where
  open_status resolved archived : CommentStatus

pub data CommentSource : Type 0 where
  human claude_code codex unknown_source : CommentSource

pub data CommentSurface : Type 0 where
  source rendered diff : CommentSurface

pub data CommentViewerKind : Type 0 where
  text markdown html image json yaml csv binary unknown : CommentViewerKind

pub record CommentActor : Type 0 where
  pub id : Text
  pub kind : CommentSource
  pub display_name : Option Text

pub record SourceAnchor : Type 0 where
  pub path : Text
  pub line_start : Option ℕ
  pub line_end : Option ℕ
  pub column_start : Option ℕ
  pub column_end : Option ℕ
  pub quote : Option Text
  pub file_hash : Option Text

pub data RenderedKind : Type 0 where
  markdown_page html_page : RenderedKind

pub record RenderedAnchor : Type 0 where
  pub kind : RenderedKind
  pub block_id : Option Text
  pub selector : Option Text
  pub text_quote : Option Text
  pub source_line_start : Option ℕ
  pub source_line_end : Option ℕ

pub data DiffSide : Type 0 where
  old new : DiffSide

pub data ChangeKind : Type 0 where
  context added : ChangeKind

pub record DiffAnchor : Type 0 where
  pub path : Text
  pub base : Text
  pub ref : Text
  pub hunk_id : Text
  pub side : DiffSide
  pub old_line_start : Option ℕ
  pub old_line_end : Option ℕ
  pub new_line_start : Option ℕ
  pub new_line_end : Option ℕ
  pub diff_hash : Option Text
  pub file_hash : Option Text
  pub change_kind : Option ChangeKind

pub record CommentAnchor : Type 0 where
  pub canonical : SourceAnchor
  pub surface : CommentSurface
  pub rendered_anchor : Option RenderedAnchor
  pub diff_anchor : Option DiffAnchor

pub record ViviComment : Type 0 where
  pub id : Text
  pub thread_id : Option Text
  pub path : Text
  pub viewer_kind : CommentViewerKind
  pub review_batch_id : Option Text
  pub anchor : CommentAnchor
  pub body : Text
  pub created_by : Option CommentActor
  pub author : Option Text
  pub comment_source : Option CommentSource
  pub status : CommentStatus
  pub created_at : Text
  pub updated_at : Text
  pub resolved_at : Option Text
  pub archived_at : Option Text

pub record CommentThread : Type 0 where
  pub id : Text
  pub path : Text
  pub status : CommentStatus
  pub review_batch_id : Option Text
  pub anchor : CommentAnchor
  pub updated_at : Text
  pub created_at : Text
  pub resolved_at : Option Text
  pub archived_at : Option Text
  pub comments : List ViviComment

unfoldable pub comment_status_rank : CommentStatus → ℕ
comment_status_rank open_status = 3
comment_status_rank resolved = 2
comment_status_rank archived = 1

-- `comment.threadId ?? comment.id`
abbrev pub thread_of : ViviComment → Text
thread_of c = or_else c.thread_id c.id

abbrev pub new_thread : ViviComment → CommentThread
new_thread c = record {
  id = thread_of c;
  path = c.path;
  status = c.status;
  review_batch_id = c.review_batch_id;
  anchor = c.anchor;
  updated_at = c.updated_at;
  created_at = c.created_at;
  resolved_at = none;
  archived_at = none;
  comments = [];
}

-- The later of two optional times, where the new one counts only if it is there and not empty.
abbrev pub later_time : Option Text → Option Text → Option Text
later_time thread none = thread
later_time none (some t) = if is_empty t then none else some t
later_time (some u) (some t) =
    if not (is_empty t) && (is_empty u || text_lt u t) then some t else some u

-- What the loop of `buildCommentThreads` does to the thread of a comment.
unfoldable pub merge_comment : CommentThread → ViviComment → CommentThread
unfolding comment_status_rank
merge_comment t c = record t {
  review_batch_id = or_option t.review_batch_id c.review_batch_id;
  comments = t.comments ++ c ∷ [];
  status =
      if ltb (comment_status_rank t.status) (comment_status_rank c.status)
      then c.status
      else t.status;
  updated_at = if text_lt t.updated_at c.updated_at then c.updated_at else t.updated_at;
  created_at = if text_lt c.created_at t.created_at then c.created_at else t.created_at;
  resolved_at = later_time t.resolved_at c.resolved_at;
  archived_at = later_time t.archived_at c.archived_at;
}

abbrev pub is_thread : Text → CommentThread → Bool
is_thread i t = t.id == i

-- `threads.get(threadId)`, the merge and `threads.set`: a thread that is there keeps its place.
unfoldable pub add_comment : List CommentThread → ViviComment → List CommentThread
unfolding merge_comment
add_comment [] c = merge_comment (new_thread c) c ∷ []
add_comment (t ∷ ts) c =
    if is_thread (thread_of c) t then merge_comment t c ∷ ts else t ∷ add_comment ts c

abbrev pub add_comments : List CommentThread → List ViviComment → List CommentThread
add_comments ts [] = ts
add_comments ts (c ∷ cs) = add_comments (add_comment ts c) cs

unfoldable pub build_comment_threads : List ViviComment → List CommentThread
unfolding add_comment
build_comment_threads comments = add_comments [] comments

-- `{ ...comment, body: update.body ?? comment.body, updatedAt: now }`
unfoldable pub apply_comment_update : ViviComment → Option Text → Text → ViviComment
apply_comment_update c body now = record c { body = or_else body c.body; updated_at = now }
