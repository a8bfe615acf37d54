-- ===== src/Sessions.antt =====
-- ui/src/state/comment-input-session.ts: the comments that are being written. `stringify` is
-- JSON.stringify of an array, which makes the keys; coordinates are whole pixels.
pub mod Identity
pub mod Bodies
pub mod Restore
mod Tests
use vivi.Base.{
  ℕ, ◌+◌, ◌-◌, ◌*◌, Bool, true, false, not, ◌&&◌, ◌||◌, Option, none, some, List, [], ◌∷◌, ◌++◌,
  map, codes, ◌==◌, trim, is_empty, truthy, contains, filter, find?, length, drop, ltb, or_option,
  is_some, if◌then◌else◌,
}
use vivi.Base.Strings.{Text}
use vivi.Base.Json.{Json, null, string, number}
use vivi.Comments.{
  CommentAnchor, CommentViewerKind, CommentSurface, source, rendered, diff, DiffSide, old, new,
  RenderedAnchor, RenderedKind, markdown_page, html_page, DiffAnchor, SourceAnchor,
}

pub record CommentDraft : Type 0 where
  pub thread_id : Option Text
  pub path : Text
  pub viewer_kind : CommentViewerKind
  pub anchor : CommentAnchor

pub data SessionStatus : Type 0 where
  opened collapsed stale : SessionStatus

pub record CommentInputRect : Type 0 where
  pub left : ℕ
  pub top : ℕ
  pub width : ℕ
  pub height : ℕ

pub record CommentInputSession : Type 0 where
  pub id : Text
  pub draft : CommentDraft
  pub body : Text
  pub status : SessionStatus
  pub is_collapsed : Option Bool
  pub rect : Option CommentInputRect

pub data SessionAction : Type 0 where
  replace : List CommentInputSession → SessionAction
  start : CommentDraft → Option CommentInputRect → SessionAction
  change : CommentDraft → Text → Option CommentInputRect → SessionAction
  collapse : Text → SessionAction
  expand : Text → SessionAction
  discard : Text → SessionAction
  discard_anchors : List Text → SessionAction
  discard_empty_anchors : List Text → SessionAction
  mark_path_version : Text → Text → SessionAction
  reanchor : Text → CommentDraft → SessionAction

abbrev pub json_text : Option Text → Json
json_text none = null
json_text (some s) = string s

abbrev pub json_number : Option ℕ → Json
json_number none = null
json_number (some n) = number n

abbrev pub surface_text : CommentSurface → Text
surface_text source = codes "source"
surface_text rendered = codes "rendered"
surface_text diff = codes "diff"

abbrev pub side_text : DiffSide → Text
side_text old = codes "old"
side_text new = codes "new"

abbrev pub rendered_values : Option RenderedAnchor → List Json
rendered_values none = null ∷ null ∷ []
rendered_values (some r) = json_text r.block_id ∷ json_text r.selector ∷ []

abbrev pub diff_values : Option DiffAnchor → List Json
diff_values none = null ∷ null ∷ null ∷ null ∷ null ∷ null ∷ null ∷ null ∷ []
diff_values (some d) =
    string d.base
    ∷ string d.ref
    ∷ string d.hunk_id
    ∷ string (side_text d.side)
    ∷ json_number d.old_line_start
    ∷ json_number d.old_line_end
    ∷ json_number d.new_line_start
    ∷ json_number d.new_line_end
    ∷ []

-- `Boolean(session.body.trim())`
abbrev pub has_body : CommentInputSession → Bool
has_body s = not (is_empty (trim s.body))

abbrev pub is_stale : SessionStatus → Bool
is_stale stale = true
is_stale _ = false

abbrev pub has_id : Text → CommentInputSession → Bool
has_id i s = s.id == i

-- A stale session keeps its status whatever is done to its display.
abbrev pub stale_or : SessionStatus → SessionStatus → SessionStatus
stale_or s t = if is_stale s then stale else t

abbrev pub collapsed_session : CommentInputSession → CommentInputSession
collapsed_session s = record s { status = stale_or s.status collapsed; is_collapsed = some true }

abbrev pub expanded_session : CommentInputSession → CommentInputSession
expanded_session s = record s { status = stale_or s.status opened; is_collapsed = some false }

abbrev pub reanchored : CommentDraft → CommentInputSession → CommentInputSession
reanchored d s = record s { draft = d; status = opened; is_collapsed = some false }

-- `!anchoredHash || anchoredHash === fileHash`
abbrev pub is_current : Option Text → Text → Bool
is_current none h = true
is_current (some g) h = is_empty g || (g == h)

abbrev pub marked : Text → Text → CommentInputSession → CommentInputSession
marked path h s =
    if not (s.draft.path == path)
    then s
    else if is_current s.draft.anchor.canonical.file_hash h
    then s
    else record s { status = stale }

-- The session of an action that starts or changes a draft: `none` keeps the body.
abbrev pub taken_up :
    Text
    → CommentDraft
    → Option Text
    → Option CommentInputRect
    → CommentInputSession
    → CommentInputSession
taken_up i d body rect s = record {
  id = i;
  draft = if is_stale s.status then s.draft else d;
  body = elim body [ none ↦ s.body | some b ↦ b ];
  status = stale_or s.status opened;
  is_collapsed = some false;
  rect = or_option rect s.rect;
}

abbrev pub fresh_session :
    Text → CommentDraft → Option Text → Option CommentInputRect → CommentInputSession
fresh_session i d body rect = record {
  id = i;
  draft = d;
  body = elim body [ none ↦ [] | some b ↦ b ];
  status = opened;
  is_collapsed = some false;
  rect = rect;
}

-- `sessions.map((session) => session.id === id ? f(session) : session)`
abbrev pub update_id :
    Text
    → (CommentInputSession → CommentInputSession)
    → List CommentInputSession
    → List CommentInputSession
update_id i f [] = []
update_id i f (s ∷ ss) = (if s.id == i then f s else s) ∷ update_id i f ss

module _ (stringify : List Json → Text) where
  -- commentAnchorThreadKey of ui/src/state/comments.ts
  unfoldable pub comment_anchor_thread_key : Text → CommentAnchor → Text
  comment_anchor_thread_key path a =
      let c = a.canonical in
      stringify (
        string path
        ∷ string (surface_text a.surface)
        ∷ json_number c.line_start
        ∷ json_number (or_option c.line_end c.line_start)
        ∷ (rendered_values a.rendered_anchor ++ diff_values a.diff_anchor))

  unfoldable pub comment_input_anchor_key : CommentDraft → Text
  unfolding comment_anchor_thread_key
  comment_input_anchor_key d = comment_anchor_thread_key d.path d.anchor

  unfoldable pub comment_input_session_id : CommentDraft → Text
  unfolding comment_anchor_thread_key
  comment_input_session_id d =
      stringify (json_text d.thread_id ∷ string (comment_anchor_thread_key d.path d.anchor) ∷ [])

  abbrev pub has_anchor : Text → CommentInputSession → Bool
  has_anchor key s = comment_input_anchor_key s.draft == key

  unfoldable pub comment_input_session_for_draft :
      List CommentInputSession → CommentDraft → Option CommentInputSession
  comment_input_session_for_draft ss d =
      or_option (find? (has_id (comment_input_session_id d)) ss)
        (find? (has_anchor (comment_input_anchor_key d)) ss)

  abbrev pub put_session :
      Option CommentInputSession
      → List CommentInputSession
      → CommentDraft
      → Option Text
      → Option CommentInputRect
      → List CommentInputSession
  put_session none ss d body rect =
      ss ++ fresh_session (comment_input_session_id d) d body rect ∷ []
  put_session (some existing) ss d body rect =
      update_id existing.id (taken_up (comment_input_session_id d) d body rect) ss

  unfoldable pub reduce_comment_input_sessions :
      List CommentInputSession → SessionAction → List CommentInputSession
  unfolding comment_input_session_for_draft
  reduce_comment_input_sessions ss (replace new_sessions) = new_sessions
  reduce_comment_input_sessions ss (discard i) = filter (λ s. not (s.id == i)) ss
  reduce_comment_input_sessions ss (discard_anchors keys) =
      filter (λ s. not (contains keys (comment_input_anchor_key s.draft))) ss
  reduce_comment_input_sessions ss (discard_empty_anchors keys) =
      filter (λ s. has_body s || not (contains keys (comment_input_anchor_key s.draft))) ss
  reduce_comment_input_sessions ss (collapse i) = update_id i collapsed_session ss
  reduce_comment_input_sessions ss (expand i) = update_id i expanded_session ss
  reduce_comment_input_sessions ss (mark_path_version path h) = map (marked path h) ss
  reduce_comment_input_sessions ss (reanchor i d) = update_id i (reanchored d) ss
  reduce_comment_input_sessions ss (start d rect) =
      put_session (comment_input_session_for_draft ss d) ss d none rect
  reduce_comment_input_sessions ss (change d body rect) =
      put_session (comment_input_session_for_draft ss d) ss d (some body) rect
