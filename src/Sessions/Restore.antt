-- ===== src/Sessions/Restore.antt =====
-- ui/src/state/comment-input-session.ts: storing and restoring what is being written. The Map by key is the list of its
-- sessions, each of which has the key that it stands under; times are whole milliseconds.
use vivi.Base.{
  ℕ, ◌-◌, ◌*◌, ◌≡◌, refl, sym, ap, ◌∙◌, inl, inr, Bool, true, false, not, ◌&&◌, ◌||◌, Option, none,
  some, List, [], ◌∷◌, codes, ◌==◌, eq_iff, is_empty, truthy, any, drop, length, ltb, flag, arith,
  Bool-cases, if◌then◌else◌,
}
use vivi.Base.Strings.{Text}
use vivi.Base.Json.{Json, string}
use vivi.Comments.{RenderedAnchor, RenderedKind, markdown_page, html_page, rendered, CommentSurface}
use vivi.Sessions.{
  CommentDraft, CommentInputSession, SessionStatus, collapsed, has_body, is_stale, surface_text,
  comment_input_anchor_key,
}

pub record StoredSessions : Type 0 where
  pub root : Text
  pub updated_at : ℕ
  pub sessions : List CommentInputSession

abbrev pub session_ttl_ms : ℕ
session_ttl_ms = 30 * 24 * 60 * 60 * 1000

abbrev pub max_stored : ℕ
max_stored = 50

-- `sessions.slice(-maxStoredCommentInputSessions)`
abbrev pub last_stored : List CommentInputSession → List CommentInputSession
last_stored ss = drop (length ss - max_stored) ss

unfoldable pub build_stored_comment_input_sessions :
    Text → List CommentInputSession → ℕ → StoredSessions
build_stored_comment_input_sessions root ss now = record {
  root = root;
  updated_at = now;
  sessions = last_stored ss;
}

abbrev pub is_collapsed_status : SessionStatus → Bool
is_collapsed_status collapsed = true
is_collapsed_status _ = false

unfoldable pub comment_input_session_is_collapsed : CommentInputSession → Bool
comment_input_session_is_collapsed s = flag s.is_collapsed || is_collapsed_status s.status

abbrev pub restored_session : CommentInputSession → CommentInputSession
restored_session s =
    if is_collapsed_status s.status then record s { is_collapsed = some true } else s

-- Whether the session that is there stays: by its text, then its freshness, then its thread.
abbrev pub prefer_restored : CommentInputSession → CommentInputSession → Bool
prefer_restored current candidate =
    if has_body current
    then (if has_body candidate then by_status else true)
    else (if has_body candidate then false else by_status)
  where
    by_thread : Bool
    by_thread = truthy current.draft.thread_id && not (truthy candidate.draft.thread_id)

    by_status : Bool
    by_status =
        if is_stale current.status
        then (if is_stale candidate.status then by_thread else false)
        else (if is_stale candidate.status then true else by_thread)

abbrev pub is_rendered : CommentSurface → Bool
is_rendered rendered = true
is_rendered _ = false

abbrev pub kind_text : RenderedKind → Text
kind_text markdown_page = codes "markdown"
kind_text html_page = codes "html"

either :
    (a b x y c : Bool)
    → (if (if a then (if b then x else true) else (if b then false else y)) then a && c else b && c)
      ≡ (a && c || b && c)
either true true true y c = ground arith
either true true false y c = ground arith
either true false x y c = ground arith
either false true x y c = refl
either false false x true c = refl
either false false x false c = refl

module _ (stringify : List Json → Text) where
  abbrev pub block_key : CommentDraft → Option RenderedAnchor → Text
  block_key d none = comment_input_anchor_key stringify d
  block_key d (some r) = elim r.block_id [
    | none ↦ comment_input_anchor_key stringify d
    | some b ↦
        if is_rendered d.anchor.surface && not (is_empty b)
        then stringify (
            string d.path
            ∷ string (surface_text d.anchor.surface)
            ∷ string (kind_text r.kind)
            ∷ string b
            ∷ [])
        else comment_input_anchor_key stringify d
  ]

  unfoldable pub restored_comment_input_anchor_key : CommentDraft → Text
  restored_comment_input_anchor_key d = block_key d d.anchor.rendered_anchor

  abbrev pub key_of : CommentInputSession → Text
  key_of s = restored_comment_input_anchor_key s.draft

  -- `normalized.set(key, …)`: a key that is there keeps its place.
  abbrev pub set_session : List CommentInputSession → CommentInputSession → List CommentInputSession
  set_session [] s = s ∷ []
  set_session (t ∷ ts) s =
      if key_of t == key_of s
      then (if prefer_restored t s then t else s) ∷ ts
      else t ∷ set_session ts s

  abbrev pub add_restored :
      List CommentInputSession → List CommentInputSession → List CommentInputSession
  add_restored found [] = found
  add_restored found (s ∷ ss) =
      if is_stale s.status && not (has_body s)
      then add_restored found ss
      else add_restored (set_session found (restored_session s)) ss

  unfoldable pub normalize_restored_comment_input_sessions :
      List CommentInputSession → List CommentInputSession
  unfolding restored_comment_input_anchor_key
  normalize_restored_comment_input_sessions ss = add_restored [] ss

  unfoldable pub restore_stored_comment_input_sessions :
      Option StoredSessions → Text → ℕ → List CommentInputSession
  unfolding normalize_restored_comment_input_sessions
  restore_stored_comment_input_sessions none root now = []
  restore_stored_comment_input_sessions (some stored) root now =
      if not (stored.root == root)
      then []
      else if ltb session_ttl_ms (now - stored.updated_at)
      then []
      else normalize_restored_comment_input_sessions (last_stored stored.sessions)

  -- A session of a key that has a text.
  abbrev pub has_text : Text → CommentInputSession → Bool
  has_text k s = has_body s && (key_of s == k)

  if-text :
      (k : Text) (b : Bool) (t s : CommentInputSession)
      → has_text k (if b then t else s) ≡ (if b then has_text k t else has_text k s)
  if-text k true t s = refl
  if-text k false t s = refl

  chosen-text :
      (k : Text) (t s : CommentInputSession)
      → key_of t ≡ key_of s
      → has_text k (if prefer_restored t s then t else s) ≡ (has_text k t || has_text k s)
  chosen-text k t s e =
      if-text k (prefer_restored t s) t s
      ∙ ap (λ l. if prefer_restored t s then has_text k t else has_body s && (l == k)) (sym e)
      ∙ either (has_body t) (has_body s) _ _ (key_of t == k)
      ∙ ap (λ l. has_text k t || (has_body s && (l == k))) e

  set_session-text :
      (k : Text) (ts : List CommentInputSession) (s : CommentInputSession)
      → any (has_text k) (set_session ts s) ≡ (any (has_text k) ts || has_text k s)
  set_session-text k [] s = ground arith
  set_session-text k (t ∷ ts) s = elim (Bool-cases (key_of t == key_of s)) [
    | inl same ↦ rw same (ground (arith, chosen-text k t s ((eq_iff (key_of t) (key_of s)).0 same)))
    | inr other ↦ rw other (ground (arith, set_session-text k ts s))
  ]

  restored-text :
      (k : Text) (s : CommentInputSession) → has_text k (restored_session s) ≡ has_text k s
  restored-text k s = elim (Bool-cases (is_collapsed_status s.status)) [
    | inl c ↦ rw c refl
    | inr c ↦ rw c refl
  ]

  add_restored-text :
      (k : Text) (found ss : List CommentInputSession)
      → any (has_text k) (add_restored found ss) ≡ (any (has_text k) found || any (has_text k) ss)
  add_restored-text k found [] = ground arith
  add_restored-text k found (s ∷ ss) = elim (Bool-cases (is_stale s.status && not (has_body s))) [
    | inl dropped ↦ rw dropped (ground (arith, add_restored-text k found ss))
    | inr kept ↦ rw kept (
        ground (
          arith,
          add_restored-text k (set_session found (restored_session s)) ss,
          set_session-text k found (restored_session s),
          restored-text k s,
        ))
  ]

  -- After normalizeRestoredCommentInputSessions an anchor has a session with a text exactly if one of
  -- its sessions had a text before: where several compete for an anchor, a text wins over an empty
  -- draft.
  pub normalize_restored_comment_input_sessions-text :
      (ss : List CommentInputSession) (k : Text)
      → any (has_text k) (normalize_restored_comment_input_sessions ss) ≡ any (has_text k) ss
  unfolding normalize_restored_comment_input_sessions
  normalize_restored_comment_input_sessions-text ss k = add_restored-text k [] ss
