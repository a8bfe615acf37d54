-- ===== src/Sessions/Bodies.antt =====
-- What becomes of the text that is being written.
use vivi.Base.{
  ℕ, ◌+◌, ◌≤◌, ◌≡◌, refl, sym, ap, ◌∙◌, ◌⊎◌, inl, inr, Bool, true, false, not, ◌||◌, Option, none,
  some, List, [], ◌∷◌, ◌++◌, map, Text, ◌==◌, filter, find?, contains, arith, Bool-cases, or_option,
  if◌then◌else◌,
}
use mathlib.Core.List.{append-nil}
use vivi.Base.{count, eq_self, ◌&&◌, Option-cases}
use vivi.Base.Laws.{count-append, count-pos_of_find?, filter-append}
use vivi.Base.Json.{Json}
use vivi.Sessions.{
  CommentInputSession, CommentDraft, CommentInputRect, SessionAction, start, replace, change,
  discard, discard_anchors, fresh_session, collapse, expand, discard_empty_anchors,
  mark_path_version, reanchor, has_body, has_id, has_anchor, update_id, taken_up, put_session,
  marked, collapsed_session, expanded_session, reanchored, comment_input_session_id,
  comment_input_anchor_key, comment_input_session_for_draft, reduce_comment_input_sessions,
}

abbrev pub body_of : CommentInputSession → Text
body_of s = s.body

-- What no action of these kinds throws away: starting, showing, hiding, marking or moving a draft.
abbrev pub IsGentle : SessionAction → Type 0
IsGentle (start d rect) = Unit
IsGentle (collapse i) = Unit
IsGentle (expand i) = Unit
IsGentle (mark_path_version path h) = Unit
IsGentle (reanchor i d) = Unit
IsGentle (discard_empty_anchors keys) = Unit
IsGentle _ = ⊥

update_id-bodies :
    (i : Text) (f : CommentInputSession → CommentInputSession) (ss : List CommentInputSession)
    → ((s : CommentInputSession) → (f s).body ≡ s.body)
    → map body_of (filter has_body (update_id i f ss)) ≡ map body_of (filter has_body ss)
update_id-bodies i f [] h = refl
update_id-bodies i f (s ∷ ss) h = ground (arith, update_id-bodies i f ss h, h s)

marked-bodies :
    (path h : Text) (ss : List CommentInputSession)
    → map body_of (filter has_body (map (marked path h) ss)) ≡ map body_of (filter has_body ss)
marked-bodies path h [] = refl
marked-bodies path h (s ∷ ss) = ground (arith, marked-bodies path h ss)

filter-filter_or :
    (p q : CommentInputSession → Bool) (ss : List CommentInputSession)
    → filter p (filter (λ s. p s || q s) ss) ≡ filter p ss
filter-filter_or p q [] = refl
filter-filter_or p q (s ∷ ss) = ground (arith, filter-filter_or p q ss)

module _ (stringify : List Json → Text) where
  started-bodies :
      (ss : List CommentInputSession) (d : CommentDraft) (rect : Option CommentInputRect)
      (o : Option CommentInputSession)
      → map body_of (filter has_body (put_session stringify o ss d none rect))
        ≡ map body_of (filter has_body ss)
  unfolding vivi.Base.trim
  started-bodies ss d rect none = ap (map body_of) (
      filter-append has_body ss
        (fresh_session (comment_input_session_id stringify d) d none rect ∷ [])
      ∙ append-nil _)
  started-bodies ss d rect (some s) = update_id-bodies s.id _ ss (λ t. refl)

  -- Starting, showing, hiding, marking as stale, moving to another anchor and discarding the empty
  -- drafts leave the texts that are written so far, in their order.
  pub reduce_comment_input_sessions-keeps_bodies :
      (ss : List CommentInputSession) (a : SessionAction)
      → IsGentle a
      → map body_of (filter has_body (reduce_comment_input_sessions stringify ss a))
        ≡ map body_of (filter has_body ss)
  unfolding reduce_comment_input_sessions
  reduce_comment_input_sessions-keeps_bodies ss (start d rect) g =
      started-bodies ss d rect (comment_input_session_for_draft stringify ss d)
  reduce_comment_input_sessions-keeps_bodies ss (collapse i) g =
      update_id-bodies i collapsed_session ss (λ s. refl)
  reduce_comment_input_sessions-keeps_bodies ss (expand i) g =
      update_id-bodies i expanded_session ss (λ s. refl)
  reduce_comment_input_sessions-keeps_bodies ss (mark_path_version path h) g =
      marked-bodies path h ss
  reduce_comment_input_sessions-keeps_bodies ss (reanchor i d) g =
      update_id-bodies i (reanchored d) ss (λ s. refl)
  reduce_comment_input_sessions-keeps_bodies ss (discard_empty_anchors keys) g = ap (map body_of) (
      filter-filter_or has_body
        (λ s. not (contains keys (comment_input_anchor_key stringify s.draft))) ss)
  reduce_comment_input_sessions-keeps_bodies ss (replace l) g = absurd g
  reduce_comment_input_sessions-keeps_bodies ss (change d b r) g = absurd g
  reduce_comment_input_sessions-keeps_bodies ss (discard i) g = absurd g
  reduce_comment_input_sessions-keeps_bodies ss (discard_anchors keys) g = absurd g

  taken-body :
      (i n : Text) (d : CommentDraft) (b : Text) (rect : Option CommentInputRect)
      (ss : List CommentInputSession)
      → 1 ≤ count (has_id i) ss
      → 1 ≤ count (λ s. (s.id == n) && (s.body == b)) (update_id i (taken_up n d (some b) rect) ss)
  taken-body i n d b rect [] h = omega (arith, h)
  taken-body i n d b rect (s ∷ ss) h = elim (Bool-cases (s.id == i)) [
    | inl hit ↦ rw (hit, eq_self n, eq_self b) (omega arith)
    | inr miss ↦ rw miss (ground (arith, taken-body i n d b rect ss))
  ]

  put-body :
      (ss : List CommentInputSession) (d : CommentDraft) (b : Text) (rect : Option CommentInputRect)
      (o : Option CommentInputSession)
      → ((s : CommentInputSession) → o ≡ some s → 1 ≤ count (has_id s.id) ss)
      → 1
        ≤ count
            (λ s. (s.id == comment_input_session_id stringify d) && (s.body == b))
            (put_session stringify o ss d (some b) rect)
  put-body ss d b rect none h =
      let n = comment_input_session_id stringify d in
      rw
        (
          count-append (λ s. (s.id == n) && (s.body == b)) ss
              (fresh_session n d (some b) rect ∷ []),
          eq_self n,
          eq_self b,
        )
        (omega arith)
  put-body ss d b rect (some s) h =
      taken-body s.id (comment_input_session_id stringify d) d b rect ss (h s refl)

  found-present :
      (p q : CommentInputSession → Bool) (ss : List CommentInputSession) (s : CommentInputSession)
      → or_option (find? p ss) (find? q ss) ≡ some s
      → 1 ≤ count (has_id s.id) ss
  found-present p q ss s h = elim (Option-cases (find? p ss)) [
    | inl none_p ↦ count-pos_of_find? q (has_id s.id) ss {x = s} (ground (arith, h)) (eq_self s.id)
    | inr f ↦ count-pos_of_find? p (has_id s.id) ss {x = s} (ground (arith, h)) (eq_self s.id)
  ]

  -- After a change, a session of the draft's name holds the text that was typed.
  pub reduce_comment_input_sessions-change :
      (ss : List CommentInputSession) (d : CommentDraft) (b : Text) (rect : Option CommentInputRect)
      → 1
        ≤ count
            (λ s. (s.id == comment_input_session_id stringify d) && (s.body == b))
            (reduce_comment_input_sessions stringify ss (change d b rect))
  unfolding reduce_comment_input_sessions comment_input_session_for_draft
  reduce_comment_input_sessions-change ss d b rect =
      put-body ss d b rect (comment_input_session_for_draft stringify ss d) (λ s.
        found-present (has_id (comment_input_session_id stringify d))
          (has_anchor stringify (comment_input_anchor_key stringify d)) ss s)
