-- ===== src/Sessions/Identity.antt =====
-- The sessions under way have different names.
use vivi.Base.{
  ◌+◌, ◌≤◌, ◌≡◌, refl, sym, ◌∙◌, inl, inr, true, not, Option, none, some, List, [], ◌∷◌, map, Text,
  ◌==◌, eq_iff, find?, count, arith, Bool-cases, if◌then◌else◌,
}
use mathlib.Core.Path.{subst}
use vivi.Base.{or_option}
use vivi.Base.Laws.{count-append, count-filter-le, count-zero_of_find?, find?-passes}
use vivi.Base.Json.{Json}
use vivi.Sessions.{
  CommentInputSession, CommentDraft, CommentInputRect, SessionAction, replace, start, change,
  collapse, expand, discard, discard_anchors, discard_empty_anchors, mark_path_version, reanchor,
  has_id, has_anchor, update_id, collapsed_session, expanded_session, reanchored, taken_up,
  fresh_session, put_session, marked, comment_input_session_id, comment_input_anchor_key,
  comment_input_session_for_draft, reduce_comment_input_sessions,
}

abbrev pub IsUnique : List CommentInputSession → Type 0
IsUnique ss = (j : Text) → count (has_id j) ss ≤ 1

update_id-same :
    (i j : Text) (f : CommentInputSession → CommentInputSession) (ss : List CommentInputSession)
    → ((s : CommentInputSession) → (s.id == i) ≡ true → (f s).id ≡ s.id)
    → count (has_id j) (update_id i f ss) ≡ count (has_id j) ss
update_id-same i j f [] h = refl
update_id-same i j f (s ∷ ss) h = elim (Bool-cases (s.id == i)) [
  | inl hit ↦ rw (hit, h s hit, update_id-same i j f ss h) refl
  | inr miss ↦ rw (miss, update_id-same i j f ss h) refl
]

update_id-count :
    (i n j : Text) (f : CommentInputSession → CommentInputSession) (ss : List CommentInputSession)
    → ((s : CommentInputSession) → (f s).id ≡ n)
    → count (has_id j) (update_id i f ss)
      ≤ count (has_id j) ss + (if n == j then count (has_id i) ss else 0)
update_id-count i n j f [] h = omega arith
update_id-count i n j f (s ∷ ss) h = elim (Bool-cases (s.id == i)) [
  | inl hit ↦ rw (hit, h s) (ground (arith, update_id-count i n j f ss h))
  | inr miss ↦ rw miss (ground (arith, update_id-count i n j f ss h))
]

map-marked-count :
    (path h j : Text) (ss : List CommentInputSession)
    → count (has_id j) (map (marked path h) ss) ≡ count (has_id j) ss
map-marked-count path h j [] = refl
map-marked-count path h j (s ∷ ss) = ground (arith, map-marked-count path h j ss)

-- A list of sessions that replaces the others brings its own names.
abbrev pub BringsUnique : SessionAction → Type 0
BringsUnique (replace ss) = IsUnique ss
BringsUnique _ = Unit

module _ (stringify : List Json → Text) where
  put-IsUnique :
      (ss : List CommentInputSession) (d : CommentDraft) (body : Option Text)
      (rect : Option CommentInputRect) (by_id by_anchor : Option CommentInputSession)
      → IsUnique ss
      → find? (has_id (comment_input_session_id stringify d)) ss ≡ by_id
      → IsUnique (put_session stringify (or_option by_id by_anchor) ss d body rect)
  put-IsUnique ss d body rect none none u e j =
      let n = comment_input_session_id stringify d in
      elim (Bool-cases (n == j)) [
        | inl same ↦
            let absent =
              subst (λ k. count (has_id k) ss ≡ 0) ((eq_iff n j).0 same)
                (count-zero_of_find? (has_id n) ss e) in
            ground (arith, absent, count-append (has_id j) ss (fresh_session n d body rect ∷ []))
        | inr other ↦
            ground (arith, u j, count-append (has_id j) ss (fresh_session n d body rect ∷ []))
      ]
  put-IsUnique ss d body rect none (some s) u e j =
      let n = comment_input_session_id stringify d in
      let bound = update_id-count s.id n j (taken_up n d body rect) ss (λ t. refl) in
      elim (Bool-cases (n == j)) [
        | inl same ↦
            let absent =
              subst (λ k. count (has_id k) ss ≡ 0) ((eq_iff n j).0 same)
                (count-zero_of_find? (has_id n) ss e) in
            ground (arith, absent, bound, u s.id)
        | inr other ↦ ground (arith, bound, u j)
      ]
  put-IsUnique ss d body rect (some s) o u e j =
      let n = comment_input_session_id stringify d in
      let named = (eq_iff s.id n).0 (find?-passes (has_id n) ss e) in
      omega (
        arith,
        u j,
        update_id-same s.id j (taken_up n d body rect) ss
            (λ t hit. sym named ∙ sym ((eq_iff t.id s.id).0 hit)),
      )

  -- No action gives two sessions one name, when a list that replaces them holds no name twice.
  pub reduce_comment_input_sessions-IsUnique :
      (ss : List CommentInputSession) (a : SessionAction)
      → IsUnique ss
      → BringsUnique a
      → IsUnique (reduce_comment_input_sessions stringify ss a)
  unfolding reduce_comment_input_sessions comment_input_session_for_draft
  reduce_comment_input_sessions-IsUnique ss (replace new_sessions) u b j = b j
  reduce_comment_input_sessions-IsUnique ss (discard i) u b j =
      omega (arith, u j, count-filter-le (has_id j) (λ s. not (s.id == i)) ss)
  reduce_comment_input_sessions-IsUnique ss (discard_anchors keys) u b j =
      omega (arith, u j, count-filter-le (has_id j) _ ss)
  reduce_comment_input_sessions-IsUnique ss (discard_empty_anchors keys) u b j =
      omega (arith, u j, count-filter-le (has_id j) _ ss)
  reduce_comment_input_sessions-IsUnique ss (collapse i) u b j =
      omega (arith, u j, update_id-same i j collapsed_session ss (λ s h. refl))
  reduce_comment_input_sessions-IsUnique ss (expand i) u b j =
      omega (arith, u j, update_id-same i j expanded_session ss (λ s h. refl))
  reduce_comment_input_sessions-IsUnique ss (mark_path_version path h) u b j =
      omega (arith, u j, map-marked-count path h j ss)
  reduce_comment_input_sessions-IsUnique ss (reanchor i d) u b j =
      omega (arith, u j, update_id-same i j (reanchored d) ss (λ s h. refl))
  reduce_comment_input_sessions-IsUnique ss (start d rect) u b j =
      put-IsUnique ss d none rect _
        (find? (has_anchor stringify (comment_input_anchor_key stringify d)) ss) u refl j
  reduce_comment_input_sessions-IsUnique ss (change d body rect) u b j =
      put-IsUnique ss d (some body) rect _
        (find? (has_anchor stringify (comment_input_anchor_key stringify d)) ss) u refl j
