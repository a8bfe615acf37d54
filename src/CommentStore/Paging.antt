-- ===== src/CommentStore/Paging.antt =====
-- server/typescript/infrastructure/node-comment-store.ts: reading the activities of a thread page by page.
use vivi.Base.{
  ℕ, zero, suc, ◌+◌, ◌≤◌, ◌≡◌, ◌≢◌, refl, sym, ◌∙◌, ap, Bool, true, false, none, some, List, [],
  ◌∷◌, ◌++◌, arith, filter, find_index?, drop, take, count, Bool-cases, inl, inr, is_empty,
}
use mathlib.Core.Path.{subst}
use mathlib.Core.List.{append_assoc}
use vivi.Base.Strings.{Text, eq_self}
use vivi.Base.Laws.{filter-append, count-append}
use vivi.CommentStore.{ThreadEvent}
use vivi.CommentStore.Activities.{
  CommentThreadActivityEvent, public_from, has_activity_id, is_of_thread, page_size, start_after,
  list_comment_thread_activities,
}

suc_add : (n m : ℕ) → suc n + m ≡ suc (n + m)
suc_add n m = omega arith

module _ {ℓ} {A : Type ℓ} where
  heads : {x y : A} {s t : List A} → x ∷ s ≡ y ∷ t → x ≡ y
  heads e = cc

  tails : {x y : A} {s t : List A} → x ∷ s ≡ y ∷ t → s ≡ t
  tails e = cc

  -- The index of an entry that is the first to pass a test.
  index_of_first :
      (p : A → Bool) (xs ys : List A) (x : A)
      → count p xs ≡ 0
      → p x ≡ true
      → (n : ℕ) × (find_index? p (xs ++ x ∷ ys) ≡ some n) × (drop (suc n) (xs ++ x ∷ ys) ≡ ys)
  index_of_first p [] ys x h e = (0, ground arith, refl)
  index_of_first p (z ∷ xs) ys x h e =
      let rest = index_of_first p xs ys x (ground arith) e in (suc rest.0, first_of rest.1, rest.2)
    where
      first_of :
          {n : ℕ}
          → find_index? p (xs ++ x ∷ ys) ≡ some n
          → find_index? p (z ∷ (xs ++ x ∷ ys)) ≡ some (suc n)
      first_of k = ground arith

  take_nil : (n : ℕ) → take {A = A} n [] ≡ []
  take_nil zero = refl
  take_nil (suc n) = refl

  snoc_full : (p : List A) (a : A) → [] ≢ p ++ a ∷ []
  snoc_full [] a e = cc
  snoc_full (x ∷ p) a e = cc

  -- A page that is not empty ends at an entry of the list; what it shows stands up to there.
  split_page :
      (q : A → Bool) (xs : List A) (n : ℕ) (p : List A) (a : A)
      → take n (filter q xs) ≡ p ++ a ∷ []
      → (us vs : List A) × (xs ≡ us ++ a ∷ vs) × (filter q us ≡ p) × (q a ≡ true)
  split_page q [] n p a h = absurd (snoc_full p a (sym (take_nil n) ∙ h))
  split_page q (x ∷ xs) n p a h = elim (Bool-cases (q x)) [
    | inl e ↦ shown e n p (rw e at h) (λ n p k. split_page q xs n p a k)
    | inr e ↦
        (let rest = split_page q xs n p a (rw e at h) in
          (x ∷ rest.0, rest.1, ap (x ∷◌) rest.2, rw e rest.3, rest.4))
  ]
    where
      shown :
          q x ≡ true
          → (n : ℕ) (p : List A) → take n (x ∷ filter q xs) ≡ p ++ a ∷ []
          → ((n : ℕ) (p : List A)
              → take n (filter q xs) ≡ p ++ a ∷ []
              → (us vs : List A) × (xs ≡ us ++ a ∷ vs) × (filter q us ≡ p) × (q a ≡ true))
          → (us vs : List A) × (x ∷ xs ≡ us ++ a ∷ vs) × (filter q us ≡ p) × (q a ≡ true)
      shown e zero p k ih = absurd (snoc_full p a k)
      shown e (suc n) [] k ih = ([], xs, ap (λ y. y ∷ xs) (heads k), refl, rw (← heads k) e)
      shown e (suc n) (y ∷ p) k ih =
          let rest = ih n p (tails k) in
          (
            x ∷ rest.0,
            rest.1,
            ap (x ∷◌) rest.2,
            rw e (rw rest.3 (ap (λ z. z ∷ p) (heads k))),
            rest.4,
          )

  -- A page and the next one are one larger page.
  take-more : (n m : ℕ) (p w : List A) → take n (p ++ w) ≡ p → p ++ take m w ≡ take (n + m) (p ++ w)
  take-more zero m [] w h = ap (λ k. take k w) (omega arith)
  take-more (suc n) m [] [] h = take_nil m ∙ sym (take_nil (suc n + m))
  take-more (suc n) m [] (x ∷ w) h = cc
  take-more zero m (x ∷ p) w h = cc
  take-more (suc n) m (x ∷ p) w h = rw (suc_add n m) (ap (x ∷◌) (take-more n m p w (tails h)))

-- The cursor of an activity with an id of its own leads to what stands after it.
drop-start_after :
    (us vs : List CommentThreadActivityEvent) (end : CommentThreadActivityEvent)
    → is_empty end.id ≡ false
    → count (has_activity_id end.id) (us ++ end ∷ vs) ≤ 1
    → drop (start_after (some end.id) (us ++ end ∷ vs)) (us ++ end ∷ vs) ≡ vs
drop-start_after us vs end full unique =
    let found = index_of_first (has_activity_id end.id) us vs end before (eq_self end.id) in
    rw (full, found.1) found.2
  where
    before : count (has_activity_id end.id) us ≡ 0
    before = omega (
      arith,
      unique,
      count-append (has_activity_id end.id) us (end ∷ vs),
      own (has_activity_id end.id) vs (eq_self end.id),
    )
      where
        own :
            (p : CommentThreadActivityEvent → Bool) (vs : List CommentThreadActivityEvent)
            → p end ≡ true
            → 1 ≤ count p (end ∷ vs)
        own p vs e = ground arith

-- A page of activities that ends at one with an id that is not empty and that no other one has, and the page after that id:
-- together they are the first activities of the thread, as many as both pages may hold.
pub list_comment_thread_activities-pages :
    (thread_id : Text) (first next : ℕ) (events : List ThreadEvent)
    (page : List CommentThreadActivityEvent) (end : CommentThreadActivityEvent)
    → list_comment_thread_activities thread_id none first events ≡ page ++ end ∷ []
    → is_empty end.id ≡ false
    → count (has_activity_id end.id) (public_from 0 events) ≤ 1
    → (page ++ end ∷ []) ++ list_comment_thread_activities thread_id (some end.id) next events
      ≡ take
          (page_size first + page_size next)
          (filter (is_of_thread thread_id) (public_from 0 events))
unfolding list_comment_thread_activities
list_comment_thread_activities-pages thread_id first next events page end shown full unique =
    ap ((page ++ end ∷ []) ++◌) rest_of_thread
    ∙ take-more (page_size first) (page_size next) (page ++ end ∷ []) later shown_first
    ∙ ap (take (page_size first + page_size next)) (sym whole)
  where
    activities : List CommentThreadActivityEvent
    activities = public_from 0 events

    q : CommentThreadActivityEvent → Bool
    q = is_of_thread thread_id

    parts :
        (us vs : List CommentThreadActivityEvent) × (activities ≡ us ++ end ∷ vs)
        × (filter q us ≡ page)
        × (q end ≡ true)
    parts = split_page q activities (page_size first) page end shown

    later : List CommentThreadActivityEvent
    later = filter q parts.1

    whole : filter q activities ≡ (page ++ end ∷ []) ++ later
    whole =
        ap (filter q) parts.2
        ∙ filter-append q parts.0 (end ∷ parts.1)
        ∙ rw (parts.4, parts.3) (sym (append_assoc page (end ∷ []) later))

    shown_first : take (page_size first) ((page ++ end ∷ []) ++ later) ≡ page ++ end ∷ []
    shown_first = rw (← whole) shown

    rest_of_thread :
        take (page_size next) (filter q (drop (start_after (some end.id) activities) activities))
        ≡ take (page_size next) later
    rest_of_thread =
        ap (λ xs. take (page_size next) (filter q (drop (start_after (some end.id) xs) xs))) parts.2
        ∙ ap (λ xs. take (page_size next) (filter q xs))
            (drop-start_after parts.0 parts.1 end full
              (subst (λ xs. count (has_activity_id end.id) xs ≤ 1) parts.2 unique))
