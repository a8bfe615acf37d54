-- ===== src/CommentActivity/Retaining.antt =====
-- ui/src/state/comment-activity.ts: which events of a thread are kept.
use vivi.Base.{
  ℕ, zero, suc, ◌≡◌, refl, sym, ap, ◌∙◌, inl, inr, Bool, true, false, Option, none, some, List, [],
  ◌∷◌, ◌++◌, ◌==◌, eq_iff, find?, any, take, All, arith, Bool-cases,
}
use mathlib.Core.Path.{subst}
use vivi.Base.Strings.{Text}
use vivi.Base.Laws.{All-take}
use vivi.Base.Sorting.{
  IsOrder, IsSorted, insert_by, sort_by, insert_by-IsSorted, sort_by-append, sort_by-sorted,
  IsSorted-take,
}
use vivi.CommentStore.Activities.{CommentThreadActivityEvent}
use vivi.CommentActivity.{
  is_agent_thread_read, has_same_id, is_newer, with_latest, retain_thread_activities,
  max_events_per_thread,
}
use vivi.CommentActivity.Finding.{All-find, find-take-none, find-insert_by}

abbrev pub Fresh : CommentThreadActivityEvent → List CommentThreadActivityEvent → Type 0
Fresh e xs = All (λ x. (x.id == e.id) ≡ false) xs

-- No two events have one id.
abbrev pub IsDistinct : List CommentThreadActivityEvent → Type 0
IsDistinct [] = Unit
IsDistinct (e ∷ es) = Fresh e es × IsDistinct es

pub not_same : (a b : Text) → (a == b) ≡ false → (b == a) ≡ false
not_same a b h = ground (arith, h, eq_iff a b, eq_iff b a)

IsDistinct-take :
    (n : ℕ) (xs : List CommentThreadActivityEvent) → IsDistinct xs → IsDistinct (take n xs)
IsDistinct-take zero xs h = tt
IsDistinct-take (suc n) [] h = tt
IsDistinct-take (suc n) (x ∷ xs) h =
    (All-take (λ y. (y.id == x.id) ≡ false) n xs h.0, IsDistinct-take n xs h.1)

module _ (before : CommentThreadActivityEvent → CommentThreadActivityEvent → Bool) where
  pub All-insert_by {κ} :
      (Q : CommentThreadActivityEvent → Type κ) (e : CommentThreadActivityEvent)
      (xs : List CommentThreadActivityEvent)
      → Q e
      → All Q xs
      → All Q (insert_by before e xs)
  unfolding insert_by
  All-insert_by Q e [] h k = (h, tt)
  All-insert_by Q e (x ∷ xs) h k = elim (Bool-cases (before e x)) [
    | inl b ↦ rw b (h, k)
    | inr b ↦ rw b (k.0, All-insert_by Q e xs h k.1)
  ]

  IsDistinct-insert_by :
      (e : CommentThreadActivityEvent) (xs : List CommentThreadActivityEvent)
      → Fresh e xs
      → IsDistinct xs
      → IsDistinct (insert_by before e xs)
  unfolding insert_by
  IsDistinct-insert_by e [] h k = (tt, tt)
  IsDistinct-insert_by e (x ∷ xs) h k = elim (Bool-cases (before e x)) [
    | inl b ↦ rw b (h, k)
    | inr b ↦ rw b (
      All-insert_by (λ y. (y.id == x.id) ≡ false) e xs (not_same x.id e.id h.0) k.0,
      IsDistinct-insert_by e xs h.1 k.1,
    )
  ]

-- An event that is found, and whose id is among the first ones, is found among them.
find-take :
    (P : CommentThreadActivityEvent → Bool) (n : ℕ) (xs : List CommentThreadActivityEvent)
    (l : CommentThreadActivityEvent)
    → IsDistinct xs
    → find? P xs ≡ some l
    → any (has_same_id l) (take n xs) ≡ true
    → find? P (take n xs) ≡ some l
find-take P zero xs l h e k = cc
find-take P (suc n) [] l h e k = cc
find-take P (suc n) (x ∷ xs) l h e k = elim (Bool-cases (P x)) [
  | inl p ↦ ground (arith, e, p)
  | inr p ↦ rw p (
      find-take P n xs l h.1 (ground (arith, e, p)) (
        let other : (l.id == x.id) ≡ false =
          All-find P (λ y. (y.id == x.id) ≡ false) xs l h.0 (ground (arith, e, p)) in
        let same = not_same l.id x.id other in ground (arith, k, same)))
]

find-passes :
    (P : CommentThreadActivityEvent → Bool) (xs : List CommentThreadActivityEvent)
    (l : CommentThreadActivityEvent)
    → find? P xs ≡ some l
    → P l ≡ true
find-passes P [] l e = cc
find-passes P (x ∷ xs) l e = elim (Bool-cases (P x)) [
  | inl p ↦ let same : x ≡ l = ground (arith, e, p) in subst (λ y. P y ≡ true) same p
  | inr p ↦ find-passes P xs l (ground (arith, e, p))
]

-- An event that is found, but whose id is not among the first ones, is found after them.
find-take-later :
    (P : CommentThreadActivityEvent → Bool) (n : ℕ) (xs : List CommentThreadActivityEvent)
    (l : CommentThreadActivityEvent)
    → find? P xs ≡ some l
    → any (has_same_id l) (take n xs) ≡ false
    → find? P (take n xs) ≡ none
find-take-later P zero xs l e k = refl
find-take-later P (suc n) [] l e k = refl
find-take-later P (suc n) (x ∷ xs) l e k = elim (Bool-cases (P x)) [
  | inl p ↦
      let same : x ≡ l = ground (arith, e, p) in
      let ids : x.id ≡ l.id = ap (λ y. y.id) same in ground (arith, k, eq_iff x.id l.id, ids)
  | inr p ↦ rw p (find-take-later P n xs l (ground (arith, e, p)) (ground (arith, k)))
]

not_any-Fresh :
    (l : CommentThreadActivityEvent) (xs : List CommentThreadActivityEvent)
    → any (has_same_id l) xs ≡ false
    → Fresh l xs
not_any-Fresh l [] h = tt
not_any-Fresh l (x ∷ xs) h = (ground (arith, h), not_any-Fresh l xs (ground (arith, h)))

module _ (locale_before : Text → Text → Bool) (o : IsOrder locale_before) where
  pub is_newer-IsOrder : IsOrder (is_newer locale_before)
  is_newer-IsOrder = record {
    asym = λ x y. o.asym y.created_at x.created_at;
    not_before_trans = λ x y z h k. o.not_before_trans z.created_at y.created_at x.created_at k h;
  }

  -- What is kept of a sorted list: it is sorted, and it has the same latest read of an agent.
  pub record IsKept (sorted kept : List CommentThreadActivityEvent) : Type 0 where
    pub in_order : IsSorted (is_newer locale_before) kept
    pub distinct : IsDistinct kept
    pub latest : find? is_agent_thread_read kept ≡ find? is_agent_thread_read sorted
    pub fresh : (e : CommentThreadActivityEvent) → Fresh e sorted → Fresh e kept

  sort_by-end :
      (xs : List CommentThreadActivityEvent) (e : CommentThreadActivityEvent)
      → IsSorted (is_newer locale_before) xs
      → sort_by (is_newer locale_before) (xs ++ e ∷ []) ≡ insert_by (is_newer locale_before) e xs
  sort_by-end xs e h =
      sort_by-append (is_newer locale_before) xs e
      ∙ ap (insert_by (is_newer locale_before) e) (sort_by-sorted (is_newer locale_before) xs h)

  with_latest-IsKept :
      (sorted : List CommentThreadActivityEvent)
      → IsSorted (is_newer locale_before) sorted
      → IsDistinct sorted
      → IsKept sorted (
          with_latest locale_before
            (take max_events_per_thread sorted)
            (find? is_agent_thread_read sorted))
  unfolding with_latest
  with_latest-IsKept sorted h d = by_latest (find? is_agent_thread_read sorted) refl
    where
      recent : List CommentThreadActivityEvent
      recent = take max_events_per_thread sorted

      with_recent :
          find? is_agent_thread_read recent ≡ find? is_agent_thread_read sorted
          → IsKept sorted recent
      with_recent e = record {
        in_order = IsSorted-take (is_newer locale_before) max_events_per_thread sorted h;
        distinct = IsDistinct-take max_events_per_thread sorted d;
        latest = e;
        fresh = λ x. All-take (λ y. (y.id == x.id) ≡ false) max_events_per_thread sorted;
      }

      inserted :
          (l : CommentThreadActivityEvent)
          → find? is_agent_thread_read sorted ≡ some l
          → any (has_same_id l) recent ≡ false
          → IsKept sorted (insert_by (is_newer locale_before) l (take 23 recent))
      inserted l e k = record {
        in_order = insert_by-IsSorted (is_newer locale_before) is_newer-IsOrder l (take 23 recent) (
            IsSorted-take (is_newer locale_before) 23 recent
              (IsSorted-take (is_newer locale_before) max_events_per_thread sorted h));
        distinct =
            IsDistinct-insert_by (is_newer locale_before) l (take 23 recent)
              (All-take (λ y. (y.id == l.id) ≡ false) 23 recent (not_any-Fresh l recent k))
              (IsDistinct-take 23 recent (IsDistinct-take max_events_per_thread sorted d));
        latest =
            find-insert_by is_agent_thread_read (is_newer locale_before) is_newer-IsOrder l
              (take 23 recent)
              (IsSorted-take (is_newer locale_before) 23 recent
                (IsSorted-take (is_newer locale_before) max_events_per_thread sorted h))
            ∙ rw
                (
                  find-passes is_agent_thread_read sorted l e,
                  find-take-none is_agent_thread_read 23 recent
                      (find-take-later is_agent_thread_read max_events_per_thread sorted l e k),
                )
                (sym e);
        fresh = λ x f.
            All-insert_by (is_newer locale_before) (λ y. (y.id == x.id) ≡ false) l (take 23 recent)
              (All-find is_agent_thread_read (λ y. (y.id == x.id) ≡ false) sorted l f e)
              (All-take (λ y. (y.id == x.id) ≡ false) 23 recent
                (All-take (λ y. (y.id == x.id) ≡ false) max_events_per_thread sorted f));
      }

      by_latest :
          (latest : Option CommentThreadActivityEvent)
          → find? is_agent_thread_read sorted ≡ latest
          → IsKept sorted (with_latest locale_before recent latest)
      by_latest none e =
          with_recent (find-take-none is_agent_thread_read max_events_per_thread sorted e ∙ sym e)
      by_latest (some l) e = elim (Bool-cases (any (has_same_id l) recent)) [
        | inl k ↦ rw k (
            with_recent
              (find-take is_agent_thread_read max_events_per_thread sorted l d e k ∙ sym e))
        | inr k ↦
            rw
              (
                k,
                sort_by-end (take 23 recent) l (
                    IsSorted-take (is_newer locale_before) 23 recent
                      (IsSorted-take (is_newer locale_before) max_events_per_thread sorted h)),
              )
              (inserted l e k)
      ]

  -- Adding an event to what is kept of a thread.
  pub retain-IsKept :
      (kept : List CommentThreadActivityEvent) (e : CommentThreadActivityEvent)
      → IsSorted (is_newer locale_before) kept
      → IsDistinct kept
      → Fresh e kept
      → IsKept
          (insert_by (is_newer locale_before) e kept)
          (retain_thread_activities locale_before (kept ++ e ∷ []))
  unfolding retain_thread_activities
  retain-IsKept kept e h d f = rw (sort_by-end kept e h) (
      with_latest-IsKept (insert_by (is_newer locale_before) e kept)
        (insert_by-IsSorted (is_newer locale_before) is_newer-IsOrder e kept h)
        (IsDistinct-insert_by (is_newer locale_before) e kept f d))
