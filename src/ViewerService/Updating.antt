-- ===== src/ViewerService/Updating.antt =====
-- server/typescript/application/viewer-service.ts: what changing a comment does to the store.
use vivi.Base.{
  ℕ, zero, suc, ◌≡◌, refl, sym, ap, Bool, true, false, Option, none, some, List, [], ◌∷◌, arith,
  ◌==◌, eq_iff, is_empty, trim, find?, find_index?, set, Bool-cases, inl, inr, if◌then◌else◌,
}
use mathlib.Core.Option
use mathlib.Core.Path.{subst}
use vivi.Base.Strings.{Text}
use vivi.Base.Laws.{find?-passes}
use vivi.Base.Json.{Json}
use vivi.Comments.{ViviComment, apply_comment_update}
use vivi.CommentFields.{Result, ok, err}
use vivi.CommentInput.{normalize_comment_update_input}
use vivi.CommentStore.{has_comment_id}
use vivi.CommentStore
use vivi.CommentStore.Jobs.{apply_job, change_comment}
use vivi.ViewerService.{Environment, World, called, do_job, publish_latest_activity}
use vivi.ViewerService.Requests.{update_comment, update_found, changed_comment, note_changed}

found_index {ℓ} :
    {A : Type ℓ} (p : A → Bool) (xs : List A) {x : A}
    → find? p xs ≡ some x
    → (i : ℕ) × (find_index? p xs ≡ some i)
found_index p [] h = cc
found_index p (y ∷ xs) {x} h = elim (Bool-cases (p y)) [
  | inl e ↦ (0, rw e refl)
  | inr e ↦
      (let rest = found_index p xs {x = x} (rw e at h) in
        (suc rest.0, rw e (ap (Option.map suc) rest.1)))
]

find?-set :
    (j : Text) (c : ViviComment) (xs : List ViviComment) (i : ℕ)
    → find_index? (has_comment_id c.id) xs ≡ some i
    → find? (has_comment_id j) (set xs i c)
      ≡ (if c.id == j then some c else find? (has_comment_id j) xs)
find?-set j c [] i h = cc
find?-set j c (x ∷ xs) zero h = elim (Bool-cases (x.id == c.id)) [
  | inl e ↦ ground (arith, eq_iff x.id c.id, eq_iff c.id j, eq_iff x.id j)
  | inr e ↦ absurd (at_zero (find_index? (has_comment_id c.id) xs) (rw e at h))
]
  where
    at_zero : (o : Option ℕ) → Option.map suc o ≡ some zero → ⊥
    at_zero none k = cc
    at_zero (some n) k = ground arith
find?-set j c (x ∷ xs) (suc i) h =
    ground (arith, find?-set j c xs i, eq_iff x.id c.id, eq_iff c.id j, eq_iff x.id j)

-- The comments after a change of one that is there.
abbrev pub IsChanged : ViviComment → List ViviComment → List ViviComment → Type 0
IsChanged c old new =
    (j : Text)
    → find? (has_comment_id j) new ≡ (if c.id == j then some c else find? (has_comment_id j) old)

update_comment-set :
    (c : ViviComment) (xs : List ViviComment) (i : ℕ)
    → find_index? (has_comment_id c.id) xs ≡ some i
    → CommentStore.update_comment c xs ≡ ok (set xs i c)
unfolding CommentStore.update_comment
update_comment-set c xs i h = rw (CommentStore.update_comment, h) refl

do_job-change_comment :
    (c : ViviComment) (w : World) (i : ℕ)
    → find_index? (has_comment_id c.id) w.store.comments ≡ some i
    → do_job (change_comment c) w
      ≡ (record w { store = record w.store { comments = set w.store.comments i c } }, none)
unfolding do_job apply_job
do_job-change_comment c w i h = rw (do_job, update_comment-set c w.store.comments i h) refl

changed_comment-IsChanged :
    (env : Environment) (c current : ViviComment) (w : World)
    → find? (has_comment_id c.id) w.store.comments ≡ some current
    → ((changed_comment env c w).1 ≡ ok c)
      × IsChanged c w.store.comments (changed_comment env c w).0.store.comments
      × ((changed_comment env c w).0.store.drafts ≡ w.store.drafts)
unfolding changed_comment note_changed publish_latest_activity
changed_comment-IsChanged env c current w h =
    let at = found_index (has_comment_id c.id) w.store.comments h in
    rw (changed_comment, do_job-change_comment c w at.0 at.1)
      (refl, (λ j. find?-set j c w.store.comments at.0 at.1), refl)

module _ (env : Environment) (id : Text) (input : Option Json) (w : World) where
  -- A state and its answer after a change of the comment `current`.
  abbrev pub IsUpdate : ViviComment → ViviComment → World → Type 0
  IsUpdate c current v =
      (find? (has_comment_id (trim id)) w.store.comments ≡ some current)
      × (normalize_comment_update_input input ≡ ok c.body)
      × (c ≡ record current { body = c.body; updated_at = env.iso_now w.calls })
      × IsChanged c w.store.comments v.store.comments
      × (v.store.drafts ≡ w.store.drafts)

  abbrev Answers : World × Result ViviComment → Type 0
  Answers (v, err e) = Unit
  Answers (v, ok c) = (current : ViviComment) × IsUpdate c current v

  update_comment-Answers : Answers (update_comment env id input w)
  unfolding update_comment update_found apply_comment_update
  update_comment-Answers = by_id (is_empty (trim id)) refl
    where
      changed :
          {c : ViviComment} (r : World × Result ViviComment)
          → r.1 ≡ ok c
          → ((current : ViviComment) × IsUpdate c current r.0)
          → Answers r
      changed (v, err e) h k = tt
      changed {c} (v, ok d) h k =
          let same : c ≡ d = cc in
          subst (λ d. (current : ViviComment) × IsUpdate d current v) same k

      by_input :
          (current : ViviComment) (b : Result Text)
          → find? (has_comment_id (trim id)) w.store.comments ≡ some current
          → normalize_comment_update_input input ≡ b
          → Answers (update_found env current b w)
      by_input current (err m) k n = tt
      by_input current (ok body) k n =
          let c = apply_comment_update current (some body) (env.iso_now w.calls) in
          let own =
            (eq_iff current.id (trim id)).0
              (find?-passes (has_comment_id (trim id)) w.store.comments k) in
          let done =
            changed_comment-IsChanged env c current (called w)
              (subst (λ i. find? (has_comment_id i) w.store.comments ≡ some current) (sym own) k) in
          changed (changed_comment env c (called w)) done.0 (current, (k, n, refl, done.1, done.2))

      by_comment :
          (o : Option ViviComment)
          → is_empty (trim id) ≡ false
          → find? (has_comment_id (trim id)) w.store.comments ≡ o
          → Answers (update_comment env id input w)
      by_comment none e k = rw (update_comment, e, k) tt
      by_comment (some current) e k =
          rw (update_comment, e, k) (by_input current (normalize_comment_update_input input) k refl)

      by_id : (b : Bool) → is_empty (trim id) ≡ b → Answers (update_comment env id input w)
      by_id true e = rw (update_comment, e) tt
      by_id false e = by_comment (find? (has_comment_id (trim id)) w.store.comments) e refl

  -- A change of a comment that succeeds returns the stored comment of that id with the body of the checked input and the
  -- time of the call; the store then has it under its id, what it had under every other id, and the same drafts.
  pub update_comment-IsUpdate :
      (c : ViviComment)
      → (update_comment env id input w).1 ≡ ok c
      → (current : ViviComment) × IsUpdate c current (update_comment env id input w).0
  update_comment-IsUpdate c h = answered (update_comment env id input w) h update_comment-Answers
    where
      answered :
          (r : World × Result ViviComment)
          → r.1 ≡ ok c
          → Answers r
          → (current : ViviComment) × IsUpdate c current r.0
      answered (v, err e) h k = cc
      answered (v, ok d) h k =
          subst (λ d. (current : ViviComment) × IsUpdate d current v) (same h) k
        where
          same : ok d ≡ ok c → d ≡ c
          same e = cc
