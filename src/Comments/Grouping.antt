-- ===== src/Comments/Grouping.antt =====
-- A thread is made of its own comments alone, in their order.
use vivi.Base.{
  ◌≤◌, ◌≡◌, refl, ◌∙◌, Bool, false, Option, none, some, List, [], ◌∷◌, Text, ◌==◌, eq_iff, or_else,
  find?, filter, count, arith, if◌then◌else◌, Bool-cases, inl, inr,
}
use vivi.Comments.{
  ViviComment, CommentThread, thread_of, is_thread, new_thread, merge_comment, add_comment,
  add_comments, build_comment_threads,
}

abbrev pub belongs : Text → ViviComment → Bool
belongs i c = thread_of c == i

-- The thread that comments of one thread form, one after the other.
abbrev pub fold_thread : Option CommentThread → List ViviComment → Option CommentThread
fold_thread t [] = t
fold_thread none (c ∷ cs) = fold_thread (some (merge_comment (new_thread c) c)) cs
fold_thread (some t) (c ∷ cs) = fold_thread (some (merge_comment t c)) cs

find-add_comment :
    (ts : List CommentThread) (c : ViviComment) (i : Text)
    → find? (is_thread i) (add_comment ts c) ≡ (
        if thread_of c == i
        then some (merge_comment (or_else (find? (is_thread i) ts) (new_thread c)) c)
        else find? (is_thread i) ts)
unfolding add_comment
find-add_comment [] c i = unfold merge_comment in ground arith
find-add_comment (t ∷ ts) c i =
    unfold merge_comment in
    ground (
      arith,
      find-add_comment ts c i,
      eq_iff t.id (thread_of c),
      eq_iff t.id i,
      eq_iff (thread_of c) i,
    )

find-add_comments :
    (ts : List CommentThread) (cs : List ViviComment) (i : Text)
    → find? (is_thread i) (add_comments ts cs)
      ≡ fold_thread (find? (is_thread i) ts) (filter (belongs i) cs)
find-add_comments ts [] i = refl
find-add_comments ts (c ∷ cs) i = elim (Bool-cases (thread_of c == i)) [
  | inl mine ↦
      find-add_comments (add_comment ts c) cs i
      ∙ rw (find-add_comment ts c i) (rw mine (started (find? (is_thread i) ts)))
  | inr other ↦
      find-add_comments (add_comment ts c) cs i ∙ rw (find-add_comment ts c i) (rw other refl)
]
  where
    started :
        (o : Option CommentThread)
        → fold_thread (some (merge_comment (or_else o (new_thread c)) c)) (filter (belongs i) cs)
          ≡ fold_thread o (c ∷ filter (belongs i) cs)
    started none = refl
    started (some t) = refl

-- The thread with a name is what its own comments form in their order, whatever other comments
-- stand between them; there is none if no comment belongs to it.
pub find-build_comment_threads :
    (cs : List ViviComment) (i : Text)
    → find? (is_thread i) (build_comment_threads cs) ≡ fold_thread none (filter (belongs i) cs)
unfolding build_comment_threads
find-build_comment_threads cs i = find-add_comments [] cs i

count-add_comment :
    (ts : List CommentThread) (c : ViviComment) (i : Text)
    → count (is_thread i) ts ≤ 1
    → count (is_thread i) (add_comment ts c) ≤ 1
unfolding add_comment merge_comment
count-add_comment [] c i h = ground arith
count-add_comment (t ∷ ts) c i h = ground (
  arith,
  count-add_comment ts c i,
  count-add_comment_other ts c i,
  eq_iff t.id (thread_of c),
  eq_iff t.id i,
  eq_iff (thread_of c) i,
)
  where
    count-add_comment_other :
        (ts : List CommentThread) (c : ViviComment) (i : Text)
        → (thread_of c == i) ≡ false
        → count (is_thread i) (add_comment ts c) ≡ count (is_thread i) ts
    count-add_comment_other [] c i h = ground arith
    count-add_comment_other (t ∷ ts) c i h =
        ground (arith, count-add_comment_other ts c i, eq_iff t.id (thread_of c))

count-add_comments :
    (ts : List CommentThread) (cs : List ViviComment) (i : Text)
    → count (is_thread i) ts ≤ 1
    → count (is_thread i) (add_comments ts cs) ≤ 1
count-add_comments ts [] i h = h
count-add_comments ts (c ∷ cs) i h =
    count-add_comments (add_comment ts c) cs i (count-add_comment ts c i h)

-- No two threads have one name.
pub build_comment_threads_unique :
    (cs : List ViviComment) (i : Text) → count (is_thread i) (build_comment_threads cs) ≤ 1
unfolding build_comment_threads
build_comment_threads_unique cs i = count-add_comments [] cs i (omega arith)
