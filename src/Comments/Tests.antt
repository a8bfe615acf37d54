-- ===== src/Comments/Tests.antt =====
-- Threads of three comments, and the theorems there.
use vivi.Base.{◌≡◌, refl, none, some, List, [], ◌∷◌, codes, ◌==◌, text_lt, find?, filter}
use vivi.Comments.{
  ViviComment, CommentThread, open_status, resolved, archived, is_thread, build_comment_threads,
}
use vivi.Comments.Samples.{place, comment}
use vivi.Comments.Grouping.{belongs}
use vivi.Comments.Summary.{Summarises, build_comment_threads-Summarises}

abbrev three : List ViviComment
three =
    comment (codes "c1") none resolved (codes "2024-01-02")
    ∷ comment (codes "c2") none archived (codes "2024-01-03")
    ∷ comment (codes "c3") (some (codes "c1")) open_status (codes "2024-01-01")
    ∷ []

abbrev first_thread : CommentThread
first_thread = record {
  id = codes "c1";
  path = codes "a.md";
  status = open_status;
  review_batch_id = none;
  anchor = place;
  updated_at = codes "2024-01-02";
  created_at = codes "2024-01-01";
  resolved_at = none;
  archived_at = none;
  comments =
      comment (codes "c1") none resolved (codes "2024-01-02")
      ∷ comment (codes "c3") (some (codes "c1")) open_status (codes "2024-01-01")
      ∷ [];
}

found_first : find? (is_thread (codes "c1")) (build_comment_threads three) ≡ some first_thread
unfolding build_comment_threads ◌==◌ text_lt
found_first = refl

build_comment_threads-Summarises_example :
    Summarises first_thread (filter (belongs (codes "c1")) three)
build_comment_threads-Summarises_example =
    build_comment_threads-Summarises three (codes "c1") first_thread found_first
