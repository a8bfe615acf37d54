-- ===== src/Sessions/Tests.antt =====
-- Comments that are being written, and the theorems there.
use vivi.Base.{ℕ, ◌≡◌, none, some, List, [], ◌∷◌, ◌++◌, codes, filter, map, arith, show}
use vivi.Base.Strings.{Text}
use vivi.Base.Json.{Json, string, number}
use vivi.Comments.{source, text}
use vivi.Base.{any}
use vivi.Sessions.{opened}
use vivi.Sessions.Restore.{
  has_text, key_of, normalize_restored_comment_input_sessions,
  normalize_restored_comment_input_sessions-text,
}
use vivi.Sessions.{
  CommentDraft, CommentInputSession, start, change, has_body, reduce_comment_input_sessions,
}
use vivi.Sessions.Identity.{IsUnique, reduce_comment_input_sessions-IsUnique}
use vivi.Sessions.Bodies.{body_of, reduce_comment_input_sessions-keeps_bodies}

-- An array of strings, numbers and nulls, written one after the other with commas.
abbrev joined : List Json → Text
joined [] = []
joined (string s ∷ vs) = s ++ (b',' ∷ joined vs)
joined (number n ∷ vs) = show n ++ (b',' ∷ joined vs)
joined (v ∷ vs) = b'-' ∷ b',' ∷ joined vs

abbrev line : ℕ → CommentDraft
line n = record {
  thread_id = none;
  path = codes "a.md";
  viewer_kind = text;
  anchor = record {
    canonical = record {
      path = codes "a.md";
      line_start = some n;
      line_end = none;
      column_start = none;
      column_end = none;
      quote = none;
      file_hash = none;
    };
    surface = source;
    rendered_anchor = none;
    diff_anchor = none;
  };
}

abbrev typed : List CommentInputSession
typed = reduce_comment_input_sessions joined [] (change (line 3) (codes "Why?") none)

typed-IsUnique : IsUnique typed
typed-IsUnique =
    reduce_comment_input_sessions-IsUnique joined [] (change (line 3) (codes "Why?") none)
      (λ j. omega arith) tt

reduce_comment_input_sessions-IsUnique_example :
    IsUnique (reduce_comment_input_sessions joined typed (start (line 5) none))
reduce_comment_input_sessions-IsUnique_example =
    reduce_comment_input_sessions-IsUnique joined typed (start (line 5) none) typed-IsUnique tt

reduce_comment_input_sessions-keeps_bodies_example :
    map body_of (filter has_body (reduce_comment_input_sessions joined typed (start (line 5) none)))
    ≡ map body_of (filter has_body typed)
reduce_comment_input_sessions-keeps_bodies_example =
    reduce_comment_input_sessions-keeps_bodies joined typed (start (line 5) none) tt

-- An empty draft on the line where a text is written.
abbrev empty_at : ℕ → CommentInputSession
empty_at n = record {
  id = codes "x";
  draft = line n;
  body = [];
  status = opened;
  is_collapsed = none;
  rect = none;
}

normalize_restored_comment_input_sessions-text_example :
    any
      (has_text joined (key_of joined (empty_at 3)))
      (normalize_restored_comment_input_sessions joined (empty_at 3 ∷ typed))
    ≡ any (has_text joined (key_of joined (empty_at 3))) (empty_at 3 ∷ typed)
normalize_restored_comment_input_sessions-text_example =
    normalize_restored_comment_input_sessions-text joined (empty_at 3 ∷ typed)
      (key_of joined (empty_at 3))
