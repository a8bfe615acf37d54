-- ===== src/DiffView/Shown.antt =====
-- The browser reads the diff that the server writes.
use vivi.Base.{
  ℕ, ◌+◌, ◌*◌, ◌-◌, ◌≡◌, refl, ap, ◌∙◌, true, false, none, some, List, [], ◌∷◌, ◌++◌, map, codes,
  starts_with, show, count, length, not, All, arith,
}
use native.Mathlib.Numerals.{add-one}
use vivi.Base.Strings.{Text}
use vivi.LineDiff.{DiffOp, build_interleaved_line_diff}
use vivi.LineDiff
use vivi.LineDiff.Sides.{old_side, new_side, numbered, build_interleaved_line_diff_sides}
use vivi.ChangeReview.{format_diff_op, hunk_header, build_full_file_diff_lines, is_add, is_remove}
use vivi.Base.{show-IsDigit, IsDigit, ◌≢◌}
use vivi.Base.Decimal.{show-ne-nil}
use vivi.DiffView.{
  is_digit, digits_from, skip_count, ParsedDiffLine, hunk, add, remove, context, parse_lines,
  match_hunk, bump, or_undefined,
}

-- How an operation of the server's diff is shown.
abbrev pub shown : DiffOp → ParsedDiffLine
shown (LineDiff.context l m n) = record {
  kind = context;
  text = l;
  old_line = some m;
  new_line = some n;
}
shown (LineDiff.remove l m) = record { kind = remove; text = l; old_line = some m; new_line = none }
shown (LineDiff.add l n) = record { kind = add; text = l; old_line = none; new_line = some n }

-- No removed line begins with "-- " and no added line with "++ ".
abbrev pub IsQuiet : DiffOp → Type 0
IsQuiet (LineDiff.context l m n) = Unit {0}
IsQuiet (LineDiff.remove l m) = starts_with l (codes "-- ") ≡ false
IsQuiet (LineDiff.add l n) = starts_with l (codes "++ ") ≡ false

counters : (n : ℕ) → (bump (n + 1) ≡ n + 1 + 1) × (or_undefined (n + 1) ≡ some (n + 1))
counters n = rw add-one (refl, refl)

read_context :
    (k i j : ℕ) (l : Text) (raws : List Text)
    → parse_lines none k (i + 1) (j + 1) ((b' ' ∷ l) ∷ raws)
      ≡ record { kind = context; text = l; old_line = some (i + 1); new_line = some (j + 1) }
        ∷ parse_lines none (k + 1) (i + 1 + 1) (j + 1 + 1) raws
unfolding parse_lines
read_context k i j l raws = rw ((counters i).0, (counters i).1, (counters j).0, (counters j).1) refl

read_remove :
    (k i j : ℕ) (l : Text) (raws : List Text)
    → starts_with l (codes "-- ") ≡ false
    → parse_lines none k (i + 1) (j + 1) ((b'-' ∷ l) ∷ raws)
      ≡ record { kind = remove; text = l; old_line = some (i + 1); new_line = none }
        ∷ parse_lines none (k + 1) (i + 1 + 1) (j + 1) raws
unfolding parse_lines
read_remove k i j l raws h = rw h refl

read_add :
    (k i j : ℕ) (l : Text) (raws : List Text)
    → starts_with l (codes "++ ") ≡ false
    → parse_lines none k (i + 1) (j + 1) ((b'+' ∷ l) ∷ raws)
      ≡ record { kind = add; text = l; old_line = none; new_line = some (j + 1) }
        ∷ parse_lines none (k + 1) (i + 1) (j + 1 + 1) raws
unfolding parse_lines
read_add k i j l raws h = rw h refl

-- Operations that are numbered from `i` and `j` are read back as they are.
read_ops :
    (ops : List DiffOp) (k i j : ℕ) (olds news : List Text)
    → old_side ops ≡ numbered i olds
    → new_side ops ≡ numbered j news
    → All IsQuiet ops
    → parse_lines none k (i + 1) (j + 1) (map format_diff_op ops) ≡ map shown ops
unfolding format_diff_op
read_ops [] k i j olds news p q h = unfold parse_lines in refl
read_ops (LineDiff.context l m n ∷ ops) k i j [] news p q h = cc
read_ops (LineDiff.context l m n ∷ ops) k i j (o ∷ olds) [] p q h = cc
read_ops (LineDiff.context l m n ∷ ops) k i j (o ∷ olds) (w ∷ news) p q h =
    let rest = read_ops ops (k + 1) (i + 1) (j + 1) olds news (ground arith) (ground arith) h.1 in
    ground (arith, read_context k i j l (map format_diff_op ops), rest)
read_ops (LineDiff.remove l m ∷ ops) k i j [] news p q h = cc
read_ops (LineDiff.remove l m ∷ ops) k i j (o ∷ olds) news p q h =
    let rest = read_ops ops (k + 1) (i + 1) j olds news (ground arith) q h.1 in
    ground (arith, read_remove k i j l (map format_diff_op ops) h.0, rest)
read_ops (LineDiff.add l n ∷ ops) k i j olds [] p q h = cc
read_ops (LineDiff.add l n ∷ ops) k i j olds (w ∷ news) p q h =
    let rest = read_ops ops (k + 1) i (j + 1) olds news p (ground arith) h.1 in
    ground (arith, read_add k i j l (map format_diff_op ops) h.0, rest)

-- Digits are read up to what follows them.
digits_from-append :
    (n : ℕ) (s : Text) (c : ℕ) (t : Text)
    → All IsDigit s
    → is_digit c ≡ false
    → (digits_from n (s ++ c ∷ t)).1 ≡ c ∷ t
digits_from-append n [] c t h p = rw p refl
digits_from-append n (d ∷ s) c t h p =
    let yes : is_digit d ≡ true = ground arith in
    rw yes (digits_from-append (n * 10 + (d - b'0')) s c t h.1 p)

skip_count-digits :
    (s : Text) (c : ℕ) (t : Text)
    → All IsDigit s
    → s ≢ []
    → is_digit c ≡ false
    → skip_count (b',' ∷ (s ++ c ∷ t)) ≡ c ∷ t
skip_count-digits [] c t h p q = ground arith
skip_count-digits (d ∷ s) c t h p q =
    let yes : is_digit d ≡ true = ground arith in
    rw yes (digits_from-append (0 + (d - b'0')) s c t h.1 q)

match_hunk-hunk_header : (a b : ℕ) → match_hunk (hunk_header a b) ≡ some (1, 1)
unfolding match_hunk
match_hunk-hunk_header a b =
    rw
      (
        skip_count-digits (show a) b' ' (codes "+1," ++ (show b ++ codes " @@")) (show-IsDigit a)
            (show-ne-nil a) refl,
        skip_count-digits (show b) b' ' (codes "@@") (show-IsDigit b) (show-ne-nil b) refl,
      )
      refl

read_header :
    (k old new : ℕ) (h : Text) (raws : List Text)
    → match_hunk h ≡ some (1, 1)
    → parse_lines none k old new (h ∷ raws)
      ≡ record { kind = hunk; text = h; old_line = none; new_line = none }
        ∷ parse_lines none (k + 1) 1 1 raws
unfolding parse_lines
read_header k old new h raws e = rw e refl

count-old_side : (ops : List DiffOp) → count (λ op. not (is_add op)) ops ≡ length (old_side ops)
count-old_side [] = refl
count-old_side (LineDiff.context l m n ∷ ops) = omega (arith, count-old_side ops)
count-old_side (LineDiff.remove l m ∷ ops) = omega (arith, count-old_side ops)
count-old_side (LineDiff.add l n ∷ ops) = omega (arith, count-old_side ops)

count-new_side : (ops : List DiffOp) → count (λ op. not (is_remove op)) ops ≡ length (new_side ops)
count-new_side [] = refl
count-new_side (LineDiff.context l m n ∷ ops) = omega (arith, count-new_side ops)
count-new_side (LineDiff.remove l m ∷ ops) = omega (arith, count-new_side ops)
count-new_side (LineDiff.add l n ∷ ops) = omega (arith, count-new_side ops)

length-numbered : (i : ℕ) (ls : List Text) → length (numbered i ls) ≡ length ls
length-numbered i [] = refl
length-numbered i (l ∷ ls) = omega (arith, length-numbered (i + 1) ls)

-- The server's diff of two files, read by the loop of the browser's parser without a limit and
-- before blank lines are dropped, is the hunk line that gives the lengths of the two files, and then
-- each operation with its own line numbers, when no removed line begins with "-- " and no added one
-- with "++ ".
pub parse_lines-build_full_file_diff_lines :
    (olds news : List Text) (k old new : ℕ)
    → All IsQuiet (build_interleaved_line_diff olds news)
    → parse_lines none k old new (build_full_file_diff_lines olds news)
      ≡ record {
        kind = hunk;
        text = hunk_header (length olds) (length news);
        old_line = none;
        new_line = none;
      }
        ∷ map shown (build_interleaved_line_diff olds news)
unfolding build_full_file_diff_lines
parse_lines-build_full_file_diff_lines olds news k old new q =
    let ops = build_interleaved_line_diff olds news in
    let sides = build_interleaved_line_diff_sides olds news in
    rw
      (
        count-old_side ops ∙ ap length sides.0 ∙ length-numbered 0 olds,
        count-new_side ops ∙ ap length sides.1 ∙ length-numbered 0 news,
      )
      (read_header k old new (hunk_header (length olds) (length news)) (map format_diff_op ops)
          (match_hunk-hunk_header (length olds) (length news))
        ∙ ap
            (λ ls.
              record {
                kind = hunk;
                text = hunk_header (length olds) (length news);
                old_line = none;
                new_line = none;
              }
              ∷ ls)
            (read_ops ops (k + 1) 0 0 olds news sides.0 sides.1 q))
