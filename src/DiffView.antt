-- ===== src/DiffView.antt =====
-- ui/src/state/git-review.ts: reading a unified diff, and its statistics.
pub mod SideBySide
pub mod Rows
pub mod Shown
pub mod Stat
mod Tests
use vivi.Base.{
  ℕ, zero, suc, ◌+◌, ◌*◌, ◌-◌, ◌<◌, Bool, true, false, not, ◌&&◌, ◌||◌, Option, none, some, List,
  [], ◌∷◌, ◌++◌, codes, ◌==◌, starts_with, is_empty, show, leb, eqb, drop, filter, length,
  if◌then◌else◌,
}
use vivi.Base.Strings.{Text}
use vivi.ChangeReview.{DiffStatus, available, TextDiff}
use vivi.Base.Lines.{split_lines}

pub data DiffLineKind : Type 0 where
  meta hunk add remove context : DiffLineKind

pub record ParsedDiffLine : Type 0 where
  pub kind : DiffLineKind
  pub text : Text
  pub old_line : Option ℕ
  pub new_line : Option ℕ

abbrev pub is_digit : ℕ → Bool
is_digit c = leb b'0' c && leb c b'9'

-- `\d+` at the head: the value of the digits read so far, and what follows. A number beyond 2^53,
-- which JavaScript rounds, is exact here.
abbrev pub digits_from : ℕ → Text → ℕ × Text
digits_from n [] = (n, [])
digits_from n (c ∷ s) =
    let more = digits_from (n * 10 + (c - b'0')) s in if is_digit c then more else (n, c ∷ s)

abbrev pub number_at : Text → Option (ℕ × Text)
number_at [] = none
number_at (c ∷ s) = if is_digit c then some (digits_from 0 (c ∷ s)) else none

-- What follows `prefix` at the head.
abbrev pub after_prefix : Text → Text → Option Text
after_prefix [] s = some s
after_prefix (p ∷ ps) [] = none
after_prefix (p ∷ ps) (c ∷ s) = if eqb p c then after_prefix ps s else none

infixl 5 ◌>>=◌
abbrev pub ◌>>=◌ {ℓ κ} : {A : Type ℓ} {B : Type κ} → Option A → (A → Option B) → Option B
none >>= k = none
some a >>= k = k a

-- `(?:,\d+)?`: a comma with no digit behind it is left.
abbrev pub skip_count : Text → Text
skip_count [] = []
skip_count (c ∷ s) =
    if eqb c b',' then elim (number_at s) [ none ↦ c ∷ s | some r ↦ r.1 ] else c ∷ s

-- `/^@@ -(\d+)(?:,\d+)? \+(\d+)(?:,\d+)? @@/`
unfoldable pub match_hunk : Text → Option (ℕ × ℕ)
match_hunk line = do
  s ← after_prefix (codes "@@ -") line
  old ← number_at s
  t ← after_prefix (codes " +") (skip_count old.1)
  new ← number_at t
  u ← after_prefix (codes " @@") (skip_count new.1)
  some (old.0, new.0)

-- `n || undefined`
abbrev pub or_undefined : ℕ → Option ℕ
or_undefined zero = none
or_undefined (suc n) = some (suc n)

-- `if (n) n += 1`
abbrev pub bump : ℕ → ℕ
bump zero = 0
bump (suc n) = suc n + 1

-- A raw line that is no hunk header, with the line numbers that follow it.
pub record Read : Type 0 where
  pub line : ParsedDiffLine
  pub old : ℕ
  pub new : ℕ

abbrev pub is_meta : Text → Bool
is_meta raw =
    starts_with raw (codes "diff --git")
    || starts_with raw (codes "index ")
    || starts_with raw (codes "--- ")
    || starts_with raw (codes "+++ ")

unfoldable pub read_line : ℕ → ℕ → Text → Read
read_line old new raw =
    if is_meta raw
    then record {
      line = record { kind = meta; text = raw; old_line = none; new_line = none };
      old = old;
      new = new;
    }
    else if starts_with raw (codes "+")
    then record {
      line = record { kind = add; text = drop 1 raw; old_line = none; new_line = some new };
      old = old;
      new = new + 1;
    }
    else if starts_with raw (codes "-")
    then record {
      line = record { kind = remove; text = drop 1 raw; old_line = some old; new_line = none };
      old = old + 1;
      new = new;
    }
    else record {
      line = record {
        kind = context;
        text = if starts_with raw (codes " ") then drop 1 raw else raw;
        old_line = or_undefined old;
        new_line = or_undefined new;
      };
      old = bump old;
      new = bump new;
    }

-- `parsed.length >= maxLines`, where `none` is no limit
abbrev pub is_full : Option ℕ → ℕ → Bool
is_full none n = false
is_full (some limit) n = leb limit n

abbrev pub truncation : Option ℕ → ParsedDiffLine
truncation none = record { kind = meta; text = []; old_line = none; new_line = none }
truncation (some limit) = record {
  kind = meta;
  text = codes "... diff truncated after " ++ (show limit ++ codes " rendered lines");
  old_line = none;
  new_line = none;
}

-- The loop over the raw lines, with the number of lines parsed so far.
unfoldable pub parse_lines : Option ℕ → ℕ → ℕ → ℕ → List Text → List ParsedDiffLine
unfolding read_line match_hunk
parse_lines limit n old new [] = []
parse_lines limit n old new (raw ∷ raws) = elim (is_full limit n) [
  | true ↦ truncation limit ∷ []
  | false ↦ elim (match_hunk raw) [
    | some h ↦
        record { kind = hunk; text = raw; old_line = none; new_line = none }
        ∷ parse_lines limit (n + 1) h.0 h.1 raws
    | none ↦
        (read_line old new raw).line
        ∷ parse_lines limit (n + 1) (read_line old new raw).old (read_line old new raw).new raws
  ]
]

abbrev pub is_context : DiffLineKind → Bool
is_context context = true
is_context _ = false

-- `line.text.length > 0 || line.kind === "context"`
abbrev pub is_kept : ParsedDiffLine → Bool
is_kept line = not (is_empty line.text) || is_context line.kind

unfoldable pub parse_unified_diff : Text → Option ℕ → List ParsedDiffLine
unfolding split_lines parse_lines show
parse_unified_diff content limit = filter is_kept (parse_lines limit 0 0 0 (split_lines content))

-- The counters of `buildDiffStat`.
pub record DiffCounts : Type 0 where
  pub additions : ℕ
  pub deletions : ℕ

-- Its loop over the lines.
unfoldable pub count_diff_lines : List Text → DiffCounts
count_diff_lines [] = record { additions = 0; deletions = 0 }
count_diff_lines (line ∷ lines) =
    let rest = count_diff_lines lines in
    if starts_with line (codes "+++") || starts_with line (codes "---")
    then rest
    else if starts_with line (codes "+")
    then record rest { additions = rest.additions + 1 }
    else if starts_with line (codes "-")
    then record rest { deletions = rest.deletions + 1 }
    else rest

pub record DiffStat : Type 0 where
  pub counts : DiffCounts
  pub metadata_only : Bool

-- `status === "available"`
abbrev pub is_available : DiffStatus → Bool
is_available available = true
is_available _ = false

unfoldable pub build_diff_stat : Option TextDiff → Option DiffStat
unfolding count_diff_lines split_lines
build_diff_stat none = none
build_diff_stat (some d) =
    let counts = count_diff_lines (split_lines d.content) in
    if is_available d.status
    then some (record {
      counts = counts;
      metadata_only = eqb counts.additions 0 && eqb counts.deletions 0;
    })
    else none
