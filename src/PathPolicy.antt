-- ===== src/PathPolicy.antt =====
-- server/typescript/domain/path-policy.ts: paths of requests, and which files are left out. The
-- regular expression of a glob segment is a test on segments.
pub mod Split
pub mod Inside
pub mod Matching
mod Tests
use vivi.Base.{
  ℕ, Bool, true, false, ◌&&◌, ◌||◌, Option, none, some, List, [], ◌∷◌, ◌++◌, map, codes, ◌==◌, trim,
  starts_with, is_empty, contains, eqb, any, if◌then◌else◌,
}
use vivi.Base.Strings.{Text}

pub data PathValidationResult : Type 0 where
  ok : Text → PathValidationResult
  refused : Text → PathValidationResult

-- `replace(/\\/g, "/")`
abbrev pub to_slash : ℕ → ℕ
to_slash c = if eqb c 92 then 47 else c

-- `raw.includes("\0")`
abbrev pub has_nul : Text → Bool
has_nul [] = false
has_nul (c ∷ s) = eqb c 0 || has_nul s

abbrev pub push_unit : ℕ → List Text → List Text
push_unit c [] = (c ∷ []) ∷ []
push_unit c (l ∷ ls) = (c ∷ l) ∷ ls

-- `raw.split("/")`
unfoldable pub split_path : Text → List Text
split_path [] = [] ∷ []
split_path (c ∷ s) = let rest = split_path s in if eqb c 47 then [] ∷ rest else push_unit c rest

-- `segments.join("/")`
unfoldable pub join_path : List Text → Text
join_path [] = []
join_path (s ∷ []) = s
join_path (s ∷ t ∷ ts) = s ++ 47 ∷ join_path (t ∷ ts)

-- `segments.pop()`
abbrev pub without_last : List Text → List Text
without_last [] = []
without_last (s ∷ []) = []
without_last (s ∷ t ∷ ts) = s ∷ without_last (t ∷ ts)

-- The loop over the segments, with those kept so far; `none` when the path escapes the root.
unfoldable pub resolve : List Text → List Text → Option (List Text)
resolve segments [] = some segments
resolve segments (s ∷ ss) =
    let same = resolve segments ss in
    let popped = resolve (without_last segments) ss in
    let pushed = resolve (segments ++ s ∷ []) ss in
    if is_empty s || (s == codes ".")
    then same
    else if s == codes ".."
    then elim segments [ [] ↦ none | _ ∷ _ ↦ popped ]
    else pushed

abbrev pub resolved : Option (List Text) → PathValidationResult
resolved none = refused (codes "path escapes root")
resolved (some segments) = ok (join_path segments)

unfoldable pub normalize_relative_path : Text → PathValidationResult
unfolding resolve split_path
normalize_relative_path input =
    let raw = map to_slash (trim input) in
    if has_nul raw
    then refused (codes "path contains invalid characters")
    else if is_empty raw || (raw == codes ".")
    then ok []
    else if starts_with raw (codes "/")
    then refused (codes "absolute paths are not allowed")
    else resolved (resolve [] (split_path raw))

unfoldable pub is_ignored_path : List Text → Text → Bool
unfolding split_path
is_ignored_path ignored_names path = any (contains ignored_names) (split_path path)

-- A segment of a compiled exclude pattern: `"**"`, or the test of a regular expression.
pub data PatternSegment : Type 0 where
  globstar : PatternSegment
  glob : (Text → Bool) → PatternSegment

unfoldable pub match_exclude_segments : List PatternSegment → List Text → Bool
match_exclude_segments [] [] = true
match_exclude_segments [] (t ∷ ts) = false
match_exclude_segments (globstar ∷ rest) [] = match_exclude_segments rest []
match_exclude_segments (globstar ∷ rest) (t ∷ ts) =
    match_exclude_segments rest (t ∷ ts) || match_exclude_segments (globstar ∷ rest) ts
match_exclude_segments (glob test ∷ rest) [] = false
match_exclude_segments (glob test ∷ rest) (t ∷ ts) = test t && match_exclude_segments rest ts

abbrev pub excluded_path : List (List PatternSegment) → PathValidationResult → Bool
excluded_path patterns (refused reason) = false
excluded_path patterns (ok []) = false
excluded_path patterns (ok (c ∷ s)) =
    any (λ pattern. match_exclude_segments pattern (split_path (c ∷ s))) patterns

-- The function that `createPathExcluder` returns, for its compiled patterns.
unfoldable pub is_excluded : List (List PatternSegment) → Text → Bool
unfolding normalize_relative_path match_exclude_segments
is_excluded patterns path = excluded_path patterns (normalize_relative_path path)
