-- ===== src/PathPolicy/Tests.antt =====
-- Runs of path-policy.ts, and its theorems at concrete paths.
use vivi.Base.{◌≡◌, refl, ◌↔◌, true, List, [], ◌∷◌, codes, ◌==◌, trim, is_space}
use vivi.PathPolicy.{
  ok, refused, normalize_relative_path, resolve, split_path, join_path, PatternSegment, globstar,
  glob, match_exclude_segments,
}
use vivi.PathPolicy.Inside.{IsInside, normalize_relative_path-IsInside}
use vivi.PathPolicy.Matching.{Matches, match_exclude_segments_iff}

runs : Unit {0}
unfolding normalize_relative_path resolve split_path join_path trim is_space ◌==◌
    match_exclude_segments
runs = tt

cleans : normalize_relative_path (codes " docs\\.//a/../b.md ") ≡ ok (codes "docs/b.md")
unfolding runs
cleans = refl

keeps_inside :
    normalize_relative_path (codes "docs/../../etc") ≡ refused (codes "path escapes root")
unfolding runs
keeps_inside = refl

-- A space before a name stays, so that a second pass gives another path.
keeps_space : normalize_relative_path (codes "./ a") ≡ ok (codes " a")
unfolding runs
keeps_space = refl

dotted : normalize_relative_path (codes "docs/./b.md") ≡ ok (codes "docs/b.md")
unfolding runs
dotted = refl

docs : IsInside (codes "docs/b.md")
docs = normalize_relative_path-IsInside (codes "docs/./b.md") (codes "docs/b.md") dotted

normalize_relative_path-IsInside_example : IsInside (codes "docs/b.md")
normalize_relative_path-IsInside_example =
    normalize_relative_path-IsInside (codes " docs\\.//a/../b.md ") (codes "docs/b.md") cleans

trimmed : trim (codes "docs/b.md") ≡ codes "docs/b.md"
unfolding runs
trimmed = refl

abbrev pattern_dist : List PatternSegment
pattern_dist = globstar ∷ glob (λ s. s == codes "dist") ∷ globstar ∷ []

match_exclude_segments_iff_example :
    (match_exclude_segments pattern_dist (codes "a" ∷ codes "dist" ∷ codes "b.js" ∷ []) ≡ true)
    ↔ Matches pattern_dist (codes "a" ∷ codes "dist" ∷ codes "b.js" ∷ [])
match_exclude_segments_iff_example =
    match_exclude_segments_iff pattern_dist (codes "a" ∷ codes "dist" ∷ codes "b.js" ∷ [])

matches_dist :
    match_exclude_segments pattern_dist (codes "a" ∷ codes "dist" ∷ codes "b.js" ∷ []) ≡ true
unfolding runs
matches_dist = refl
