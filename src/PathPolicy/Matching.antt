-- ===== src/PathPolicy/Matching.antt =====
-- What an exclude pattern matches.
use vivi.Base.{◌≡◌, refl, ◌↔◌, Bool, true, List, [], ◌∷◌, arith, inl, inr, Bool-cases, Text}
use vivi.PathPolicy.{PatternSegment, globstar, glob, match_exclude_segments}

-- A globstar stands for any number of segments, and a glob for one that it accepts.
pub data Matches : List PatternSegment → List Text → Type 0 where
  done : Matches [] []
  one :
      {g : Text → Bool} {rest : List PatternSegment} {t : Text} {ts : List Text}
      → g t ≡ true
      → Matches rest ts
      → Matches (glob g ∷ rest) (t ∷ ts)
  stop :
      {rest : List PatternSegment} {ts : List Text} → Matches rest ts → Matches (globstar ∷ rest) ts
  skip :
      {rest : List PatternSegment} {t : Text} {ts : List Text}
      → Matches (globstar ∷ rest) ts
      → Matches (globstar ∷ rest) (t ∷ ts)

sound : (p : List PatternSegment) (t : List Text) → match_exclude_segments p t ≡ true → Matches p t
unfolding match_exclude_segments
sound [] [] h = done
sound [] (t ∷ ts) h = cc
sound (globstar ∷ rest) [] h = stop (sound rest [] h)
sound (globstar ∷ rest) (t ∷ ts) h = elim (Bool-cases (match_exclude_segments rest (t ∷ ts))) [
  | inl now ↦ stop (sound rest (t ∷ ts) now)
  | inr later ↦ skip (sound (globstar ∷ rest) ts (ground arith))
]
sound (glob g ∷ rest) [] h = cc
sound (glob g ∷ rest) (t ∷ ts) h = one (ground arith) (sound rest ts (ground arith))

complete :
    (p : List PatternSegment) (t : List Text) → Matches p t → match_exclude_segments p t ≡ true
unfolding match_exclude_segments
complete _ _ done = refl
complete _ _ (one h m) = ground (arith, complete _ _ m)
complete _ [] (stop m) = complete _ _ m
complete _ (t ∷ ts) (stop m) = ground (arith, complete _ _ m)
complete _ _ (skip m) = ground (arith, complete _ _ m)

-- The test of an exclude pattern is true exactly of the paths whose segments match it.
pub match_exclude_segments_iff :
    (p : List PatternSegment) (t : List Text) → (match_exclude_segments p t ≡ true) ↔ Matches p t
match_exclude_segments_iff p t = (sound p t, complete p t)
