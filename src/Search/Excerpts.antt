-- ===== src/Search/Excerpts.antt =====
-- server/typescript/domain/search.ts: the excerpt of a long line shows the match.
use vivi.Base.{
  ℕ, zero, suc, ◌+◌, ◌-◌, ◌≤◌, min, ◌≡◌, refl, sym, ap, ◌∙◌, List, [], ◌∷◌, ◌++◌, arith, length,
  take, drop, leb, ltb, Bool-cases, inl, inr,
}
use vivi.Base.Strings.{Text}
use vivi.Base.Laws.{length-append}
use vivi.Base.Integers.{pos, sub_ℕ}
use vivi.Search.{Excerpt, excerpt_line, excerpt_from, excerpt_start, max_length, dots_if}

-- The text of an excerpt where its match is said to be.
abbrev pub Shows : Text → ℕ → ℕ → Excerpt → Type 0
Shows line match_start match_length e =
    (k : ℕ) × (e.shown_start ≡ pos k)
    × (k + match_length ≤ length e.shown)
    × (take match_length (drop k e.shown) ≡ take match_length (drop match_start line))

module _ {ℓ} {A : Type ℓ} where
  drop-append : (xs ys : List A) (k : ℕ) → drop (length xs + k) (xs ++ ys) ≡ drop k ys
  drop-append [] ys k = ap (λ n. drop n ys) (omega arith)
  drop-append (x ∷ xs) ys k =
      ap (λ n. drop n (x ∷ (xs ++ ys))) (shift (length xs) k) ∙ drop-append xs ys k
    where
      shift : (n k : ℕ) → suc n + k ≡ suc (n + k)
      shift n k = omega arith

  -- A part of a part that lies within it.
  take-drop-take :
      (n k m : ℕ) (xs ys : List A)
      → k + m ≤ n
      → n ≤ length xs
      → take m (drop k (take n xs ++ ys)) ≡ take m (drop k xs)
  take-drop-take n k zero xs ys h l = refl
  take-drop-take zero k (suc m) xs ys h l = absurd (omega (arith, h))
  take-drop-take (suc n) k (suc m) [] ys h l = absurd (omega (arith, l))
  take-drop-take (suc n) zero (suc m) (x ∷ xs) ys h l =
      ap (x ∷◌) (take-drop-take n zero m xs ys (omega arith) (omega arith))
  take-drop-take (suc n) (suc k) (suc m) (x ∷ xs) ys h l =
      take-drop-take n k (suc m) xs ys (omega arith) (omega arith)

  drop_nil : (n : ℕ) → drop {A = A} n [] ≡ []
  drop_nil zero = refl
  drop_nil (suc n) = refl

  drop-drop : (n k : ℕ) (xs : List A) → drop k (drop n xs) ≡ drop (n + k) xs
  drop-drop zero k xs = ap (λ j. drop j xs) (omega arith)
  drop-drop (suc n) k [] = drop_nil k ∙ sym (drop_nil (suc n + k))
  drop-drop (suc n) k (x ∷ xs) = drop-drop n k xs ∙ ap (λ j. drop j (x ∷ xs)) (shift n k)
    where
      shift : (n k : ℕ) → suc (n + k) ≡ suc n + k
      shift n k = omega arith

  length-drop : (n : ℕ) (xs : List A) → length (drop n xs) ≡ length xs - n
  length-drop zero xs = omega arith
  length-drop (suc n) [] = omega arith
  length-drop (suc n) (x ∷ xs) = omega (arith, length-drop n xs)

  length-take : (n : ℕ) (xs : List A) → length (take n xs) ≡ min n (length xs)
  length-take zero xs = omega arith
  length-take (suc n) [] = omega arith
  length-take (suc n) (x ∷ xs) = omega (arith, length-take n xs)

-- The excerpt starts at the match or before it, and ends at the match or behind it.
excerpt_start-le : (len at m : ℕ) → m ≤ max_length → excerpt_start len at m ≤ at
excerpt_start-le len at m h = ground arith

excerpt_end-le :
    (len at m : ℕ)
    → m ≤ max_length
    → at + m ≤ len
    → at + m ≤ min len (excerpt_start len at m + max_length)
excerpt_end-le len at m h k = ground arith

excerpt_from-Shows :
    (line : Text) (at m start : ℕ)
    → start ≤ at
    → at + m ≤ min (length line) (start + max_length)
    → Shows line at m (excerpt_from line at start)
excerpt_from-Shows line at m start h k = (
  length dots + (at - start),
  placed (length dots),
  within,
  ap (take m) (drop-append dots (part ++ dots_if (ltb stop (length line))) (at - start))
      ∙ take-drop-take (stop - start) (at - start) m (drop start line)
          (dots_if (ltb stop (length line))) (omega (arith, h, k))
          (omega (arith, length-drop start line))
      ∙ ap (take m) (drop-drop start (at - start) line ∙ ap (λ n. drop n line) back),
)
  where
    dots : Text
    dots = dots_if (ltb 0 start)

    stop : ℕ
    stop = min (length line) (start + max_length)

    part : Text
    part = take (stop - start) (drop start line)

    placed : (d : ℕ) → sub_ℕ (at + d) start ≡ pos (d + (at - start))
    placed d = ground arith

    back : start + (at - start) ≡ at
    back = omega (arith, h)

    within :
        length dots + (at - start) + m ≤ length (dots ++ (part ++ dots_if (ltb stop (length line))))
    within = omega (
      arith,
      h,
      k,
      length-append dots (part ++ dots_if (ltb stop (length line))),
      length-append part (dots_if (ltb stop (length line))),
      length-take (stop - start) (drop start line),
      length-drop start line,
    )

-- A match that lies in a line and is at most 220 units long lies in the line's excerpt, where the result says that it is,
-- with the text that it has in the line.
pub excerpt_line-Shows :
    (line : Text) (match_start match_length : ℕ)
    → match_start + match_length ≤ length line
    → match_length ≤ max_length
    → Shows line match_start match_length (excerpt_line line match_start match_length)
unfolding excerpt_line
excerpt_line-Shows line at m h k = elim (Bool-cases (leb (length line) max_length)) [
  | inl e ↦ rw e (at, refl, h, refl)
  | inr e ↦ rw e (
      excerpt_from-Shows line at m (excerpt_start (length line) at m)
        (excerpt_start-le (length line) at m k) (excerpt_end-le (length line) at m k h))
]
