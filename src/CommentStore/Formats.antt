-- ===== src/CommentStore/Formats.antt =====
-- A concrete way to write records on lines, in place of JSON: numbers in unary, with the letters a and b.
pub mod Records
use vivi.Base.{
  ℕ, zero, suc, ◌≡◌, refl, ◌∙◌, ap, Bool, true, false, ◌&&◌, ◌||◌, Option, none, some, List, [],
  ◌∷◌, arith, eqb, is_empty, all, length, trim, is_space, or_else, get_elem?, if◌then◌else◌,
}
use vivi.Base.Strings.{Text, trim_start, trim_end}
use vivi.Base.Lines.{IsLine}
use vivi.CommentFields.{Result, ok, err}
use vivi.CommentStore.Jsonl.{Codec, IsJson}

abbrev pub is_letter : ℕ → Bool
is_letter c = eqb c 97 || eqb c 98

abbrev pub IsPlain : Text → Type 0
IsPlain s = all is_letter s ≡ true

-- How a value is written before a rest, and read again.
pub record Format {ℓ} (A : Type ℓ) : Type ℓ where
  write : A → Text → Text
  read : Text → Option (A × Text)
  read-write : (a : A) (rest : Text) → read (write a rest) ≡ some (a, rest)
  write-IsPlain : (a : A) (rest : Text) → IsPlain rest → IsPlain (write a rest)

pub write_number : ℕ → Text → Text
write_number zero rest = 98 ∷ rest
write_number (suc n) rest = 97 ∷ write_number n rest

abbrev pub next_number : Option (ℕ × Text) → Option (ℕ × Text)
next_number none = none
next_number (some (n, rest)) = some (suc n, rest)

pub read_number : Text → Option (ℕ × Text)
read_number [] = none
read_number (c ∷ s) = let rest = read_number s in if eqb c 98 then some (0, s) else next_number rest

pub read_number-write_number :
    (n : ℕ) (rest : Text) → read_number (write_number n rest) ≡ some (n, rest)
unfolding read_number write_number
read_number-write_number zero rest = refl
read_number-write_number (suc n) rest = ap next_number (read_number-write_number n rest)

pub write_number-IsPlain : (n : ℕ) (rest : Text) → IsPlain rest → IsPlain (write_number n rest)
unfolding write_number
write_number-IsPlain zero rest h = h
write_number-IsPlain (suc n) rest h = write_number-IsPlain n rest h

abbrev pub numbers : Format ℕ
numbers = record {
  write = write_number;
  read = read_number;
  read-write = read_number-write_number;
  write-IsPlain = write_number-IsPlain;
}

module _ {ℓ κ} {A : Type ℓ} {B : Type κ} where
  -- The values of a type that are kept by passing through another one.
  abbrev pub through :
      (to : A → B) (from : B → A) → ((a : A) → from (to a) ≡ a) → Format B → Format A
  through to from law f = record {
    write = λ a rest. f.write (to a) rest;
    read = λ s. back (f.read s);
    read-write = λ a rest. ap back (f.read-write (to a) rest) ∙ ap (λ x. some (x, rest)) (law a);
    write-IsPlain = λ a rest h. f.write-IsPlain (to a) rest h;
  }
    where
      back : Option (B × Text) → Option (A × Text)
      back none = none
      back (some (b, rest)) = some (from b, rest)

  pub read_pair : Format A → Format B → Text → Option ((A × B) × Text)
  read_pair f g s = elim (f.read s) [
    | none ↦ none
    | some (a, rest) ↦ (elim (g.read rest) [ none ↦ none | some (b, end) ↦ some ((a, b), end) ])
  ]

  pub read_pair-write :
      (f : Format A) (g : Format B) (a : A) (b : B) (rest : Text)
      → read_pair f g (f.write a (g.write b rest)) ≡ some ((a, b), rest)
  unfolding read_pair
  read_pair-write f g a b rest =
      rw (read_pair, f.read-write a (g.write b rest), g.read-write b rest)

  infixr 4 ◌**◌
  abbrev pub ◌**◌ : Format A → Format B → Format (A × B)
  f ** g = record {
    write = λ p rest. f.write p.0 (g.write p.1 rest);
    read = read_pair f g;
    read-write = λ p rest. read_pair-write f g p.0 p.1 rest;
    write-IsPlain = λ p rest h. f.write-IsPlain p.0 (g.write p.1 rest) (g.write-IsPlain p.1 rest h);
  }

module _ {ℓ} {A : Type ℓ} where
  pub write_each : Format A → List A → Text → Text
  write_each f [] rest = rest
  write_each f (x ∷ xs) rest = f.write x (write_each f xs rest)

  abbrev with_first : A → Option (List A × Text) → Option (List A × Text)
  with_first x none = none
  with_first x (some (xs, rest)) = some (x ∷ xs, rest)

  read_each : Format A → ℕ → Text → Option (List A × Text)
  read_each f zero s = some ([], s)
  read_each f (suc n) s = elim (f.read s) [
    | none ↦ none
    | some (x, rest) ↦ with_first x (read_each f n rest)
  ]

  read_each-write_each :
      (f : Format A) (xs : List A) (rest : Text)
      → read_each f (length xs) (write_each f xs rest) ≡ some (xs, rest)
  unfolding read_each write_each
  read_each-write_each f [] rest = refl
  read_each-write_each f (x ∷ xs) rest =
      rw (f.read-write x (write_each f xs rest), read_each-write_each f xs rest)

  pub write_each-IsPlain :
      (f : Format A) (xs : List A) (rest : Text) → IsPlain rest → IsPlain (write_each f xs rest)
  unfolding write_each
  write_each-IsPlain f [] rest h = h
  write_each-IsPlain f (x ∷ xs) rest h =
      f.write-IsPlain x (write_each f xs rest) (write_each-IsPlain f xs rest h)

  pub read_list : Format A → Text → Option (List A × Text)
  read_list f s = elim (read_number s) [ none ↦ none | some (n, rest) ↦ read_each f n rest ]

  pub read_list-write :
      (f : Format A) (xs : List A) (rest : Text)
      → read_list f (write_number (length xs) (write_each f xs rest)) ≡ some (xs, rest)
  unfolding read_list
  read_list-write f xs rest = rw (
    read_list,
    read_number-write_number (length xs) (write_each f xs rest),
    read_each-write_each f xs rest,
  )

  -- A list is its length and its entries.
  abbrev pub lists : Format A → Format (List A)
  lists f = record {
    write = λ xs rest. write_number (length xs) (write_each f xs rest);
    read = read_list f;
    read-write = read_list-write f;
    write-IsPlain = λ xs rest h.
        write_number-IsPlain (length xs) (write_each f xs rest) (write_each-IsPlain f xs rest h);
  }

  -- An optional value is a list of at most one entry.
  abbrev pub options : Format A → Format (Option A)
  options f = through to from law (lists f)
    where
      to : Option A → List A
      to none = []
      to (some a) = a ∷ []

      from : List A → Option A
      from [] = none
      from (a ∷ xs) = some a

      law : (o : Option A) → from (to o) ≡ o
      law none = refl
      law (some a) = refl

  -- A type of a few values, by their numbers in a list of them.
  abbrev pub enums :
      (default : A) (values : List A) (to : A → ℕ)
      → ((a : A) → or_else (get_elem? values (to a)) default ≡ a)
      → Format A
  enums default values to law = through to (λ n. or_else (get_elem? values n) default) law numbers

  abbrev pub codec_of : Format A → Codec A
  codec_of f = record { stringify = λ a. 97 ∷ f.write a (98 ∷ []); parse = parse }
    where
      read_value : Option (A × Text) → Result A
      read_value none = err []
      read_value (some (a, rest)) = ok a

      parse : Text → Result A
      parse [] = err []
      parse (c ∷ s) = read_value (f.read s)

abbrev pub texts : Format Text
texts = lists numbers

IsPlain-tail : (c : ℕ) (s : Text) → IsPlain (c ∷ s) → IsPlain s
IsPlain-tail c s h = ground arith

letter_line : (s : Text) → IsPlain s → IsLine s
letter_line [] h = tt
letter_line (c ∷ []) h = (ground arith, ground arith)
letter_line (c ∷ d ∷ s) h = (ground arith, letter_line (d ∷ s) (IsPlain-tail c (d ∷ s) h))

letter_space : (c : ℕ) → is_letter c ≡ true → is_space c ≡ false
unfolding is_space
letter_space c h = ground arith

plain_head : (c : ℕ) (s : Text) → IsPlain (c ∷ s) → is_letter c ≡ true
plain_head c s h = ground arith

letter_trim_end : (s : Text) → IsPlain s → trim_end s ≡ s
letter_trim_end [] h = refl
letter_trim_end (c ∷ s) h =
    rw (letter_space c (plain_head c s h), letter_trim_end s (IsPlain-tail c s h)) refl

letter_trim : (s : Text) → IsPlain s → trim s ≡ s
unfolding trim
letter_trim [] h = refl
letter_trim (c ∷ s) h = rw (letter_space c (plain_head c s h)) (letter_trim_end (c ∷ s) h)

-- Every format keeps the promises of JSON.
pub codec_of-IsJson {ℓ} : {A : Type ℓ} (f : Format A) → IsJson (codec_of f)
codec_of-IsJson f = record {
  is_line = λ a. letter_line (97 ∷ f.write a (98 ∷ [])) (f.write-IsPlain a (98 ∷ []) refl);
  is_trimmed = λ a. letter_trim (97 ∷ f.write a (98 ∷ [])) (f.write-IsPlain a (98 ∷ []) refl);
  is_full = λ a. refl;
  parse-stringify = λ a. rw (f.read-write a (98 ∷ []));
}
