-- ===== src/CommentStore/Jsonl.antt =====
-- server/typescript/infrastructure/node-comment-store.ts: a file with one JSON record on each line. A file that is not
-- there is `none`. `JSON.stringify` and `JSON.parse` are parameters; what `JSON.parse` throws is its error.
use vivi.Base.{
  ◌≡◌, refl, ap, ◌∙◌, false, not, Option, none, some, List, [], ◌∷◌, ◌++◌, map, filter, is_empty,
  trim, if◌then◌else◌,
}
use mathlib.Core.List.{append_assoc}
use vivi.Base.Strings.{Text}
use vivi.Base.Lists.{All}
use vivi.Base.Lines.{split_lines, join_lines, lf, IsLine, split-join}
use vivi.CommentFields.{Result, ok, err, ◌>>=◌}

pub record Codec {ℓ} (A : Type ℓ) : Type ℓ where
  pub stringify : A → Text
  pub parse : Text → Result A

-- What JSON promises of records: the text is one line without white space at its ends, and is parsed back.
pub record IsJson {ℓ} {A : Type ℓ} (c : Codec A) : Type ℓ where
  pub is_line : (a : A) → IsLine (c.stringify a)
  pub is_trimmed : (a : A) → trim (c.stringify a) ≡ c.stringify a
  pub is_full : (a : A) → is_empty (c.stringify a) ≡ false
  pub parse-stringify : (a : A) → c.parse (c.stringify a) ≡ ok a

module _ {ℓ} {A : Type ℓ} (c : Codec A) (fix : A → A) where
  abbrev pub parse_all : List Text → Result (List A)
  unfolding ◌>>=◌
  parse_all [] = ok []
  parse_all (l ∷ ls) = do x ← c.parse l; xs ← parse_all ls; ok (x ∷ xs)

  -- The lines of a text that are not blank, each trimmed.
  abbrev pub full_lines : Text → List Text
  full_lines text = filter (λ l. not (is_empty l)) (map trim (split_lines text))

  -- `readAll`, `readDrafts` and `readThreadEvents`, where `fix` fills in what a record lacks.
  unfoldable pub read : Option Text → Result (List A)
  unfolding ◌>>=◌
  read none = ok []
  read (some text) = do xs ← parse_all (full_lines text); ok (map fix xs)

  -- The text that `writeAll` and `writeDrafts` write.
  unfoldable pub write : List A → Text
  write xs =
      let body = join_lines (map c.stringify xs) in if is_empty body then [] else body ++ lf ∷ []

  -- A job of the write queue: it reads the file, changes the list and writes it, or throws before it writes.
  unfoldable pub rewrite : (List A → Result (List A)) → Option Text → Result (Option Text)
  unfolding ◌>>=◌
  rewrite f file = do xs ← read file; ys ← f xs; ok (some (write ys))

  module _ (h : IsJson c) where
    parse_all-stringify : (xs : List A) → parse_all (map c.stringify xs) ≡ ok xs
    unfolding parse_all
    parse_all-stringify [] = refl
    parse_all-stringify (x ∷ xs) = unfold ◌>>=◌ in rw (h.parse-stringify x, parse_all-stringify xs)

    kept :
        (xs : List A)
        → filter (λ l. not (is_empty l)) (map trim (map c.stringify xs ++ [] ∷ []))
          ≡ map c.stringify xs
    unfolding trim
    kept [] = refl
    kept (x ∷ xs) = rw (h.is_trimmed x, h.is_full x, kept xs)

    lines : (xs : List A) → All IsLine (map c.stringify xs ++ [] ∷ [])
    lines [] = (tt, tt)
    lines (x ∷ xs) = (h.is_line x, lines xs)

    -- The text of some records, and the line break at its end.
    join-last :
        (l : Text) (ls : List Text)
        → join_lines (l ∷ ls) ++ lf ∷ [] ≡ join_lines (l ∷ (ls ++ [] ∷ []))
    unfolding join_lines
    join-last l [] = refl
    join-last l (m ∷ ls) =
        append_assoc l (lf ∷ join_lines (m ∷ ls)) (lf ∷ [])
        ∙ ap (λ t. l ++ (lf ∷ t)) (join-last m ls)

    full-join_lines :
        (l : Text) (ls : List Text) → is_empty l ≡ false → is_empty (join_lines (l ∷ ls)) ≡ false
    unfolding join_lines
    full-join_lines l [] e = e
    full-join_lines [] (m ∷ ls) e = cc
    full-join_lines (u ∷ l) (m ∷ ls) e = refl

    full_lines-write : (xs : List A) → full_lines (write xs) ≡ map c.stringify xs
    unfolding write
    full_lines-write [] = unfold split_lines trim join_lines in refl
    full_lines-write (x ∷ xs) =
        rw (full-join_lines (c.stringify x) (map c.stringify xs) (h.is_full x)) (
          rw (join-last (c.stringify x) (map c.stringify xs)) (
            ap (λ ls. filter (λ l. not (is_empty l)) (map trim ls))
              (split-join (c.stringify x) (map c.stringify xs ++ [] ∷ []) (lines (x ∷ xs)))
            ∙ kept (x ∷ xs)))

    -- A list that is written is read back, with what its records lack filled in.
    pub read-write : (xs : List A) → read (some (write xs)) ≡ ok (map fix xs)
    unfolding read ◌>>=◌
    read-write xs = rw (full_lines-write xs, parse_all-stringify xs)

    module _ (f : List A → Result (List A)) (file : Option Text) (xs ys : List A)
        (held : read file ≡ ok xs) where
      -- A job that succeeds on records that lack nothing leaves a file that is read as the changed list.
      pub rewrite-ok : f xs ≡ ok ys → rewrite f file ≡ ok (some (write ys))
      unfolding rewrite ◌>>=◌
      rewrite-ok e = rw (held, e)

      pub rewrite-err : {message : Text} → f xs ≡ err message → rewrite f file ≡ err message
      unfolding rewrite ◌>>=◌
      rewrite-err e = rw (held, e)

    pub read-write_fixed : (xs : List A) → All (λ x. fix x ≡ x) xs → read (some (write xs)) ≡ ok xs
    read-write_fixed xs fixed = read-write xs ∙ ap ok (map-fixed xs fixed)
      where
        map-fixed : (xs : List A) → All (λ x. fix x ≡ x) xs → map fix xs ≡ xs
        map-fixed [] h = refl
        map-fixed (x ∷ xs) h = rw (h.0, map-fixed xs h.1)
