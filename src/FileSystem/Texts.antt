-- ===== src/FileSystem/Texts.antt =====
-- server/typescript/infrastructure/node-file-system.ts: the text that bytes, or the first of them, hold.
use vivi.Base.{
  ℕ, zero, suc, ◌≤◌, ◌<◌, ◌≡◌, refl, ◌⊎◌, inl, inr, Bool, true, false, Option, none, some, List,
  length, take, leb, leb→le, leb-false, arith, Bool-cases, if◌then◌else◌,
}
use mathlib.Core.Path.{subst}
use vivi.Base.Strings.{Text}
use vivi.PathPolicy.{has_nul}
use vivi.FileSystem.Reading.{
  FileCodecs, without_bom, has_many_controls, decoded, decode_prefix, few_controls, safe_utf8_text,
}

pub if-cases {ℓ κ} :
    {A : Type ℓ} (P : A → Type κ) (b : Bool) (x y : A)
    → (b ≡ true → P x)
    → (b ≡ false → P y)
    → P (if b then x else y)
if-cases P true x y h k = h refl
if-cases P false x y h k = k refl

module _ (c : FileCodecs) where
  -- The text of the first `n` bytes after a byte order mark, and of no more bytes there is one.
  pub record IsLongest (bytes : List ℕ) (text : Text) (n : ℕ) : Type 0 where
    pub decodes : decoded c (without_bom bytes) n ≡ some text
    pub bounded : n ≤ length (without_bom bytes)
    pub longest :
        (m : ℕ) → n < m → m ≤ length (without_bom bytes) → decoded c (without_bom bytes) m ≡ none

  -- Such a text of bytes without NUL that has few control characters.
  pub record IsTextOf (bytes : List ℕ) (text : Text) (n : ℕ) : Type 0 where
    pub prefix : IsLongest bytes text n
    pub no_nul : has_nul (without_bom bytes) ≡ false
    pub few : has_many_controls text ≡ false

  -- Why bytes are no text: a NUL, bytes that are not UTF-8 - where they have to be so as a whole -, or many control characters.
  abbrev pub NoText : Bool → List ℕ → Type 0
  NoText cut_off bytes =
      (has_nul (without_bom bytes) ≡ true)
      ⊎ ((cut_off ≡ false) × (decoded c (without_bom bytes) (length (without_bom bytes)) ≡ none))
      ⊎ ((text : Text) × ((n : ℕ) × IsLongest bytes text n × (has_many_controls text ≡ true)))

  -- What the loop from the length `n` ends with.
  abbrev Ends : Bool → List ℕ → ℕ → Option (Text × ℕ) → Type 0
  Ends allow content n none = (allow ≡ false) × (decoded c content n ≡ none)
  Ends allow content n (some (text, k)) =
      (decoded c content k ≡ some text)
      × (k ≤ n)
      × (allow ≡ false → k ≡ n)
      × ((m : ℕ) → k < m → m ≤ n → decoded c content m ≡ none)

  Ends-suc :
      (content : List ℕ) (n : ℕ) (r : Option (Text × ℕ))
      → decoded c content (suc n) ≡ none
      → Ends true content n r
      → Ends true content (suc n) r
  Ends-suc content n none e h = cc
  Ends-suc content n (some (text, k)) e h = (
    h.0,
    omega (arith, h.1),
    (λ f. cc),
    λ m a b. elim (Bool-cases (leb m n)) [
      | inl l ↦ h.3 m a (leb→le m n l)
      | inr l ↦
          let above = leb-false m n l in
          let same : suc n ≡ m = omega (arith, b, above) in
          subst (λ x. decoded c content x ≡ none) same e
    ],
  )

  decode_prefix-Ends :
      (allow : Bool) (content : List ℕ) (n : ℕ)
      → Ends allow content n (decode_prefix c allow content n)
  decode_prefix-Ends allow content zero =
      (refl, omega arith, (λ _. refl), λ m a b. absurd (omega (arith, a, b)))
  decode_prefix-Ends true content (suc n) =
      by_text (c.decode (take (suc n) content)) refl (decode_prefix-Ends true content n)
    where
      by_text :
          (text : Option Text)
          → c.decode (take (suc n) content) ≡ text
          → Ends true content n (decode_prefix c true content n)
          → Ends true content (suc n) (decode_prefix c true content (suc n))
      by_text (some text) e ih =
          rw (decode_prefix, e) (e, omega arith, (λ _. refl), λ m a b. absurd (omega (arith, a, b)))
      by_text none e ih =
          rw (decode_prefix, e) (Ends-suc content n (decode_prefix c true content n) e ih)
  decode_prefix-Ends false content (suc n) = by_text (c.decode (take (suc n) content)) refl
    where
      by_text :
          (text : Option Text)
          → c.decode (take (suc n) content) ≡ text
          → Ends false content (suc n) (decode_prefix c false content (suc n))
      by_text (some text) e =
          rw (decode_prefix, e) (e, omega arith, (λ _. refl), λ m a b. absurd (omega (arith, a, b)))
      by_text none e = rw (decode_prefix, e) (refl, e)

  -- What a text that is found is, and why there is none.
  abbrev pub IsSafe : Bool → List ℕ → Option (Text × ℕ) → Type 0
  IsSafe allow bytes none = NoText allow bytes
  IsSafe allow bytes (some (text, n)) =
      IsTextOf bytes text n × (allow ≡ false → n ≡ length (without_bom bytes))

  pub safe_utf8_text-IsSafe :
      (allow : Bool) (bytes : List ℕ) → IsSafe allow bytes (safe_utf8_text c allow bytes)
  unfolding safe_utf8_text
  safe_utf8_text-IsSafe allow bytes = elim (Bool-cases (has_nul (without_bom bytes))) [
    | inl e ↦ rw e (inl e)
    | inr e ↦ rw e (
        by_ending e (decode_prefix c allow (without_bom bytes) (length (without_bom bytes)))
          (decode_prefix-Ends allow (without_bom bytes) (length (without_bom bytes))))
  ]
    where
      by_ending :
          has_nul (without_bom bytes) ≡ false
          → (r : Option (Text × ℕ)) → Ends allow (without_bom bytes) (length (without_bom bytes)) r
          → IsSafe allow bytes (few_controls r)
      by_ending e none h = inr (inl h)
      by_ending e (some (text, n)) h =
          let prefix : IsLongest bytes text n = record {
            decodes = h.0;
            bounded = h.1;
            longest = h.3;
          } in
          elim (Bool-cases (has_many_controls text)) [
            | inl k ↦ rw k (inr (inr (text, (n, prefix, k))))
            | inr k ↦ rw k (record { prefix = prefix; no_nul = e; few = k }, h.2)
          ]
