-- ===== src/ReviewLedger/Compaction.antt =====
-- server/typescript/infrastructure/node-review-ledger-store.ts: what compacting the ledger keeps.
use vivi.Base.{
  ℕ, suc, ◌+◌, ◌≤◌, ◌≡◌, Bool, true, false, ◌&&◌, Option, none, some, List, [], ◌∷◌, ◌==◌,
  or_option, find?, count, leb, codes, if◌then◌else◌,
}
use vivi.Base.Strings.{Text}
use vivi.Base.Integers.{ℤ, pos, negsuc}
use vivi.Base.Dict.{Dict}
use vivi.Base.Json.{Json}
use vivi.ReviewLedger.{row_text}

-- The last row that passes a test.
abbrev pub last_with : (Json → Bool) → List Json → Option Json
last_with p [] = none
last_with p (row ∷ rows) = or_option (last_with p rows) (if p row then some row else none)

module _ (key : Json → Text) (keeps : Json → Bool) where
  -- The key is not among the keys.
  abbrev IsNew : Text → Dict Json → Type 0
  IsNew k [] = Unit
  IsNew k ((j, v) ∷ d) = ((j == k) ≡ false) × IsNew k d

  -- Every row is one that is kept, under its key, and no key is there twice.
  abbrev IsKeyed : Dict Json → Type 0
  IsKeyed [] = Unit
  IsKeyed ((k, v) ∷ d) = (key v ≡ k) × (keeps v ≡ true) × IsNew k d × IsKeyed d

-- What is left of some rows: of those with one key the last one that is valid, and it once.
abbrev pub IsCompacted : (Json → Text) → (Json → Bool) → List Json → List Json → Type 0
IsCompacted key valid rows left =
    (k : Text)
    → (find? (λ r. key r == k) left ≡ last_with (λ r. valid r && (key r == k)) rows)
      × (count (λ r. key r == k) left ≤ 1)

-- A receipt is kept for a day after the time until which it is visible, and for good if that is no time.
abbrev pub is_current : ℕ → Option ℤ → Bool
is_current now none = true
is_current now (some (pos t)) = leb now (t + 86400000)
is_current now (some (negsuc n)) = leb (now + suc n) 86400000

abbrev pub receipt_id : Json → Text
receipt_id row = row_text row (codes "id")
