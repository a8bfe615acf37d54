-- ===== src/ReviewLedger/Tests.antt =====
-- Examples for the ledger of reviews.
use vivi.Base.{◌≡◌, refl, true, some, [], ◌∷◌, codes, ◌==◌}
use vivi.Base.Strings.{Text}
use vivi.Base.Integers.{pos}
use vivi.Base.Json.{Json, string, object, Fields, end, field, get}
use vivi.Base.Dict.{put}
use vivi.ReviewLedger.{ReviewLedgerSnapshot, is_decision, text_at, row_text, compact_snapshot}

-- What the examples compute.
runs : Unit {0}
unfolding ◌==◌ get put text_at row_text is_decision compact_snapshot
runs = tt

abbrev text_field : Text → Text → Fields → Fields
text_field name value rest = field name (string value) rest

abbrev decision_at : Text → Json
decision_at time = object (
    text_field (codes "path") (codes "a.md") (
      text_field (codes "fingerprint") (codes "f") (
        text_field (codes "createdAt") time
          (text_field (codes "reason") (codes "accepted_change") end))))

abbrev twice : ReviewLedgerSnapshot
twice = record {
  decisions = decision_at (codes "1") ∷ string (codes "?") ∷ decision_at (codes "2") ∷ [];
  receipts = [];
}

valid : is_decision (decision_at (codes "1")) ≡ true
unfolding runs
valid = refl

-- The later of two decisions on one path and fingerprint is kept.
keeps_later :
    compact_snapshot (λ s. some (pos 0)) twice 5
    ≡ record { decisions = decision_at (codes "2") ∷ []; receipts = [] }
unfolding runs
keeps_later = refl
