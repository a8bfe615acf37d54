-- ===== src/ReviewLedger.antt =====
-- server/typescript/infrastructure/node-review-ledger-store.ts: the ledger of what has been reviewed. A row is a JSON value;
-- JSON.parse, JSON.stringify and Date.parse are parameters, and a file that is not there is `none`.
pub mod Compaction
mod Tests
use vivi.Base.{
  ℕ, suc, ◌+◌, ◌*◌, Bool, true, false, not, ◌&&◌, Option, none, some, List, [], ◌∷◌, ◌++◌, map,
  codes, ◌==◌, trim, is_empty, contains, ltb, if◌then◌else◌,
}
use vivi.Base.Strings.{Text}
use vivi.Base.Integers.{ℤ, pos, negsuc}
use vivi.Base.Dict.{Dict, put, values}
use vivi.Base.Json.{Json, string, object, Fields, end, field, get}
use vivi.Base.Lines.{split_lines, join_lines, lf}

pub record ReviewLedgerSnapshot : Type 0 where
  pub decisions : List Json
  pub receipts : List Json

abbrev pub receipt_retention_ms : ℕ
receipt_retention_ms = 24 * 60 * 60 * 1000

-- The string that a field holds.
abbrev pub string_in : Option Json → Option Text
string_in (some (string s)) = some s
string_in _ = none

unfoldable pub text_at : Fields → Text → Option Text
unfolding get
text_at fields name = string_in (get fields name)

abbrev pub has_text : Option Text → Bool
has_text none = false
has_text (some s) = true

abbrev pub text_or_empty : Option Text → Text
text_or_empty none = []
text_or_empty (some s) = s

abbrev pub is_one_of : List Text → Option Text → Bool
is_one_of reasons none = false
is_one_of reasons (some reason) = contains reasons reason

abbrev pub decision_reasons : List Text
decision_reasons = map codes ("accepted_change" ∷ "threads_resolved" ∷ [])

abbrev pub receipt_reasons : List Text
receipt_reasons =
    map codes
      ("accepted_change" ∷ "threads_resolved" ∷ "drafts_cleared" ∷ "change_disappeared" ∷ [])

unfoldable pub is_decision : Json → Bool
unfolding text_at
is_decision (object fields) =
    has_text (text_at fields (codes "path"))
    && has_text (text_at fields (codes "fingerprint"))
    && has_text (text_at fields (codes "createdAt"))
    && is_one_of decision_reasons (text_at fields (codes "reason"))
is_decision _ = false

unfoldable pub is_receipt : Json → Bool
unfolding text_at
is_receipt (object fields) =
    has_text (text_at fields (codes "id"))
    && has_text (text_at fields (codes "path"))
    && has_text (text_at fields (codes "createdAt"))
    && has_text (text_at fields (codes "visibleUntil"))
    && is_one_of receipt_reasons (text_at fields (codes "reason"))
is_receipt _ = false

-- A text of a row that has it.
unfoldable pub row_text : Json → Text → Text
unfolding text_at
row_text (object fields) name = text_or_empty (text_at fields name)
row_text _ name = []

abbrev pub decision_key : Json → Text
decision_key row = row_text row (codes "path") ++ (31 ∷ row_text row (codes "fingerprint"))

-- `map.set(key, row)` for each row that is kept.
abbrev pub keep_rows : (Json → Text) → (Json → Bool) → Dict Json → List Json → Dict Json
keep_rows key keeps d [] = d
keep_rows key keeps d (row ∷ rows) =
    keep_rows key keeps (if keeps row then put (key row) row d else d) rows

-- Whether a time lies before the cutoff; what is no time does not.
abbrev pub is_before_cutoff : ℕ → Option ℤ → Bool
is_before_cutoff now none = false
is_before_cutoff now (some (pos t)) = ltb (t + receipt_retention_ms) now
is_before_cutoff now (some (negsuc n)) = ltb receipt_retention_ms (now + suc n)

module _ (parse_date : Text → Option ℤ) where
  unfoldable pub is_kept_receipt : ℕ → Json → Bool
  unfolding is_receipt row_text
  is_kept_receipt now row =
      is_receipt row
      && not (is_before_cutoff now (parse_date (row_text row (codes "visibleUntil"))))

  unfoldable pub compact_snapshot : ReviewLedgerSnapshot → ℕ → ReviewLedgerSnapshot
  unfolding put is_decision
  compact_snapshot snapshot now = record {
    decisions = values (keep_rows decision_key is_decision [] snapshot.decisions);
    receipts =
        values
          (keep_rows (λ row. row_text row (codes "id")) (is_kept_receipt now) [] snapshot.receipts);
  }

abbrev pub with_decision : Option Json → ReviewLedgerSnapshot → ReviewLedgerSnapshot
unfolding is_decision
with_decision none s = s
with_decision (some row) s =
    if is_decision row then record s { decisions = s.decisions ++ row ∷ [] } else s

abbrev pub with_receipt : Option Json → ReviewLedgerSnapshot → ReviewLedgerSnapshot
unfolding is_receipt
with_receipt none s = s
with_receipt (some row) s =
    if is_receipt row then record s { receipts = s.receipts ++ row ∷ [] } else s

-- What a row that has been parsed adds.
abbrev pub add_event : Option Json → ReviewLedgerSnapshot → ReviewLedgerSnapshot
unfolding text_at
add_event (some (object fields)) s =
    let kind = text_or_empty (text_at fields (codes "type")) in
    if kind == codes "review_decision"
    then with_decision (get fields (codes "decision")) s
    else if kind == codes "review_receipt"
    then with_receipt (get fields (codes "receipt")) s
    else s
add_event _ s = s

module _ (parse : Text → Option Json) where
  abbrev pub read_rows : ReviewLedgerSnapshot → List Text → ReviewLedgerSnapshot
  unfolding trim
  read_rows s [] = s
  read_rows s (line ∷ lines) =
      read_rows (if is_empty (trim line) then s else add_event (parse line) s) lines

  unfoldable pub read_all : Option Text → ReviewLedgerSnapshot
  unfolding split_lines
  read_all none = record { decisions = []; receipts = [] }
  read_all (some raw) = read_rows record { decisions = []; receipts = [] } (split_lines raw)

module _ (stringify : Json → Text) where
  abbrev pub row_of : Text → Text → Json → Text
  row_of kind name row =
      stringify (object (field (codes "type") (string kind) (field name row end)))

  -- The text of the file.
  unfoldable pub write_all : ReviewLedgerSnapshot → Text
  unfolding join_lines
  write_all s =
      let body = join_lines (
        map (row_of (codes "review_decision") (codes "decision")) s.decisions
        ++ map (row_of (codes "review_receipt") (codes "receipt")) s.receipts) in
      if is_empty body then [] else body ++ lf ∷ []

module _ (parse : Text → Option Json) (stringify : Json → Text) (parse_date : Text → Option ℤ) where
  -- The snapshot that is returned, and the file that is written.
  unfoldable pub read_review_ledger : Option Text → ℕ → ReviewLedgerSnapshot × Text
  unfolding compact_snapshot read_all write_all
  read_review_ledger file now =
      let snapshot = compact_snapshot parse_date (read_all parse file) now in
      (snapshot, write_all stringify snapshot)

  unfoldable pub save_review_ledger : ReviewLedgerSnapshot → ℕ → ReviewLedgerSnapshot × Text
  unfolding compact_snapshot write_all
  save_review_ledger snapshot now =
      let compacted = compact_snapshot parse_date snapshot now in
      (compacted, write_all stringify compacted)
