-- ===== src/CommentFields.antt =====
-- server/typescript/domain/comments.ts: reading the fields of a value that a client sends. A thrown
-- `Error` is the case `err` with its message.
use vivi.Base.{
  ℕ, ◌≡◌, refl, Bool, true, false, ◌&&◌, Option, none, some, ◌++◌, codes, ◌==◌, trim, is_empty, ltb,
  leb, if◌then◌else◌,
}
use mathlib.Core.Path.{subst}
use vivi.Base.Strings.{Text}
use vivi.Base.Json.{Json, null, number, string, object, Fields}

pub data Result {ℓ} (A : Type ℓ) : Type ℓ where
  ok : A → Result A
  err : Text → Result A

infixl 5 ◌>>=◌
unfoldable pub ◌>>=◌ {ℓ κ} : {A : Type ℓ} {B : Type κ} → Result A → (A → Result B) → Result B
ok a >>= f = f a
err e >>= f = err e

-- `Number.MAX_SAFE_INTEGER`
abbrev pub max_safe_integer : ℕ
max_safe_integer = 9007199254740991

-- `isRecord(value)`: the fields of an object.
unfoldable pub is_record : Option Json → Text → Result Fields
is_record (some (object fs)) message = ok fs
is_record _ message = err message

-- The trimmed text of a field, which must be there and not blank.
unfoldable pub string_field : Option Json → Text → Result Text
string_field (some (string s)) name =
    if is_empty (trim s) then err (name ++ codes " is required") else ok (trim s)
string_field _ name = err (name ++ codes " is required")

unfoldable pub optional_string : Option Json → Option Text
optional_string (some (string s)) = if is_empty (trim s) then none else some (trim s)
optional_string _ = none

unfoldable pub positive_int : Option Json → Text → Result ℕ
positive_int (some (number n)) name =
    if leb 1 n && leb n max_safe_integer
    then ok n
    else err (name ++ codes " must be a positive integer")
positive_int _ name = err (name ++ codes " must be a positive integer")

unfoldable pub optional_positive_int : Option Json → Text → Result (Option ℕ)
optional_positive_int none name = ok none
optional_positive_int (some null) name = ok none
optional_positive_int (some v) name = do n ← positive_int (some v) name; ok (some n)

-- `end !== undefined && start !== undefined && end < start`
abbrev pub is_reversed : Option ℕ → Option ℕ → Bool
is_reversed (some s) (some e) = ltb e s
is_reversed _ _ = false

-- `input.path ?? path`
abbrev pub path_or : Option Json → Text → Option Json
path_or none path = some (string path)
path_or (some null) path = some (string path)
path_or (some v) path = some v

-- `value === text` on an unknown value
abbrev pub is_string : Option Json → Text → Bool
is_string (some (string s)) t = s == t
is_string _ t = false

-- `P` holds of what is returned, if anything is.
pub data Ensures {A : Type 0} (P : A → Type 0) : Result A → Type 0 where
  returns : {a : A} → P a → Ensures P (ok a)
  throws : {e : Text} → Ensures P (err e)

pub Ensures-any : {A : Type 0} (r : Result A) → Ensures (λ _. Unit {0}) r
Ensures-any (ok a) = returns tt
Ensures-any (err e) = throws

pub Ensures-bind :
    {A B : Type 0} {P : A → Type 0} {Q : B → Type 0} {m : Result A} {f : A → Result B}
    → Ensures P m
    → ((a : A) → P a → Ensures Q (f a))
    → Ensures Q (m >>= f)
unfolding ◌>>=◌
Ensures-bind (returns p) k = k _ p
Ensures-bind throws k = throws

-- A test that throws.
pub Ensures-guard :
    {A : Type 0} {P : A → Type 0} (b : Bool) (e : Text) (r : Result A)
    → (b ≡ false → Ensures P r)
    → Ensures P (if b then err e else r)
Ensures-guard true e r k = throws
Ensures-guard false e r k = k refl

-- A step whose result nothing needs.
pub Ensures-then :
    {A B : Type 0} {Q : B → Type 0} (m : Result A) {f : A → Result B}
    → ((a : A) → Ensures Q (f a))
    → Ensures Q (m >>= f)
Ensures-then m k = Ensures-bind (Ensures-any m) (λ a _. k a)

pub Ensures-ok : {A : Type 0} {P : A → Type 0} (r : Result A) {a : A} → Ensures P r → r ≡ ok a → P a
Ensures-ok {P} (ok b) (returns p) h = let same : b ≡ _ = cc in subst P same p
Ensures-ok (err e) throws h = cc
