-- ===== src/Base/Json.antt =====
-- A parsed JSON value. A number is a natural number or another one, negative or with a fraction,
-- whose value the modelled code never uses.
use mathlib.Core.Bool.{Bool}
use mathlib.Core.Option.{Option, none, some}
use vivi.Base.Tests.{if◌then◌else◌}
use vivi.Base.Strings.{Text, ◌==◌}
use Prim.Native.Nat.{ℕ}

mutual
  pub data Json : Type 0 where
    null : Json
    boolean : Bool → Json
    number : ℕ → Json
    other_number : Json
    string : Text → Json
    array : Items → Json
    object : Fields → Json

  pub data Items : Type 0 where
    nil : Items
    cons : Json → Items → Items

  pub data Fields : Type 0 where
    end : Fields
    field : Text → Json → Fields → Fields

-- `input.key`, where `none` is undefined; the last field of a name counts.
unfoldable pub get : Fields → Text → Option Json
get end k = none
get (field j v fs) k =
    let later = get fs k in
    elim later [ none ↦ (if j == k then some v else none) | some w ↦ some w ]
