-- ===== src/Base/Unknown.antt =====
-- Values of type `unknown` in the source: what a parsed JSON body may hold.
use Prim.Native.Nat.{ℕ}
use mathlib.Core.Bool.{Bool}
use mathlib.Core.List.{List, [], ◌∷◌}
use opus8_cf.Base.Strings.{Text}

-- A number: `whole n` is n, `minus n` is -(n + 1), and `other` is a number with a fraction, an
-- infinity or NaN.
pub data Number : Type 0 where
  whole : ℕ → Number
  minus : ℕ → Number
  other : Number

mutual
  pub data Value : Type 0 where
    undefined : Value
    null : Value
    bool : Bool → Value
    num : Number → Value
    str : Text → Value
    arr : Values → Value
    obj : Value

  pub data Values : Type 0 where
    nil : Values
    cons : Value → Values → Values

abbrev pub values : Values → List Value
values nil = []
values (cons v vs) = v ∷ values vs
