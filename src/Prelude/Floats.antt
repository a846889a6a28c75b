-- ===== src/Prelude/Floats.antt =====
-- Python's floats, as far as the evaluation plane uses them, and how Python prints a float to three
-- places, an integer and the repr of a text: a parameter of the model. A NaN makes
-- every comparison false, so the comparisons are Boolean and have no law here.
use Prim.Native.Nat.{ℕ}
use Prim.Native.String.{String}
use mathlib.Core.Bool.{Bool}

pub record Floats : Type 1 where
  pub Float : Type 0
  pub zero : Float
  pub one : Float
  -- `a / b` of two integers, with `b` not zero
  pub ratio : ℕ → ℕ → Float
  pub add : Float → Float → Float
  pub le : Float → Float → Bool
  pub lt : Float → Float → Bool
  pub fixed3 : Float → String
  pub decimal : ℕ → String
  pub repr : String → String
