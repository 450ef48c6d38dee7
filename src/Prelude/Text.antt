-- ===== src/Prelude/Text.antt =====
-- Decidable equality of the native texts, and the Boolean test that the program's `==` is.
use Prim.Native.String.{String, compare}
use Prim.Native.Nat.{Ordering}
use mathlib.Core.Path.{◌≡◌, refl}
use mathlib.Core.Bool.{Bool, true, false}
use native.Mathlib.Omega.{arith}
use text.Mathlib.Text.{◌==◌}
use text.Mathlib.TextEquality.{eq_iff}
use text.Mathlib.TextPositions.{compare_refl}

from_test : (s t : String) (b : Bool) → (s == t) ≡ b → Dec (s ≡ t)
from_test s t true e = yes ((eq_iff s t).0 e)
from_test s t false e = no (λ p. absurd (differ ((eq_iff s t).1 p)))
  where
    differ : (s == t) ≡ true → ⊥
    differ q = cc

unfoldable pub str_dec : Discrete String
unfolding from_test
str_dec s t = from_test s t (s == t) refl

-- `ground` splits on this test and reads the equation of the branch.
abbrev pub eqb : String → String → Bool
eqb s t = elim (str_dec s t) [ yes _ ↦ true | no _ ↦ false ]

pub eqb_refl : (s : String) → eqb s s ≡ true
eqb_refl s = ground arith

pub eqb→eq : (s t : String) → eqb s t ≡ true → s ≡ t
eqb→eq s t h = ground arith

pub eqb-apart : (s t : String) → eqb s t ≡ false → eqb t s ≡ false
eqb-apart s t h = ground (arith, eqb_refl t)

-- The byte order of two texts: `s > t`.
unfoldable pub gtb : String → String → Bool
gtb s t = elim (compare s t) [ Ordering.gt ↦ true | _ ↦ false ]

pub gtb_irrefl : (s : String) → gtb s s ≡ false
unfolding gtb
gtb_irrefl s = rw (compare_refl, gtb)

test_eq : eqb "ab" "ab" ≡ true
unfolding str_dec
test_eq = refl

test_ne : eqb "ab" "ac" ≡ false
unfolding str_dec
test_ne = refl
