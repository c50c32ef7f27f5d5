-- ===== src/Prelude/Keys.antt =====
-- Types whose equality is decided, membership in a list, and how often an element stands in one.
use Prim.Native.Nat.{ℕ, suc, ◌+◌}
use Prim.Native.String.{String}
use mathlib.Core.Path.{◌≡◌, refl}
use mathlib.Core.Logic.{ite}
use mathlib.Core.Bool.{Bool, true, false, ◌||◌}
use mathlib.Core.List.{List, [], ◌∷◌, ◌++◌}
use native.Mathlib.Decide.{ℕ_discrete}
use native.Mathlib.Omega.{arith}
use text.Mathlib.Text.{◌==◌ as str_eq}
use text.Mathlib.TextEquality.{eq_iff}

pub record Key {ℓ} (K : Type ℓ) : Type ℓ where
  pub dec : Discrete K

unfoldable pub String_discrete : Discrete String
String_discrete s t = decide_by (str_eq s t) refl
  where
    decide_by : (b : Bool) → str_eq s t ≡ b → Dec (s ≡ t)
    decide_by true e = yes ((eq_iff s t).0 e)
    decide_by false e = no (λ p. absurd (cc (e, (eq_iff s t).1 p)))

instance abbrev pub string_key : Key String
string_key = record { dec = String_discrete }

instance abbrev pub nat_key : Key ℕ
nat_key = record { dec = ℕ_discrete }

module _ {ℓ} {K : Type ℓ} ⦃key : Key K⦄ where
  -- `HashSet::contains`, `Vec::contains`.
  abbrev pub contains : List K → K → Bool
  contains [] a = false
  contains (x ∷ xs) a = ite (key.dec x a) true (contains xs a)

  abbrev pub count : K → List K → ℕ
  count a [] = 0
  count a (x ∷ xs) = let rest = count a xs in ite (key.dec x a) (suc rest) rest

  pub contains-append :
      (xs ys : List K) (a : K) → contains (xs ++ ys) a ≡ (contains xs a || contains ys a)
  contains-append [] ys a = refl
  contains-append (x ∷ xs) ys a = ground (arith, contains-append xs ys a)

  pub count-append : (a : K) (xs ys : List K) → count a (xs ++ ys) ≡ count a xs + count a ys
  count-append a [] ys = omega arith
  count-append a (x ∷ xs) ys = ground (arith, count-append a xs ys)
