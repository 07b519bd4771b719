-- ===== src/Base/Lists.antt =====
-- Lists: lengths over the native numbers, membership tests on texts, and predicates on every element.
use Prim.Native.Nat.{ℕ, suc}
use Prim.Native.String.{String}
use mathlib.Core.Path.{◌≡◌}
use mathlib.Core.Logic.{◌↔◌, ◌⊎◌}
use mathlib.Core.Bool.{Bool, true, false, ◌&&◌, ◌||◌}
use mathlib.Core.List.{List, [], ◌∷◌}
use native.Mathlib.Omega.{arith}
use text.Mathlib.Text.{◌==◌}
use text.Mathlib.TextEquality.{eq_iff}

module _ {ℓ} {A : Type ℓ} where
  abbrev pub length : List A → ℕ
  length [] = 0
  length (x ∷ xs) = suc (length xs)

  abbrev pub all : (A → Bool) → List A → Bool
  all p [] = true
  all p (x ∷ xs) = p x && all p xs

module _ {ℓ κ} {A : Type ℓ} where
  abbrev pub All : (A → Type κ) → List A → Type κ
  All P [] = Unit
  All P (x ∷ xs) = P x × All P xs

-- `x` is an element of a list of texts.
abbrev pub In : {A : Type 0} → A → List A → Type 0
In x [] = ⊥
In x (y ∷ ys) = (y ≡ x) ⊎ In x ys

-- The search `for _, v := range list { if v == want { return true } }`.
abbrev pub contains : List String → String → Bool
contains [] want = false
contains (v ∷ vs) want = v == want || contains vs want

pub contains_iff : (xs : List String) (x : String) → (contains xs x ≡ true) ↔ In x xs
contains_iff [] x = ground arith
contains_iff (y ∷ ys) x = ground (arith, eq_iff y x, contains_iff ys x)
