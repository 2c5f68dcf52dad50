-- ===== src/Base/Map.antt =====
-- A hash map as an association list (`HashMap` of the standard library); the keys' equality is an
-- instance. The order in which a hash map yields its items is not modelled: no caller depends on it.
use text.Mathlib.Text.{◌==◌ as str_eq}
use text.Mathlib.TextEquality.{eq_iff}
use Prim.Native.Nat.{ℕ}
use Prim.Native.String.{String}
use mathlib.Core.Path.{◌≡◌, refl}
use mathlib.Core.Logic.{◌↔◌}
use mathlib.Core.Bool.{Bool, true, false, ◌&&◌}
use mathlib.Core.Option.{Option, none, some}
use mathlib.Core.List.{List, [], ◌∷◌}
use native.Mathlib.Omega.{arith}
use mynode.Base.Tests.{if◌then◌else◌, ◌==◌}

pub record Eq (A : Type 0) : Type 0 where
  pub beq : A → A → Bool
  pub beq_iff : (a b : A) → (beq a b ≡ true) ↔ (a ≡ b)

instance abbrev pub string_eq : Eq String
string_eq = record { beq = str_eq; beq_iff = eq_iff }

abbrev pub bytes_beq : List ℕ → List ℕ → Bool
bytes_beq [] [] = true
bytes_beq (a ∷ xs) (b ∷ ys) = (a == b) && bytes_beq xs ys
bytes_beq _ _ = false

bytes_beq_iff : (a b : List ℕ) → (bytes_beq a b ≡ true) ↔ (a ≡ b)
bytes_beq_iff [] [] = ground arith
bytes_beq_iff [] (b ∷ bs) = ground arith
bytes_beq_iff (a ∷ xs) [] = ground arith
bytes_beq_iff (a ∷ xs) (b ∷ bs) = ground (arith, bytes_beq_iff xs bs)

instance abbrev pub bytes_eq : Eq (List ℕ)
unfolding bytes_beq_iff
bytes_eq = record { beq = bytes_beq; beq_iff = bytes_beq_iff }

module _ {K V : Type 0} ⦃e : Eq K⦄ where
  unfoldable pub lookup : K → List (K × V) → Option V
  lookup k [] = none
  lookup k ((j, v) ∷ m) = if e.beq j k then some v else lookup k m

  unfoldable pub insert : K → V → List (K × V) → List (K × V)
  insert k v [] = (k, v) ∷ []
  insert k v ((j, w) ∷ m) = if e.beq j k then (k, v) ∷ m else (j, w) ∷ insert k v m

  unfoldable pub remove : K → List (K × V) → List (K × V)
  remove k [] = []
  remove k ((j, w) ∷ m) = let rest = remove k m in if e.beq j k then rest else (j, w) ∷ rest

  pub lookup-insert :
      (k : K) (v : V) (m : List (K × V)) (j : K)
      → lookup j (insert k v m) ≡ (if e.beq k j then some v else lookup j m)
  unfolding lookup insert
  lookup-insert k v [] j = refl
  lookup-insert k v ((i, w) ∷ m) j =
      ground (arith, lookup-insert k v m j, e.beq_iff k j, e.beq_iff i k, e.beq_iff i j)

  pub lookup-remove :
      (k : K) (m : List (K × V)) (j : K)
      → lookup j (remove k m) ≡ (if e.beq k j then none else lookup j m)
  unfolding lookup remove
  lookup-remove k [] j = ground arith
  lookup-remove k ((i, w) ∷ m) j =
      ground (arith, lookup-remove k m j, e.beq_iff k j, e.beq_iff i k, e.beq_iff i j)
