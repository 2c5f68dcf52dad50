-- ===== src/Base/Result.antt =====
-- error.rs: the enum `Error`, `Result<_, Error>`, and the monads of the methods. A method that takes
-- `&mut self` is an `Exec`: what it wrote before an error stays written, so the state comes back
-- beside the error too. The `From` impls of error.rs turn errors of other crates into these.
use Prim.Native.Nat.{ℕ}
use Prim.Native.String.{String}
use mathlib.Core.Path.{◌≡◌, refl}
use mathlib.Core.Logic.{◌⊎◌, inl, inr}

pub data Error : Type 0 where
  raft_base_not_found : ℕ → ℕ → Error
  config io internal network parse value : String → Error
  not_found : Error

pub data Result {ℓ} (A : Type ℓ) : Type ℓ where
  ok : A → Result A
  err : Error → Result A

-- No error of the source: a loop that is not at its end when its rounds are used up.
abbrev pub endless : Error
endless = internal "the loop does not end"

-- `?` in a function that changes nothing.
abbrev pub and_then {ℓ κ} : {A : Type ℓ} {B : Type κ} → Result A → (A → Result B) → Result B
and_then (ok a) f = f a
and_then (err e) f = err e

abbrev pub Exec : Type 0 → Type 0 → Type 0
Exec S A = S → Result A × S

abbrev pub continue : {S A B : Type 0} → Result A → (A → Exec S B) → Exec S B
continue (ok a) f s = f a s
continue (err e) f s = (err e, s)

infixl 5 ◌>>=◌ ◌>>◌
abbrev pub ◌>>=◌ : {S A B : Type 0} → Exec S A → (A → Exec S B) → Exec S B
◌>>=◌ m f s = continue (m s).0 f (m s).1

abbrev pub ◌>>◌ : {S B : Type 0} → Exec S (Unit {0}) → Exec S B → Exec S B
m >> k = m >>= λ _. k

abbrev pub pure : {S A : Type 0} → A → Exec S A
pure a s = (ok a, s)

abbrev pub raise : {S A : Type 0} → Error → Exec S A
raise e s = (err e, s)

-- A call of a method that takes `&self`.
abbrev pub reads : {S A : Type 0} → (S → Result A) → Exec S A
reads f s = (f s, s)

abbrev pub gets : {S A : Type 0} → (S → A) → Exec S A
gets f s = (ok (f s), s)

abbrev pub modify : {S : Type 0} → (S → S) → Exec S (Unit {0})
modify f s = (ok tt, f s)

-- `?` on the result of a function.
abbrev pub lift : {S A : Type 0} → Result A → Exec S A
lift r s = (r, s)

-- To split on what a method returned and left, and keep the equation.
pub Exec-cases :
    {S A : Type 0} (r : Result A × S)
    → ((a : A) × (s : S) × (r ≡ (ok a, s))) ⊎ ((e : Error) × (s : S) × (r ≡ (err e, s)))
Exec-cases (ok a, s) = inl (a, s, refl)
Exec-cases (err e, s) = inr (e, s, refl)
