-- ===== src/Base/Outcome.antt =====
-- What a call comes to where the code can panic (`unwrap`, a division by zero): a value, an error or a
-- panic. `Run` is the monad of such methods that change a state; what they wrote before stays.
use mynode.Base.Result.{Error, Result, ok, err}
use mathlib.Core.Option.{Option, none, some}

pub data Outcome (A : Type 0) : Type 0 where
  returned : A → Outcome A
  failed : Error → Outcome A
  panicked : Outcome A

module _ {A : Type 0} where
  abbrev pub of_result : Result A → Outcome A
  of_result (ok a) = returned a
  of_result (err e) = failed e

  -- `unwrap`, and the operators that panic.
  abbrev pub or_panic : Option A → Outcome A
  or_panic (some a) = returned a
  or_panic none = panicked

  abbrev pub and_then : {B : Type 0} → Outcome A → (A → Outcome B) → Outcome B
  and_then (returned a) f = f a
  and_then (failed e) f = failed e
  and_then panicked f = panicked

abbrev pub Run : Type 0 → Type 0 → Type 0
Run S A = S → Outcome A × S

module _ {S : Type 0} where
  abbrev pub continue : {A B : Type 0} → Outcome A → (A → Run S B) → Run S B
  continue (returned a) f s = f a s
  continue (failed e) f s = (failed e, s)
  continue panicked f s = (panicked, s)

  infixl 5 ◌>>=◌
  abbrev pub ◌>>=◌ : {A B : Type 0} → Run S A → (A → Run S B) → Run S B
  ◌>>=◌ m f s = continue (m s).0 f (m s).1

  abbrev pub pure : {A : Type 0} → A → Run S A
  pure a s = (returned a, s)

  abbrev pub lift : {A : Type 0} → Outcome A → Run S A
  lift r s = (r, s)

  -- A method that does not panic.
  abbrev pub run : {A : Type 0} → (S → Result A × S) → Run S A
  run m s = (of_result (m s).0, (m s).1)

-- What holds of the state whatever the first step came to.
pub continue-at :
    {S A B : Type 0} (P : S → Type 0) (r : Outcome A) (k : A → Run S B) (s : S)
    → P s
    → ((a : A) → P (k a s).1)
    → P (continue r k s).1
continue-at P (returned a) k s h g = g a
continue-at P (failed e) k s h g = h
continue-at P panicked k s h g = h
