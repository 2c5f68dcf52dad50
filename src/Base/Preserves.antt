-- ===== src/Base/Preserves.antt =====
-- What a method does to its state, put together from what its steps do: a reflexive and transitive
-- relation between the state before and the state after, whether it succeeds or fails.
use mynode.Base.Result.{Result, ok, err, Exec, continue, ◌>>=◌}

pub record IsOrder {S : Type 0} (R : S → S → Type 0) : Type 0 where
  pub same : (s : S) → R s s
  pub then : (s t u : S) → R s t → R t u → R s u

abbrev pub Preserves : {S A : Type 0} → (S → S → Type 0) → Exec S A → Type 0
Preserves {S} R m = (s : S) → R s (m s).1

module _ {S : Type 0} {R : S → S → Type 0} (o : IsOrder R) where
  pub continue-Preserves :
      {A B : Type 0} (r : Result A) (k : A → Exec S B) (s t : S)
      → R s t
      → ((a : A) → Preserves R (k a))
      → R s (continue r k t).1
  continue-Preserves (ok a) k s t h g = o.then s t (k a t).1 h (g a t)
  continue-Preserves (err e) k s t h g = h

  pub bind-Preserves :
      {A B : Type 0} (m : Exec S A) (k : A → Exec S B)
      → Preserves R m
      → ((a : A) → Preserves R (k a))
      → Preserves R (m >>= k)
  bind-Preserves m k h g s = continue-Preserves (m s).0 k s (m s).1 (h s) g

  -- The same, where the rest is known at the state that is reached only.
  pub continue-at :
      {A B : Type 0} (r : Result A) (k : A → Exec S B) (s t : S)
      → R s t
      → ((a : A) → R t (k a t).1)
      → R s (continue r k t).1
  continue-at (ok a) k s t h g = o.then s t (k a t).1 h (g a)
  continue-at (err e) k s t h g = h
