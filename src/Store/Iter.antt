-- ===== src/Store/Iter.antt =====
-- store/mod.rs: `Iter`, an iterator that holds all its items. Its stack is a `Vec`, which is pushed to
-- and popped at its end.
use mathlib.Core.List.{reverse, reverse-cons}
use mynode.Base.{◌≡◌, refl, Option, none, some, List, [], ◌∷◌, ◌++◌, map}
use mynode.Base.Result.{Result, ok}
use mynode.Store.{KvPair}

-- `Vec::pop`: the last element, and what is left.
unfoldable pop {ℓ} : {A : Type ℓ} → List A → Option A × List A
pop [] = (none, [])
pop (x ∷ []) = (some x, [])
pop (x ∷ y ∷ ys) = let r = pop (y ∷ ys) in (r.0, x ∷ r.1)

pub record Iter : Type 0 where
  pub stack : List (Result KvPair)

unfoldable from_vec : List KvPair → Iter
from_vec vec = record { stack = reverse (map ok vec) }

unfoldable next : Iter → Option (Result KvPair) × Iter
unfolding pop
next iter = let r = pop iter.stack in (r.0, record { stack = r.1 })

pop-append {ℓ} : {A : Type ℓ} (xs : List A) (x : A) → pop (xs ++ x ∷ []) ≡ (some x, xs)
unfolding pop
pop-append [] x = refl
pop-append (y ∷ []) x = refl
pop-append (y ∷ z ∷ zs) x = rw (pop-append (z ∷ zs) x) refl

-- An iterator of no items is at its end.
next-from_vec_nil : next (from_vec []) ≡ (none, from_vec [])
unfolding next from_vec pop
next-from_vec_nil = refl

-- The first item comes first, and the iterator goes on with the others.
next-from_vec :
    (x : KvPair) (xs : List KvPair) → next (from_vec (x ∷ xs)) ≡ (some (ok x), from_vec xs)
unfolding next from_vec
next-from_vec x xs =
    rw (reverse-cons (ok x) (map ok xs)) (rw (pop-append (reverse (map ok xs)) (ok x)) refl)
