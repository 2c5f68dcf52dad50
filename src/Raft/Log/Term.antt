-- ===== src/Raft/Log/Term.antt =====
-- `Log::load_term` and `Log::save_term`: the term and the vote, in the store of the log.
use mathlib.Core.Option
use mynode.Base.{
  ℕ, ◌≡◌, refl, ap, Option, none, some, arith, ltb, if◌then◌else◌, str_eq, String, Bool-cases, inl,
  inr,
}
use mynode.Base.Result.{Result, ok, Exec, and_then, ◌>>=◌, ◌>>◌, lift}
use mynode.Raft.Disk.{Disk, IsSound}
use mynode.Raft.Log.{Log, decode, on_kv}
use mynode.Raft.Log.Represents.{decode-bytes}

abbrev pub or_zero : Option ℕ → ℕ
or_zero none = 0
or_zero (some n) = n

-- Term 0 is stored as the absence of a term.
pub stored_term : ℕ → Option ℕ
stored_term term = if ltb 0 term then some term else none

pub or_zero-stored_term : (term : ℕ) → or_zero (stored_term term) ≡ term
unfolding stored_term
or_zero-stored_term term = ground arith

module _ {Kv : Type 0} (disk : Disk Kv) where
  unfoldable pub load_term : Log Kv → Result (ℕ × Option String)
  load_term l = and_then (disk.store.get "term" l.kv) λ raw_term.
      and_then (decode disk.number raw_term) λ term.
        and_then (disk.store.get "voted_for" l.kv)
          λ raw_vote. and_then (decode disk.text raw_vote) λ voted_for. ok (or_zero term, voted_for)

  save_number : String → ℕ → Exec (Log Kv) (Unit {0})
  save_number key n = lift (disk.number.serialize n) >>= λ bytes. on_kv (disk.store.set key bytes)

  save_voted_for : Option String → Exec (Log Kv) (Unit {0})
  save_voted_for none = on_kv (disk.store.delete "voted_for")
  save_voted_for (some v) = do
    bytes ← lift (disk.text.serialize v)
    on_kv (disk.store.set "voted_for" bytes)

  unfoldable pub save_term : ℕ → Option String → Exec (Log Kv) (Unit {0})
  unfolding save_number save_voted_for
  save_term term voted_for =
      (if ltb 0 term then save_number "term" term else on_kv (disk.store.delete "term"))
      >> save_voted_for voted_for

module _ {Kv : Type 0} {disk : Disk Kv} (sound : IsSound disk) where
  -- The store after the term is written, and after the vote is.
  pub term_kv : ℕ → Kv → Kv
  term_kv term kv =
      if ltb 0 term
      then (disk.store.set "term" (sound.number.bytes term) kv).1
      else (disk.store.delete "term" kv).1

  pub vote_kv : Option String → Kv → Kv
  vote_kv none kv = (disk.store.delete "voted_for" kv).1
  vote_kv (some v) kv = (disk.store.set "voted_for" (sound.text.bytes v) kv).1

  save_voted_for_lem :
      (o : Option String) (l : Log Kv)
      → save_voted_for disk o l ≡ (ok tt, record l { kv = vote_kv o l.kv })
  unfolding save_voted_for vote_kv
  save_voted_for_lem none l = rw (sound.store.delete_ok "voted_for" l.kv)
  save_voted_for_lem (some v) l =
      rw (sound.text.serialize_lem v)
        (rw (sound.store.set_ok "voted_for" (sound.text.bytes v) l.kv))

  -- Saving succeeds, and writes to the store only.
  pub save_term_lem :
      (term : ℕ) (o : Option String) (l : Log Kv)
      → save_term disk term o l ≡ (ok tt, record l { kv = vote_kv o (term_kv term l.kv) })
  unfolding save_term term_kv
  save_term_lem term o l = elim (Bool-cases (ltb 0 term)) [
    | inl pos ↦ rw pos (
        rw (sound.number.serialize_lem term)
          (rw (sound.store.set_ok "term" (sound.number.bytes term) l.kv) (save_voted_for_lem o _)))
    | inr zero_term ↦ rw zero_term (rw (sound.store.delete_ok "term" l.kv) (save_voted_for_lem o _))
  ]

  pub contents-save_term :
      (term : ℕ) (o : Option String) (kv : Kv) (k : String)
      → sound.store.contents (vote_kv o (term_kv term kv)) k ≡ (
          if str_eq "voted_for" k
          then Option.map sound.text.bytes o
          else if str_eq "term" k
          then Option.map sound.number.bytes (stored_term term)
          else sound.store.contents kv k)
  unfolding vote_kv term_kv stored_term
  contents-save_term term none kv k = ground (
    arith,
    sound.store.contents-delete "voted_for" (term_kv term kv) k,
    sound.store.contents-delete "term" kv k,
    sound.store.contents-set "term" (sound.number.bytes term) kv k,
  )
  contents-save_term term (some v) kv k = ground (
    arith,
    sound.store.contents-set "voted_for" (sound.text.bytes v) (term_kv term kv) k,
    sound.store.contents-delete "term" kv k,
    sound.store.contents-set "term" (sound.number.bytes term) kv k,
  )

  -- On a store that keeps its laws, saving a term and a vote succeeds, and they are loaded again.
  pub load-save_term :
      (term : ℕ) (voted_for : Option String) (l : Log Kv)
      → ((save_term disk term voted_for l).0 ≡ ok tt)
        × (load_term disk (save_term disk term voted_for l).1 ≡ ok (term, voted_for))
  unfolding load_term
  load-save_term term o l = rw (save_term_lem term o l) (
    refl,
    rw (sound.store.get_lem "term", contents-save_term term o l.kv "term")
        (rw (decode-bytes sound.number (stored_term term)) (
          rw (sound.store.get_lem "voted_for", contents-save_term term o l.kv "voted_for")
            (rw (decode-bytes sound.text o) (ap (λ t. ok (t, o)) (or_zero-stored_term term))))),
  )
