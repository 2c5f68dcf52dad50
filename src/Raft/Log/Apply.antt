-- ===== src/Raft/Log/Apply.antt =====
-- `Log::apply`: the committed entries are run on the state machine, one after the other.
use mynode.Base.{
  ℕ, ◌+◌, ◌≤◌, ◌<◌, ◌≡◌, refl, sym, ap, true, false, Option, none, some, List, [], length, arith,
  leb, if◌then◌else◌, str_eq, Bool-cases, inl, inr, add64, u64_mod, eq_iff,
}
use mynode.Base.Text.{to_string, to_string-ne-apply_index}
use mynode.Base.Result.{Error, Result, ok, err, Exec, and_then, continue, ◌>>=◌, ◌>>◌, modify}
use mynode.Store.{Bytes}
use mynode.Raft.Disk.{Entry, Disk, IsSound}
use mynode.Raft.Log.{Log, get, on_kv, term_or_zero}
use mynode.Raft.Log.Represents.{entry_at, entry_at-le, get-entry_at}
use mynode.Raft.Log.Valid.{IsValid}

-- raft/state.rs: the trait `State`.
pub record StateMachine (Sm : Type 0) : Type 0 where
  pub read : Bytes → Sm → Result Bytes
  pub mutate : Bytes → Exec Sm Bytes

module _ {Kv : Type 0} (disk : Disk Kv) where
  module _ {Sm : Type 0} (machine : StateMachine Sm) where
    run_command : Option Bytes → Exec (Log Kv × Sm) Bytes
    run_command none s = (ok [], s)
    run_command (some command) s = let r = machine.mutate command s.1 in (r.0, (s.0, r.1))

    -- The applied index is stored, and comes back with the output of the command.
    save_applied : Bytes → Exec (Log Kv × Sm) (Option (ℕ × Bytes))
    save_applied output s =
        let r =
          continue (disk.number.serialize s.0.apply_index)
            (λ bytes. on_kv (disk.store.set "apply_index" bytes)) s.0 in
        (and_then r.0 λ _. ok (some (s.0.apply_index, output)), (r.1, s.1))

    apply_found : Option Entry → Exec (Log Kv × Sm) (Option (ℕ × Bytes))
    apply_found none = save_applied []
    apply_found (some entry) = do
      output ← run_command entry.command
      modify
          λ s. (record s.0 { apply_index = add64 s.0.apply_index 1; apply_term = entry.term }, s.1)
      save_applied output

    -- The next committed entry, if any, is run on the state machine.
    unfoldable pub apply : Exec (Log Kv × Sm) (Option (ℕ × Bytes))
    unfolding run_command save_applied apply_found
    apply s =
        if leb s.0.commit_index s.0.apply_index
        then (ok none, s)
        else continue (get disk (add64 s.0.apply_index 1) s.0) apply_found s

module _ {Sm : Type 0} (machine : StateMachine Sm) where
  -- What one entry does to the state machine; a no-op does nothing.
  unfoldable pub run : Option Bytes → Exec Sm Bytes
  run none sm = (ok [], sm)
  run (some command) sm = machine.mutate command sm

module _ {Kv Sm : Type 0} {disk : Disk Kv} (sound : IsSound disk) (machine : StateMachine Sm) where
  -- The log after an entry of term `t` is applied.
  unfoldable pub applied : Log Kv → ℕ → Log Kv
  applied l t = record l {
    kv = (disk.store.set "apply_index" (sound.number.bytes (l.apply_index + 1)) l.kv).1;
    apply_index = l.apply_index + 1;
    apply_term = t;
  }

  run_command_lem :
      (c : Option Bytes) (l : Log Kv) (sm : Sm)
      → run_command disk machine c (l, sm) ≡ ((run machine c sm).0, (l, (run machine c sm).1))
  unfolding run_command run
  run_command_lem none l sm = refl
  run_command_lem (some c) l sm = refl

  save_applied_lem :
      (output : Bytes) (l : Log Kv) (sm : Sm)
      → save_applied disk machine output (l, sm) ≡ (
        ok (some (l.apply_index, output)),
        (
          record l {
            kv = (disk.store.set "apply_index" (sound.number.bytes l.apply_index) l.kv).1;
          },
          sm,
        ),
      )
  unfolding save_applied
  save_applied_lem output l sm =
      rw (sound.number.serialize_lem l.apply_index)
        (rw (sound.store.set_ok "apply_index" (sound.number.bytes l.apply_index) l.kv))

  -- Nothing is applied past what is committed.
  pub apply_idle :
      (l : Log Kv) (sm : Sm)
      → l.commit_index ≤ l.apply_index
      → apply disk machine (l, sm) ≡ (ok none, (l, sm))
  unfolding apply
  apply_idle l sm h = let b : leb l.commit_index l.apply_index ≡ true = ground arith in rw b

  pub applied-IsValid :
      {l : Log Kv} {es : List Entry} (e : Entry)
      → IsValid sound l es
      → l.apply_index < l.commit_index
      → entry_at es (l.apply_index + 1) ≡ some e
      → IsValid sound (applied l e.term) es
  unfolding applied
  applied-IsValid {l} {es} e v more hit = record {
    represents = record {
      stored = λ i. rw (sound.store.contents-set, numeric_key i) (v.represents.stored i);
      last_index = v.represents.last_index;
      last_term = v.represents.last_term;
    };
    applied = omega arith;
    committed = v.committed;
    commit_term = v.commit_term;
    apply_term = sym (ap term_or_zero hit);
    persisted = inr (rw (sound.store.contents-set));
  }
    where
      numeric_key : (i : ℕ) → str_eq "apply_index" (to_string i) ≡ false
      numeric_key i = elim (Bool-cases (str_eq "apply_index" (to_string i))) [
        | inl e ↦ absurd (to_string-ne-apply_index i (sym ((eq_iff _ _).0 e)))
        | inr n ↦ n
      ]

  module _ {l : Log Kv} {es : List Entry} (v : IsValid sound l es) (sm : Sm)
      (fits : length es + 1 < u64_mod) (more : l.apply_index < l.commit_index) where
    pub next_entry : (e : Entry) × (entry_at es (l.apply_index + 1) ≡ some e)
    next_entry = entry_at-le es (l.apply_index + 1) (omega arith) (omega (arith, v.committed))

    -- Where a valid log has a committed entry to apply and the state machine accepts its command,
    -- applying gives the entry's index with the output, and the index is stored as applied. This
    -- is for a store and a serialization that keep their laws, and indexes below 2^64.
    pub apply_ok :
        (e : Entry) (output : Bytes) (sm' : Sm)
        → entry_at es (l.apply_index + 1) ≡ some e
        → run machine e.command sm ≡ (ok output, sm')
        → apply disk machine (l, sm)
          ≡ (ok (some (l.apply_index + 1, output)), (applied l e.term, sm'))
    unfolding apply applied
    apply_ok e output sm' hit ran =
        let b : leb l.commit_index l.apply_index ≡ false = ground arith in
        let next : add64 l.apply_index 1 ≡ l.apply_index + 1 = omega (arith, v.committed) in
        rw (b, next)
          (rw (get-entry_at sound v.represents (l.apply_index + 1), hit)
            (rw (run_command_lem e.command l sm, ran)
              (rw next (
                save_applied_lem output
                  (record l { apply_index = l.apply_index + 1; apply_term = e.term }) sm'))))

    -- Where the state machine refuses the command of the next committed entry, applying gives its
    -- error and the log stays as it is. This is for a store and a serialization that keep their
    -- laws, and indexes below 2^64.
    pub apply_err :
        (e : Entry) (x : Error) (sm' : Sm)
        → entry_at es (l.apply_index + 1) ≡ some e
        → run machine e.command sm ≡ (err x, sm')
        → apply disk machine (l, sm) ≡ (err x, (l, sm'))
    unfolding apply
    apply_err e x sm' hit ran =
        let b : leb l.commit_index l.apply_index ≡ false = ground arith in
        let next : add64 l.apply_index 1 ≡ l.apply_index + 1 = omega (arith, v.committed) in
        rw (b, next)
          (rw (get-entry_at sound v.represents (l.apply_index + 1), hit)
            (rw (run_command_lem e.command l sm, ran)))
