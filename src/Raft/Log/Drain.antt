-- ===== src/Raft/Log/Drain.antt =====
-- The loop `while let Some(_) = self.log.apply(&mut self.state)? {}` of the ticks of followers and
-- candidates (raft/node/follower.rs, candidate.rs). Each round but the last applies one entry, so one
-- round more than there are committed entries to apply is enough.
use mynode.Base.{
  ℕ, zero, suc, ◌+◌, ◌-◌, ◌≤◌, ◌<◌, ◌≡◌, refl, sym, ap, ◌∙◌, none, some, List, [], ◌∷◌, length,
  take, drop, arith, u64_mod, get_elem?, ltb, ltb→lt, Bool-cases, inl, inr,
}
use mynode.Base.Result.{Error, Result, ok, err, endless, Exec, continue, Exec-cases}
use mynode.Store.{Bytes}
use mynode.Raft.Disk.{Entry, Disk, IsSound}
use mynode.Raft.Log.{Log}
use mynode.Raft.Log.Represents.{entry_at, entry_at-take}
use mynode.Raft.Log.Merge.{take-drop_next}
use mynode.Raft.Log.Valid.{IsValid}
use mynode.Raft.Log.Apply.{
  StateMachine, apply, run, applied, apply_idle, apply_ok, apply_err, applied-IsValid, next_entry,
}

module _ {Kv Sm : Type 0} (disk : Disk Kv) (machine : StateMachine Sm) where
  -- A loop that is still not at its end stands out by an error of its own.
  pub drain : ℕ → Exec (Log Kv × Sm) (Unit {0})
  drain zero s = (err endless, s)
  drain (suc f) s =
      continue (apply disk machine s).0 (λ o. elim o [ none ↦ λ s. (ok tt, s) | some _ ↦ drain f ])
        (apply disk machine s).1

  unfoldable pub apply_all : Exec (Log Kv × Sm) (Unit {0})
  unfolding drain
  apply_all s = drain (s.0.commit_index - s.0.apply_index + 1) s

module _ {Sm : Type 0} (machine : StateMachine Sm) where
  -- The commands of entries, run in their order, up to the first that fails.
  unfoldable pub replay : List Entry → Exec Sm (Unit {0})
  replay [] sm = (ok tt, sm)
  replay (e ∷ es) sm =
      continue (run machine e.command sm).0 (λ _. replay es) (run machine e.command sm).1

  pub replay_ok :
      (e : Entry) (es : List Entry) (output : Bytes) (sm sm' : Sm)
      → run machine e.command sm ≡ (ok output, sm')
      → replay (e ∷ es) sm ≡ replay es sm'
  unfolding replay
  replay_ok e es output sm sm' h = rw h

  replay_err :
      (e : Entry) (es : List Entry) (x : Error) (sm sm' : Sm)
      → run machine e.command sm ≡ (err x, sm')
      → replay (e ∷ es) sm ≡ (err x, sm')
  unfolding replay
  replay_err e es x sm sm' h = rw h

-- The entries that are committed and not yet applied.
abbrev pub pending : {Kv : Type 0} → Log Kv → List Entry → List Entry
pending l es = drop l.apply_index (take l.commit_index es)

pending-nil : (c a : ℕ) (es : List Entry) → c ≤ a → drop a (take c es) ≡ []
pending-nil zero zero es h = refl
pending-nil zero (suc a) es h = refl
pending-nil (suc c) zero es h = absurd (omega arith)
pending-nil (suc c) (suc a) [] h = refl
pending-nil (suc c) (suc a) (e ∷ es) h = pending-nil c a es (omega arith)

pending-next :
    (c a : ℕ) (es : List Entry) (e : Entry)
    → a < c
    → entry_at es (a + 1) ≡ some e
    → drop a (take c es) ≡ e ∷ drop (a + 1) (take c es)
pending-next c a es e h hit =
    let next : a + 1 ≡ suc a = omega arith in
    let here : get_elem? (take c es) a ≡ some e =
      ground (arith, entry_at-take es c (suc a), ap (entry_at es) next) in
    rw next (take-drop_next (take c es) a e here).1

module _ {Kv Sm : Type 0} {disk : Disk Kv} (sound : IsSound disk) (machine : StateMachine Sm) where
  pub record Drained (es : List Entry) (l : Log Kv) (sm : Sm)
      (r : Result (Unit {0}) × (Log Kv × Sm)) : Type 0 where
    pub result : r.0 ≡ (replay machine (pending l es) sm).0
    pub machine_state : r.1.1 ≡ (replay machine (pending l es) sm).1
    pub valid : IsValid sound r.1.0 es
    pub commit_index : r.1.0.commit_index ≡ l.commit_index
    pub complete : r.0 ≡ ok tt → r.1.0.apply_index ≡ l.commit_index

  drain_stop :
      (f : ℕ) (s s' : Log Kv × Sm)
      → apply disk machine s ≡ (ok none, s')
      → drain disk machine (suc f) s ≡ (ok tt, s')
  unfolding drain
  drain_stop f s s' h = rw h

  drain_next :
      (f : ℕ) (s s' : Log Kv × Sm) (o : ℕ × Bytes)
      → apply disk machine s ≡ (ok (some o), s')
      → drain disk machine (suc f) s ≡ drain disk machine f s'
  unfolding drain
  drain_next f s s' o h = rw h

  drain_fail :
      (f : ℕ) (s s' : Log Kv × Sm) (x : Error)
      → apply disk machine s ≡ (err x, s')
      → drain disk machine (suc f) s ≡ (err x, s')
  unfolding drain
  drain_fail f s s' x h = rw h

  -- A round that applied an entry, and the rounds after it.
  Drained-next :
      (l : Log Kv) (es : List Entry) (sm sm' : Sm) (e : Entry) (output : Bytes)
      (r : Result (Unit {0}) × (Log Kv × Sm))
      → l.apply_index < l.commit_index
      → entry_at es (l.apply_index + 1) ≡ some e
      → run machine e.command sm ≡ (ok output, sm')
      → Drained es (applied sound machine l e.term) sm' r
      → Drained es l sm r
  unfolding applied
  Drained-next l es sm sm' e output r more hit ran d =
      let chain : replay machine (pending l es) sm
          ≡ replay machine (drop (l.apply_index + 1) (take l.commit_index es)) sm' =
        ap (λ xs. replay machine xs sm) (pending-next l.commit_index l.apply_index es e more hit)
        ∙ replay_ok machine e _ output sm sm' ran in
      record {
        result = d.result ∙ sym (ap (λ p. p.0) chain);
        machine_state = d.machine_state ∙ sym (ap (λ p. p.1) chain);
        valid = d.valid;
        commit_index = d.commit_index;
        complete = d.complete;
      }

  drain-replay :
      (f : ℕ) (l : Log Kv) (es : List Entry) (sm : Sm)
      → IsValid sound l es
      → length es + 1 < u64_mod
      → l.commit_index - l.apply_index < f
      → Drained es l sm (drain disk machine f (l, sm))
  drain-replay zero l es sm v fits fuel = absurd (omega arith)
  drain-replay (suc f) l es sm v fits fuel = elim (Bool-cases (ltb l.apply_index l.commit_index)) [
    | inr idle ↦
        let end : l.commit_index ≤ l.apply_index = ground arith in
        let none_left = pending-nil l.commit_index l.apply_index es end in
        rw (drain_stop f (l, sm) (l, sm) (apply_idle sound machine l sm end)) (record {
          result = rw none_left (unfold replay in refl);
          machine_state = rw none_left (unfold replay in refl);
          valid = v;
          commit_index = refl;
          complete = λ _. omega (arith, v.applied);
        })
    | inl busy ↦
        let more = ltb→lt l.apply_index l.commit_index busy in
        let (e, hit) = next_entry sound machine v sm fits more in
        elim (Exec-cases (run machine e.command sm)) [
          | inl (output, sm', ran) ↦
              let v' = applied-IsValid sound machine e v more hit in
              rw
                (drain_next f (l, sm) _ _
                  (apply_ok sound machine v sm fits more e output sm' hit ran))
                (Drained-next l es sm sm' e output _ more hit ran (
                  drain-replay f (applied sound machine l e.term) es sm' v' fits
                    (unfold applied in omega arith)))
          | inr (x, sm', ran) ↦
              let failed =
                ap (λ xs. replay machine xs sm)
                  (pending-next l.commit_index l.apply_index es e more hit)
                ∙ replay_err machine e _ x sm sm' ran in
              rw (drain_fail f (l, sm) _ x (apply_err sound machine v sm fits more e x sm' hit ran))
                (record {
                  result = sym (ap (λ p. p.0) failed);
                  machine_state = sym (ap (λ p. p.1) failed);
                  valid = v;
                  commit_index = refl;
                  complete = λ bad. cc;
                })
        ]
  ]

  -- The apply loop of a valid log runs on the state machine the commands of exactly the entries
  -- that are committed and not yet applied, in order, up to the first that fails; the log stays
  -- valid, and without a failure all that is committed is applied. This is for a store and a
  -- serialization that keep their laws, and indexes below 2^64.
  pub apply_all-replay :
      (l : Log Kv) (es : List Entry) (sm : Sm)
      → IsValid sound l es
      → length es + 1 < u64_mod
      → Drained es l sm (apply_all disk machine (l, sm))
  unfolding apply_all
  apply_all-replay l es sm v fits =
      drain-replay (l.commit_index - l.apply_index + 1) l es sm v fits (omega arith)
