-- ===== src/Raft/Node/Keeps.antt =====
-- The term and the vote of a follower, as one state follows another: what Votes shows of messages.
use mynode.Base.{◌≤◌, String, ◌≡◌, refl, sym, ap, ◌∙◌, Option, some, arith}
use mynode.Base.Text.{is_numeric}
use mynode.Base.Map.{bytes_eq}
use mynode.Base.Result.{ok}
use mynode.Base.Preserves.{IsOrder, Preserves}
use mynode.Raft.Disk.{Disk, IsSound}
use mynode.Raft.Log as Log
use mynode.Raft.Log.Represents.{SameOthers}
use mynode.Raft.Log.Term as LogTerm
use mynode.Raft.Message.{Event}
use mynode.Raft.Node.{Platform, RoleNode, send}
use mynode.Raft.Node.Roles.{Follower}

module _ {Kv : Type 0} {disk : Disk Kv} (sound : IsSound disk) where
  load_term-others :
      (l m : Log.Log Kv)
      → SameOthers sound l.kv m.kv
      → LogTerm.load_term disk m ≡ LogTerm.load_term disk l
  unfolding LogTerm.load_term is_numeric
  load_term-others l m h =
      rw
        (
          sound.store.get_lem "term" m.kv,
          sound.store.get_lem "term" l.kv,
          sound.store.get_lem "voted_for" m.kv,
          sound.store.get_lem "voted_for" l.kv,
          h "term" refl,
          h "voted_for" refl,
        )
        refl

module _ {P : Platform} (sound : IsSound P.disk) where
  -- The store has the term of the follower, and its vote.
  abbrev pub Saved : RoleNode P Follower → Type 0
  Saved n = LogTerm.load_term P.disk n.log ≡ ok (n.term, n.role.voted_for)

  pub record Keeps (n m : RoleNode P Follower) : Type 0 where
    pub saved : Saved n → Saved m
    pub term : n.term ≤ m.term
    pub voted_for :
        (v : String) → n.role.voted_for ≡ some v → m.term ≡ n.term → m.role.voted_for ≡ some v

  pub Keeps-IsOrder : IsOrder Keeps
  Keeps-IsOrder = record {
    same = λ n. record { saved = λ s. s; term = omega arith; voted_for = λ v e t. e };
    then = λ n m k a b. record {
      saved = λ s. b.saved (a.saved s);
      term = omega (arith, a.term, b.term);
      voted_for = λ v e t.
          b.voted_for v (a.voted_for v e (omega (arith, a.term, b.term, t)))
            (omega (arith, a.term, b.term, t));
    };
  }

  pub Keeps-unchanged :
      (n m : RoleNode P Follower)
      → m.term ≡ n.term
      → m.role.voted_for ≡ n.role.voted_for
      → SameOthers sound n.log.kv m.log.kv
      → Keeps n m
  Keeps-unchanged n m t v h = record {
    saved = λ s. load_term-others sound n.log m.log h ∙ s ∙ (λ i. ok (sym t i, sym v i));
    term = omega (arith, t);
    voted_for = λ w e _. v ∙ e;
  }

  -- A term and a vote that are saved: the term is no earlier one, and a vote of the same term stays.
  pub Keeps-save :
      (n m : RoleNode P Follower)
      → m.log ≡ (LogTerm.save_term P.disk m.term m.role.voted_for n.log).1
      → n.term ≤ m.term
      → ((v : String) → n.role.voted_for ≡ some v → m.term ≡ n.term → m.role.voted_for ≡ some v)
      → Keeps n m
  Keeps-save n m log later vote = record {
    saved = λ s.
        ap (LogTerm.load_term P.disk) log
        ∙ (LogTerm.load-save_term sound m.term m.role.voted_for n.log).1;
    term = later;
    voted_for = vote;
  }

  pub send-Keeps :
      (to : Option String) (e : Event) → Preserves Keeps (send {P = P} {R = Follower} to e)
  unfolding send
  send-Keeps to e n = Keeps-unchanged n _ refl refl (λ k h. refl)
