-- ===== src/Raft/Node/Advances.antt =====
-- The term and the log of a node over a step, in whatever role: the term does not go down, and the
-- log grows as Log/Grows says. What the methods that the roles share do to them.
use mynode.Base.{true, ℕ, ◌+◌, ◌≤◌, ◌≡◌, refl, String, Option, List, [], ◌∷◌, arith}
use mynode.Base.Result.{Result, ok, err, Exec, continue, ◌>>=◌, and_then}
use mynode.Raft.Disk.{Disk, IsSound}
use mynode.Raft.Log.{Log}
use mynode.Raft.Log.Term as LogTerm
use mynode.Raft.Log.Grows.{Grows, Grows-same, Grows-more, Grows-then, save_term-Grows}
use mynode.Raft.Message.{Event, Message, normalize, validate}
use mynode.Raft.Node.{Platform, RoleNode, send, send_all, broadcast, save_term, normalize_message}
use mynode.Raft.Node.Roles.{Node, candidate, follower, leader, finish}

-- The term and the log.
abbrev pub Core : Type 0 → Type 0
Core Kv = ℕ × Log Kv

abbrev pub core : {P : Platform} {R : Type 0} → RoleNode P R → Core P.Kv
core n = (n.term, n.log)

abbrev pub node_core : {P : Platform} → Node P → Core P.Kv
node_core (candidate n) = core n
node_core (follower n) = core n
node_core (leader n) = core n

pub record Advances {Kv : Type 0} {disk : Disk Kv} (sound : IsSound disk) (k : ℕ) (s t : Core Kv)
    : Type 0 where
  pub term : s.0 ≤ t.0
  pub log : Grows sound k s.1 t.1

module _ {Kv : Type 0} {disk : Disk Kv} (sound : IsSound disk) where
  pub Advances-log :
      (k : ℕ) (s t : Core Kv) → t.0 ≡ s.0 → Grows sound k s.1 t.1 → Advances sound k s t
  Advances-log k s t e g = record { term = omega (arith, e); log = g }

  pub Advances-same : (k : ℕ) (s : Core Kv) → Advances sound k s s
  Advances-same k s =
      Advances-log k s s refl
        (Grows-more sound 0 k s.1 s.1 (omega arith) (Grows-same sound s.1 s.1 refl))

  pub Advances-more :
      (j k : ℕ) (s t : Core Kv) → j ≤ k → Advances sound j s t → Advances sound k s t
  Advances-more j k s t h a = record { term = a.term; log = Grows-more sound j k s.1 t.1 h a.log }

  pub Advances-one : {s t : Core Kv} → Advances sound 0 s t → Advances sound 1 s t
  Advances-one {s} {t} a = Advances-more 0 1 s t (omega arith) a

  pub Advances-then :
      (j k : ℕ) (s t u : Core Kv)
      → Advances sound j s t
      → Advances sound k t u
      → Advances sound (j + k) s u
  Advances-then j k s t u a b = record {
    term = omega (arith, a.term, b.term);
    log = Grows-then sound j k s.1 t.1 u.1 a.log b.log;
  }

module _ {P : Platform} {R : Type 0} where
  -- A message keeps its event, and one that is valid is of no earlier term.
  pub event-normalize_message :
      (msg : Message) (n : RoleNode P R) → (normalize_message msg n).0.event ≡ msg.event
  unfolding normalize_message normalize
  event-normalize_message msg n = ground arith

  pub valid_term :
      (msg : Message) (n : RoleNode P R)
      → (normalize_message msg n).1 ≡ true
      → n.term ≤ (normalize_message msg n).0.term
  unfolding normalize_message validate
  valid_term msg n valid = ground arith

module _ {P : Platform} (sound : IsSound P.disk) where
  -- The method adds at most `k` entries, whether it succeeds or fails.
  abbrev pub Within : {R A : Type 0} → ℕ → Exec (RoleNode P R) A → Type 0
  Within {R} k m = (n : RoleNode P R) → Advances sound k (core n) (core (m n).1)

  -- If it is a node, it comes from one with the term and the log `s`.
  abbrev pub Follows : ℕ → Core P.Kv → Result (Node P) → Type 0
  Follows k s (ok n) = Advances sound k s (node_core n)
  Follows k s (err e) = Unit

  pub Follows-after :
      (k : ℕ) (s t : Core P.Kv) (r : Result (Node P))
      → Advances sound 0 s t
      → Follows k t r
      → Follows k s r
  Follows-after k s t (ok n) a f =
      Advances-more sound (0 + k) k s (node_core n) (omega arith)
        (Advances-then sound 0 k s t (node_core n) a f)
  Follows-after k s t (err e) a f = tt

  pub and_then-Follows :
      {A : Type 0} (k : ℕ) (s : Core P.Kv) (r : Result A) (f : A → Result (Node P))
      → ((a : A) → r ≡ ok a → Follows k s (f a))
      → Follows k s (and_then r f)
  and_then-Follows k s (ok a) f h = h a refl
  and_then-Follows k s (err e) f h = tt

  module _ {R : Type 0} where
    pub continue-Within :
        {A B : Type 0} (i j k : ℕ) (r : Result A) (f : A → Exec (RoleNode P R) B) (s : Core P.Kv)
        (n : RoleNode P R)
        → i + j ≤ k
        → Advances sound i s (core n)
        → ((a : A) → Within j (f a))
        → Advances sound k s (core (continue r f n).1)
    continue-Within i j k (ok a) f s n h g later =
        Advances-more sound (i + j) k s (core (f a n).1) h
          (Advances-then sound i j s (core n) (core (f a n).1) g (later a n))
    continue-Within i j k (err e) f s n h g later =
        Advances-more sound i k s (core n) (omega (arith, h)) g

    -- The same, where the rest is known at the state that is reached only.
    pub continue_at :
        {A B : Type 0} (r : Result A) (f : A → Exec (RoleNode P R) B) (s : Core P.Kv)
        (n : RoleNode P R)
        → Advances sound 0 s (core n)
        → ((a : A) → Advances sound 0 (core n) (core (f a n).1))
        → Advances sound 0 s (core (continue r f n).1)
    continue_at (ok a) f s n g later =
        Advances-more sound (0 + 0) 0 s (core (f a n).1) (omega arith)
          (Advances-then sound 0 0 s (core n) (core (f a n).1) g (later a))
    continue_at (err e) f s n g later = g

    pub bind-Within :
        {A B : Type 0} (i j k : ℕ) (m : Exec (RoleNode P R) A) (f : A → Exec (RoleNode P R) B)
        → i + j ≤ k
        → Within i m
        → ((a : A) → Within j (f a))
        → Within k (m >>= f)
    bind-Within i j k m f h g later n =
        continue-Within i j k (m n).0 f (core n) (m n).1 h (g n) later

    -- The same, where neither adds an entry.
    pub bind_still :
        {A B : Type 0} (m : Exec (RoleNode P R) A) (f : A → Exec (RoleNode P R) B)
        → Within 0 m
        → ((a : A) → Within 0 (f a))
        → Within 0 (m >>= f)
    bind_still m f = bind-Within 0 0 0 m f (omega arith)

    pub still : (k : ℕ) (n : RoleNode P R) → Advances sound k (core n) (core n)
    still k n = Advances-same sound k (core n)

    pub send-Within : (to : Option String) (e : Event) → Within 0 (send {P = P} {R = R} to e)
    unfolding send
    send-Within to e n = still 0 n

    send_all-Within :
        (peers : List String) (e : Event) → Within 0 (send_all {P = P} {R = R} peers e)
    unfolding send_all
    send_all-Within [] e = still 0
    send_all-Within (peer ∷ peers) e =
        bind_still _ _ (send-Within _ e) (λ _. send_all-Within peers e)

    pub broadcast-Within : (e : Event) → Within 0 (broadcast {P = P} {R = R} e)
    unfolding broadcast
    broadcast-Within e n = send_all-Within n.peers e n

    saved-Advances :
        (term : ℕ) (n : RoleNode P R) (r : Result (Unit {0}) × Log P.Kv)
        → n.term ≤ term
        → Grows sound 0 n.log r.1
        → Advances sound 0 (core n) (
            core
              (continue r.0
                (λ _ (m : RoleNode P R). (ok tt, record m { term = term }))
                (record n { log = r.1 })).1)
    saved-Advances term n (ok a, l) h g = record { term = h; log = g }
    saved-Advances term n (err e, l) h g = Advances-log sound 0 (core n) (n.term, l) refl g

    -- The term that is saved is not below that of the node.
    pub save_term-Advances :
        (term : ℕ) (voted_for : Option String) (n : RoleNode P R)
        → n.term ≤ term
        → Advances sound 0 (core n) (core (save_term {P = P} {R = R} term voted_for n).1)
    unfolding save_term
    save_term-Advances term voted_for n h =
        saved-Advances term n (LogTerm.save_term P.disk term voted_for n.log) h
          (save_term-Grows sound term voted_for n.log)

    pub finish-Follows :
        {A : Type 0} (k : ℕ) (into : RoleNode P R → Node P) (m : Exec (RoleNode P R) A)
        (n : RoleNode P R)
        → ((m : RoleNode P R) → node_core (into m) ≡ core m)
        → Within k m
        → Follows k (core n) (finish into m n)
    finish-Follows k into m n same h =
        and_then-Follows k (core n) (m n).0 (λ _. ok (into (m n).1))
          (λ a e. rw (same (m n).1) (h n))
