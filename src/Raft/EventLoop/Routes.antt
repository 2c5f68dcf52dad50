-- ===== src/Raft/EventLoop/Routes.antt =====
-- Who gets the answers of the event loop: a response goes to the channel that a call of its ID came
-- with.
use Prim.{⊥}
use mathlib.Core.Path.{subst}
use mathlib.Core.List.{Memᴰ}
use mynode.Base.{
  String, ◌≡◌, refl, sym, ap, ◌∙◌, ◌⊎◌, inl, inr, Option, none, some, List, [], ◌∷◌, ◌++◌,
  Option-cases, if◌then◌else◌, true, false, Bool,
}
use mynode.Base.Map.{insert, lookup, lookup-insert, bytes_eq}
use mynode.Base.Text.{format}
use mynode.Base.Result.{Result, ok, err, Exec, and_then}
use mynode.Store.{Bytes}
use mynode.Raft.Message.{Event, Message, respond_error, call_id}
use mynode.Raft.Node.{Platform}
use mynode.Raft.Node.Roles.{Node}
use mynode.Raft.EventLoop.{
  queued, Ports, Ready, ticked, called, calls_closed, received, inbound_closed, outbound, Driver,
  sent_by, with_queue, with_node, with_world, take_call, respond_to, answer_local, deliver,
  take_outbound, turn, run,
}

-- What was sent to the channels of callers.
pub record IsRecording {World Tx : Type 0} (ports : Ports World Tx) : Type 0 where
  pub answers : World → List (Tx × Event)
  pub respond_lem :
      (tx : Tx) (e : Event) (w : World)
      → (ports.respond tx e w).0 ≡ ok tt
      → answers (ports.respond tx e w).1 ≡ answers w ++ (tx, e) ∷ []
  pub transmit_lem : (msg : Message) (w : World) → answers (ports.transmit msg w).1 ≡ answers w

-- The calls of a run: the channel that each came with, and its ID, if it has one.
abbrev pub calls : {Tx : Type 0} → List (Ready Tx) → List (Tx × Option Bytes)
calls [] = []
calls (called event tx ∷ more) = (tx, call_id event) ∷ calls more
calls (_ ∷ more) = calls more

abbrev pub All : {A : Type 0} → (A → Type 0) → List A → Type 0
All P [] = Unit
All P (x ∷ xs) = P x × All P xs

All-append :
    {A : Type 0} (P : A → Type 0) (xs : List A) (x : A) → All P xs → P x → All P (xs ++ x ∷ [])
All-append P [] x h p = (p, tt)
All-append P (y ∷ ys) x h p = (h.0, All-append P ys x h.1 p)

All-map :
    {A : Type 0} (P Q : A → Type 0) (xs : List A) → ((x : A) → P x → Q x) → All P xs → All Q xs
All-map P Q [] f h = tt
All-map P Q (x ∷ xs) f h = (f x h.0, All-map P Q xs f h.1)

All_members : {A : Type 0} (xs : List A) → All (λ x. Memᴰ x xs) xs
All_members [] = tt
All_members (x ∷ xs) = (
  Memᴰ.head refl,
  All-map (λ y. Memᴰ y xs) (λ y. Memᴰ y (x ∷ xs)) xs (λ y m. Memᴰ.tail m) (All_members xs),
)

All-calls :
    {Tx : Type 0} (Called : Tx × Option Bytes → Type 0) (ready : Ready Tx) (more : List (Ready Tx))
    → All Called (calls (ready ∷ more))
    → All Called (calls (ready ∷ [])) × All Called (calls more)
All-calls Called (called event tx) more c = ((c.0, tt), c.1)
All-calls Called ticked more c = (tt, c)
All-calls Called calls_closed more c = (tt, c)
All-calls Called (received msg) more c = (tt, c)
All-calls Called inbound_closed more c = (tt, c)
All-calls Called outbound more c = (tt, c)

-- The event has the ID of a call of that channel, or says that the call has none.
abbrev pub IsAnswer : {Tx : Type 0} → (Tx × Option Bytes → Type 0) → Tx × Event → Type 0
IsAnswer Called (tx, e) =
    ((id : Bytes) × (call_id e ≡ some id) × Called (tx, some id))
    ⊎ (Called (tx, none) × ((text : String) × (e ≡ respond_error [] text)))

module _ {P : Platform} {World Tx : Type 0} {ports : Ports World Tx} (recording : IsRecording ports)
    (Called : Tx × Option Bytes → Type 0) where
  record Routed (d : Driver P World Tx) : Type 0 where
    registered : (id : Bytes) (tx : Tx) → lookup id d.response_txs ≡ some tx → Called (tx, some id)
    answered : All (IsAnswer Called) (recording.answers d.world)

  abbrev LoopRouted : Result (Driver P World Tx) → Type 0
  LoopRouted (ok d) = Routed d
  LoopRouted (err e) = Unit

  with_node-Routed :
      (r : Result (Node (queued P))) (d : Driver P World Tx)
      → Routed d
      → LoopRouted (and_then r λ n. ok (record d { node = n }))
  with_node-Routed (ok n) d h = record { registered = h.registered; answered = h.answered }
  with_node-Routed (err e) d h = tt

  with_world-Routed :
      (m : Exec World (Unit {0})) (d : Driver P World Tx)
      → Routed d
      → ((m d.world).0 ≡ ok tt → All (IsAnswer Called) (recording.answers (m d.world).1))
      → LoopRouted (with_world ports m d)
  unfolding with_world
  with_world-Routed m d h k = written (m d.world) k
    where
      written :
          (r : Result (Unit {0}) × World)
          → (r.0 ≡ ok tt → All (IsAnswer Called) (recording.answers r.1))
          → LoopRouted (and_then r.0 λ _. ok (record d { world = r.1 }))
      written (ok _, w) k = record { registered = h.registered; answered = k refl }
      written (err e, w) k = tt

  respond-Routed :
      (tx : Tx) (e : Event) (d : Driver P World Tx)
      → Routed d
      → IsAnswer Called (tx, e)
      → LoopRouted (with_world ports (ports.respond tx e) d)
  respond-Routed tx e d h answer = with_world-Routed (ports.respond tx e) d h (λ sent.
      rw (recording.respond_lem tx e d.world sent)
        (All-append (IsAnswer Called) (recording.answers d.world) (tx, e) h.answered answer))

  register-Routed :
      (id : Bytes) (tx : Tx) (d : Driver P World Tx)
      → Called (tx, some id)
      → Routed d
      → Routed (record d { response_txs = insert id tx d.response_txs })
  register-Routed id tx d c h = record {
    registered = λ j t found.
        newest (bytes_eq.beq id j) j t (bytes_eq.beq_iff id j).0
          (sym (lookup-insert id tx d.response_txs j) ∙ found);
    answered = h.answered;
  }
    where
      newest :
          (same : Bool) (j : Bytes) (t : Tx)
          → (same ≡ true → id ≡ j)
          → (if same then some tx else lookup j d.response_txs) ≡ some t
          → Called (t, some j)
      newest true j t e found =
          let here : tx ≡ t = cc in subst Called (λ i. (here i, some (e refl i))) c
      newest false j t e found = h.registered j t found

  take_call-Routed :
      (id : Option Bytes) (event : Event) (tx : Tx) (d : Driver P World Tx)
      → Called (tx, id)
      → Routed d
      → LoopRouted (take_call ports id event tx d)
  unfolding take_call with_node
  take_call-Routed (some id) event tx d c h =
      with_node-Routed _ (record d { response_txs = insert id tx d.response_txs })
        (register-Routed id tx d c h)
  take_call-Routed none event tx d c h =
      respond-Routed tx
        (respond_error [] (format ("Call ID not found for event " ∷ P.debug_event event ∷ []))) d h
        (inr (c, (_, refl)))

  deliver-Routed :
      (to : Option String) (msg : Message) (d : Driver P World Tx)
      → Routed d
      → LoopRouted (deliver ports to msg d)
  unfolding deliver answer_local respond_to
  deliver-Routed (some to) msg d h =
      with_world-Routed (ports.transmit msg) d h
        (λ sent. rw (recording.transmit_lem msg d.world) h.answered)
  deliver-Routed none msg d h = elim (Option-cases (call_id msg.event)) [
    | inl no_call ↦ rw no_call h
    | inr (id, found) ↦ rw found (elim (Option-cases (lookup id d.response_txs)) [
      | inl nobody ↦ rw nobody h
      | inr (tx, at) ↦
          rw at (respond-Routed tx msg.event d h (inl (id, found, h.registered id tx at)))
    ])
  ]

  take_outbound-Routed :
      (messages : List Message) (d : Driver P World Tx)
      → Routed d
      → LoopRouted (take_outbound ports messages d)
  unfolding take_outbound
  take_outbound-Routed [] d h = h
  take_outbound-Routed (msg ∷ rest) d h =
      deliver-Routed msg.receiver msg (record d { node = with_queue P rest d.node })
        (record { registered = h.registered; answered = h.answered })

  turn-Routed :
      (ready : Ready Tx) (d : Driver P World Tx)
      → All Called (calls (ready ∷ []))
      → Routed d
      → LoopRouted (turn ports ready d)
  unfolding turn with_node
  turn-Routed ticked d c h = with_node-Routed _ d h
  turn-Routed (called event tx) d c h = take_call-Routed (call_id event) event tx d c.0 h
  turn-Routed calls_closed d c h = tt
  turn-Routed (received msg) d c h = with_node-Routed _ d h
  turn-Routed inbound_closed d c h = tt
  turn-Routed outbound d c h = take_outbound-Routed (sent_by P d.node) d h

  then-Routed :
      (r : Result (Driver P World Tx)) (f : Driver P World Tx → Result (Driver P World Tx))
      → LoopRouted r
      → ((d : Driver P World Tx) → Routed d → LoopRouted (f d))
      → LoopRouted (and_then r f)
  then-Routed (ok d) f h later = later d h
  then-Routed (err e) f h later = tt

  run-Routed :
      (schedule : List (Ready Tx)) (d : Driver P World Tx)
      → All Called (calls schedule)
      → Routed d
      → LoopRouted (run ports schedule d)
  unfolding run
  run-Routed [] d c h = h
  run-Routed (ready ∷ more) d c h =
      let (now, later) = All-calls Called ready more c in
      then-Routed (turn ports ready d) (run ports more) (turn-Routed ready d now h)
        (λ d' h'. run-Routed more d' later h')

module _ {P : Platform} {World Tx : Type 0} {ports : Ports World Tx}
    (recording : IsRecording ports) where
  -- While the loop goes on, all it sent to callers are answers to calls of the run.
  abbrev pub AnswersTo : List (Tx × Option Bytes) → Result (Driver P World Tx) → Type 0
  AnswersTo asked (ok d) = All (IsAnswer (λ call. Memᴰ call asked)) (recording.answers d.world)
  AnswersTo asked (err e) = Unit

  -- Over any run of the event loop that starts without calls and without answers, as long as the
  -- loop goes on, whatever was sent to a caller is an event with the ID of a call of the run that
  -- came with the channel of that caller, or the error that such a call has no ID. What is sent to
  -- callers is recorded.
  pub run-AnswersTo :
      (schedule : List (Ready Tx)) (d : Driver P World Tx)
      → d.response_txs ≡ []
      → recording.answers d.world ≡ []
      → AnswersTo (calls schedule) (run ports schedule d)
  unfolding lookup
  run-AnswersTo schedule d no_calls no_answers = recorded (run ports schedule d) (
      run-Routed recording (λ call. Memᴰ call (calls schedule)) schedule d
        (All_members (calls schedule))
        (record {
          registered = λ id tx found. absurd (no_entry id tx found);
          answered = rw no_answers tt;
        }))
    where
      no_entry : (id : Bytes) (tx : Tx) → lookup id d.response_txs ≡ some tx → ⊥
      no_entry id tx found =
          let missing : lookup id d.response_txs ≡ none = ap (lookup id) no_calls in cc

      recorded :
          (r : Result (Driver P World Tx))
          → LoopRouted recording (λ call. Memᴰ call (calls schedule)) r
          → AnswersTo (calls schedule) r
      recorded (ok d') h = h.answered
      recorded (err e) h = tt
