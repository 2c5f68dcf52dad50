-- ===== src/Raft/Node/Follower.antt =====
-- raft/node/follower.rs: how a follower takes a message. Its ticks are in `Candidate`.
pub mod Advances
use mynode.Base.{
  ℕ, String, Bool, true, false, not, ◌&&◌, Option, none, some, ltb, ◌==◌, str_eq, if◌then◌else◌,
  List,
}
use mynode.Base.Map.{insert, lookup, remove, bytes_eq}
use mynode.Base.Result.{
  Result, ok, err, raft_base_not_found, Exec, ◌>>=◌, ◌>>◌, pure, raise, reads, modify,
}
use mynode.Store.{Bytes}
use mynode.Raft.Log as Log
use mynode.Raft.Disk.{Entry}
use mynode.Raft.Message.{
  Event, Message, heartbeat, confirm_leader, solicit_vote, grant_vote, replicate_entries,
  accept_entries, reject_entries, read_state, mutate_state, respond_state, respond_error, is_none,
}
use mynode.Raft.Node.{Platform, RoleNode, on_log, with_timeout, send, normalize_message, save_term}
use mynode.Raft.Node.Roles.{Follower, Node, new_follower, follower, finish}

pub is_same : Option String → Option String → Bool
is_same (some leader) (some claimer) = str_eq claimer leader
is_same _ _ = false

-- Whether the vote of this term went to another node than the sender.
unfoldable pub voted_for_other : Option String → Option String → Bool
voted_for_other (some voted_for) (some sender) = not (str_eq voted_for sender)
voted_for_other _ _ = false

module _ {P : Platform} where
  unfoldable pub is_message_sent_from_leader : Option String → RoleNode P Follower → Bool
  unfolding is_same
  is_message_sent_from_leader sender n = is_same n.role.leader sender

  -- A message of a later term makes its sender the leader of that term, with no vote cast in it.
  unfoldable pub discover_term : Message → String → Exec (RoleNode P Follower) (Unit {0})
  discover_term msg sender n =
      if ltb n.term msg.term
      then (save_term msg.term none >> modify (with_timeout (new_follower (some sender) none))) n
      else (ok tt, n)

  -- Without a leader, the sender of any message is taken for it.
  unfoldable pub discover_leader : String → Exec (RoleNode P Follower) (Unit {0})
  discover_leader sender n =
      if is_none n.role.leader
      then (ok tt, with_timeout (new_follower (some sender) n.role.voted_for) n)
      else (ok tt, n)

  unfoldable pub discover_from : Message → Option String → Exec (RoleNode P Follower) (Unit {0})
  discover_from msg none = pure tt
  discover_from msg (some sender) = discover_term msg sender >> discover_leader sender

  unfoldable pub discover_message : Message → Exec (RoleNode P Follower) (Unit {0})
  unfolding discover_term discover_leader discover_from
  discover_message msg = discover_from msg msg.sender

  -- Whether the log of the node is ahead of the candidate's.
  pub log_is_ahead : ℕ → ℕ → RoleNode P Follower → Bool
  log_is_ahead last_index last_term n =
      if ltb last_term n.log.last_term
      then true
      else (last_term == n.log.last_term) && ltb last_index n.log.last_index

  unfoldable pub cast_vote : Option String → Exec (RoleNode P Follower) (Unit {0})
  cast_vote none n = (ok tt, n)
  cast_vote (some sender) n =
      (do
        send (some sender) grant_vote
        save_term n.term (some sender)
        modify λ n. record n { role = record n.role { voted_for = some sender } })
        n

  unfoldable pub on_solicit_vote : Option String → ℕ → ℕ → Exec (RoleNode P Follower) (Unit {0})
  unfolding voted_for_other log_is_ahead cast_vote
  on_solicit_vote sender last_index last_term n =
      if voted_for_other n.role.voted_for sender
      then (ok tt, n)
      else if log_is_ahead last_index last_term n
      then (ok tt, n)
      else cast_vote sender n

  unfoldable pub on_confirmed : Option String → ℕ → Bool → Exec (RoleNode P Follower) (Unit {0})
  on_confirmed sender commit_index has_committed =
      send sender (confirm_leader commit_index has_committed)
      >> (if has_committed
          then (on_log (Log.commit P.disk commit_index) >>= λ _. pure tt)
          else pure tt)

  unfoldable pub on_heartbeat : Option String → ℕ → ℕ → Exec (RoleNode P Follower) (Unit {0})
  unfolding on_confirmed
  on_heartbeat sender commit_index commit_term n =
      if is_message_sent_from_leader sender n
      then (reads (λ n. Log.has P.disk commit_index commit_term n.log)
            >>= on_confirmed sender commit_index)
          n
      else (ok tt, n)

  -- The answer to the leader, by what `splice` returned.
  unfoldable pub answer_splice : Option String → Result ℕ → Exec (RoleNode P Follower) (Unit {0})
  answer_splice sender (ok last_index) = send sender (accept_entries last_index)
  answer_splice sender (err (raft_base_not_found _ _)) = send sender reject_entries
  answer_splice sender (err e) = raise e

  unfoldable pub on_replicate_entries :
      Option String → ℕ → ℕ → List Entry → Exec (RoleNode P Follower) (Unit {0})
  unfolding answer_splice
  on_replicate_entries sender base_index base_term entries n =
      if is_message_sent_from_leader sender n
      then (let r = on_log (Log.splice P.disk base_index base_term entries) n in
          answer_splice sender r.0 r.1)
      else (ok tt, n)

  -- A call is noted with its sender, and passed on to the leader.
  unfoldable pub proxy_call : Option String → Bytes → Event → Exec (RoleNode P Follower) (Unit {0})
  proxy_call sender id event n =
      send n.role.leader event
        (record n { role = record n.role { proxy_calls = insert id sender n.role.proxy_calls } })

  -- A response goes to the sender of the call, once.
  unfoldable pub answer_proxy :
      Option (Option String) → Bytes → Event → Exec (RoleNode P Follower) (Unit {0})
  answer_proxy none id event n = (ok tt, n)
  answer_proxy (some to) id event n =
      send to event
        (record n { role = record n.role { proxy_calls = remove id n.role.proxy_calls } })

  unfoldable pub on_event : Option String → Event → Exec (RoleNode P Follower) (Unit {0})
  unfolding proxy_call answer_proxy
  on_event sender (heartbeat commit_index commit_term) n =
      on_heartbeat sender commit_index commit_term n
  on_event sender (solicit_vote last_index last_term) n =
      on_solicit_vote sender last_index last_term n
  on_event sender (replicate_entries base_index base_term entries) n =
      on_replicate_entries sender base_index base_term entries n
  on_event sender (read_state id command) n = proxy_call sender id (read_state id command) n
  on_event sender (mutate_state id command) n = proxy_call sender id (mutate_state id command) n
  on_event sender (respond_state id response) n =
      answer_proxy (lookup id n.role.proxy_calls) id (respond_state id response) n
  on_event sender (respond_error id error) n =
      answer_proxy (lookup id n.role.proxy_calls) id (respond_error id error) n
  on_event sender (confirm_leader _ _) n = (ok tt, n)
  on_event sender grant_vote n = (ok tt, n)
  on_event sender (accept_entries _) n = (ok tt, n)
  on_event sender reject_entries n = (ok tt, n)

  unfoldable pub see_leader : Message → Exec (RoleNode P Follower) (Unit {0})
  see_leader msg n =
      if is_message_sent_from_leader msg.sender n
      then (ok tt, record n { role = record n.role { leader_seen_ticks = 0 } })
      else (ok tt, n)

  -- What a follower does with a valid message.
  unfoldable pub receive : Message → Exec (RoleNode P Follower) (Unit {0})
  unfolding see_leader
  receive msg = do discover_message msg; see_leader msg; on_event msg.sender msg.event

  unfoldable pub step : Message → RoleNode P Follower → Result (Node P)
  step msg n =
      let m = normalize_message msg n in
      if m.1 then finish follower (receive m.0) n else ok (follower n)
