-- ===== src/Dkg/Execution/Finish.antt =====
-- What a node does with the output of a DKG: `process_dkg_output` and `as_group` of
-- src/dkg/execution.rs. Each step that can fail ends the task.
pub mod Times
pub mod Handover
pub mod Torn
use drand_rs.Chain.Time.{current_round, time_of_round}
use drand_rs.Common.{
  Bool, List, Option, add_u64, err, get_elem?, if◌then◌else◌, is_empty, none, not, ok, some,
  sub_u64, ℕ, ◌-◌, ◌==◌,
}
use drand_rs.Common.Int.{ℤ}
use drand_rs.Dkg.Bundle.{map_all}
use drand_rs.Dkg.Execution.{DkgNode, sorted_participants}
use drand_rs.Dkg.Packet.{Participant}
use drand_rs.Dkg.Proto.{participant}
use drand_rs.Dkg.State.{DbStateError, State}
use drand_rs.Dkg.Store.{DkgStore, DkgStoreError, save_finished}
use drand_rs.Dkg.Transition.{complete}
use drand_rs.Key.Group.{hash, Group, KeyShare, Node}
use drand_rs.Scheme.{Authority, Scheme}

-- ROUNDS_UNTIL_TRANSITION of src/chain/time.rs.
abbrev pub rounds_until_transition : ℕ
rounds_until_transition = 10

-- `energon`'s output: the qualified nodes, and the commitments with the private share.
pub record DkgOutput (S : Scheme) : Type 0 where
  pub qual : List (DkgNode S)
  pub key : KeyShare S

-- The files of a node that a run of the DKG replaces.
pub record NodeFiles (S : Scheme) : Type 0 where
  pub share : Option (KeyShare S)
  pub group : Option (Group S)
  pub dkg : DkgStore S

-- Whether the writes of the share and the group succeed, whether the chain's receiver is there, and
-- the clock: at the output, at the completion, and before the sleep.
pub record World : Type 0 where
  pub share_saved : Bool
  pub group_saved : Bool
  pub chain_open : Bool
  pub now : ℕ  -- u64
  pub completed_at : ℤ
  pub woken_at : ℕ  -- u64

-- How the task ends: NewEpoch is sent after a sleep of `delta` seconds, or the node logs an error.
pub data Outcome : Type 0 where
  new_epoch : (first_round delta : ℕ) → Outcome
  chain_closed : (delta : ℕ) → Outcome
  share_not_saved group_not_saved : Outcome
  not_completed : DbStateError → Outcome
  not_stored : DkgStoreError → Outcome
  invalid_offset : (expected got : ℕ) → Outcome
  panic : Outcome

unfoldable pub reshare_time : (now period genesis : ℕ) → ℕ
reshare_time now period genesis =
    time_of_round period genesis
      (add_u64 (current_round now period genesis) rounds_until_transition)

module _ (S : Scheme) (au : Authority) where
  unfoldable pub qualified : List Participant → DkgNode S → Option (Node S)
  qualified all_sorted node = elim (get_elem? all_sorted node.index) [
    | none ↦ none
    | some participant ↦ elim (S.deserialize_sig participant.signature) [
      | none ↦ none
      | some signature ↦ some (record {
        identity = record {
          address = participant.address;
          key = node.public;
          signature = signature;
        };
        index = node.index;
      })
    ]
  ]

  -- The seed is the group's hash where there is none yet.
  unfoldable pub seeded : Group S → Option (Group S)
  seeded group =
      if is_empty group.genesis_seed
      then elim (hash S group) [
        | none ↦ none
        | some seed ↦ some (record group { genesis_seed = seed })
      ]
      else some group

  -- The group with the qualified nodes, before its seed.
  unfoldable pub unseeded :
      DkgOutput S → State S → (genesis_time transition_time : ℕ) → List (Node S) → Group S
  unseeded output current genesis_time transition_time nodes = record {
    threshold = current.threshold;
    period = current.beacon_period;
    catchup_period = current.catchup_period;
    genesis_time = genesis_time;
    transition_time = transition_time;
    genesis_seed = current.genesis_seed;
    beacon_id = current.beacon_id;
    nodes = nodes;
    dist_key = output.key.commits;
  }

  -- Nothing where the code panics: a qualified node that is not among the sorted ones, a signature
  -- that is no point, or a key that does not serialize.
  unfoldable pub as_group :
      DkgOutput S → State S → (genesis_time transition_time : ℕ) → Option (Group S × KeyShare S)
  unfolding qualified seeded unseeded
  as_group output current genesis_time transition_time =
      elim (map_all (qualified (sorted_participants S current)) output.qual) [
        | none ↦ none
        | some nodes ↦ elim (seeded (unseeded output current genesis_time transition_time nodes)) [
          | none ↦ none
          | some group ↦ some (group, output.key)
        ]
      ]

  unfoldable pub transition_time_of : State S → (now genesis : ℕ) → ℕ
  unfolding reshare_time
  transition_time_of current now genesis =
      if current.epoch == 1 then genesis else reshare_time now current.beacon_period genesis

  -- The check of the transition's time, the sleep until the last round before it, and the message.
  unfoldable pub hand_over : World → Group S → (transition_time : ℕ) → Outcome
  hand_over w group transition_time =
      let t_round = current_round transition_time group.period group.genesis_time in
      let t_time = time_of_round group.period group.genesis_time t_round in
      let delta = sub_u64 transition_time group.period - w.woken_at in
      if not (t_time == transition_time)
      then Outcome.invalid_offset t_time transition_time
      else if w.chain_open
      then Outcome.new_epoch t_round delta
      else Outcome.chain_closed delta

  -- The state is completed and stored, and the chain is told.
  unfoldable pub finish :
      World
      → NodeFiles S
      → State S
      → Group S
      → KeyShare S
      → (transition_time : ℕ) → NodeFiles S × Outcome
  unfolding hand_over
  finish w files current group share transition_time =
      elim (complete S au w.completed_at current group share) [
        | err e ↦ (files, Outcome.not_completed e)
        | ok completed ↦ elim (save_finished files.dkg completed) [
          | err e ↦ (files, Outcome.not_stored e)
          | ok dkg ↦ (record files { dkg = dkg }, hand_over w group transition_time)
        ]
      ]

  -- The files of the share and the group, and then the state.
  unfoldable pub save_output :
      World → NodeFiles S → DkgOutput S → State S → (genesis : ℕ) → NodeFiles S × Outcome
  unfolding as_group transition_time_of
  save_output w files output current genesis =
      let transition_time = transition_time_of current w.now genesis in
      elim (as_group output current genesis transition_time) [
        | none ↦ (files, Outcome.panic)
        | some (group, share) ↦
            if not w.share_saved
            then (files, Outcome.share_not_saved)
            else if not w.group_saved
            then (record files { share = some share }, Outcome.group_not_saved)
            else finish w (record files { share = some share; group = some group }) current group
                share transition_time
      ]

  -- A genesis time before the epoch panics.
  unfoldable pub process_dkg_output :
      World → NodeFiles S → DkgOutput S → State S → NodeFiles S × Outcome
  unfolding save_output
  process_dkg_output w files output current = elim current.genesis_time.seconds [
    | ℤ.pos genesis ↦ save_output w files output current genesis
    | ℤ.negsuc _ ↦ (files, Outcome.panic)
  ]
