-- ===== src/Dkg/Execution/Finish/Handover.antt =====
-- The end of a run of the DKG: src/dkg/execution.rs.
use drand_rs.Chain.Time.{time_of_round}
use drand_rs.Common.{
  arith, inl, inr, refl, ℕ, ◌-◌, ◌≡◌, some, sub_u64, true, Option-cases, ok, subst, ap, ◌∙◌, sym,
}
use drand_rs.Common.Int.{ℤ}
use drand_rs.Dkg.Bundle.{map_all}
use drand_rs.Dkg.Execution.{sorted_participants}
use drand_rs.Dkg.Execution.Finish.{
  transition_time_of, DkgOutput, World, as_group, hand_over, seeded, Outcome, qualified, NodeFiles,
  finish, process_dkg_output, unseeded, save_output,
}
use drand_rs.Dkg.Execution.Finish.Times.{
  IsExact, first_round_of, sub_u64-exact, transition_time_of-bounds, transition_time_of-round,
}
use drand_rs.Dkg.State.{State}
use drand_rs.Dkg.Store.{save_finished}
use drand_rs.Dkg.Transition.{complete}
use drand_rs.Key.Group.{Group, KeyShare}
use drand_rs.Scheme.{Authority, Scheme}

module _ (S : Scheme) (au : Authority) where
  seeded-times :
      (group : Group S) {seeded_group : Group S}
      → seeded S au group ≡ some seeded_group
      → (seeded_group.period ≡ group.period) × (seeded_group.genesis_time ≡ group.genesis_time)
  unfolding seeded
  seeded-times group h = ground arith

  -- What the code reads from the new group.
  as_group-times :
      (output : DkgOutput S) (current : State S) (genesis transition_time : ℕ) {group : Group S}
      {share : KeyShare S}
      → as_group S au output current genesis transition_time ≡ some (group, share)
      → (group.period ≡ current.beacon_period) × (group.genesis_time ≡ genesis)
  unfolding as_group unseeded
  as_group-times output current genesis transition_time {group} h =
      elim (Option-cases (map_all (qualified S au (sorted_participants S current)) output.qual)) [
        | inl none_there ↦ absurd (cc (rw (none_there, as_group) at h))
        | inr (nodes, found) ↦
            let start = unseeded S au output current genesis transition_time nodes in
            elim (Option-cases (seeded S au start)) [
              | inl none_there ↦ absurd (cc (rw (found, none_there, as_group) at h))
              | inr (g, seed) ↦
                  let same : g ≡ group = cc (rw (found, seed, as_group) at h) in
                  let times = seeded-times start seed in
                  subst (λ x. (x.period ≡ current.beacon_period) × (x.genesis_time ≡ genesis)) same
                    times
            ]
      ]

  hand_over-new_epoch :
      (w : World) (current : State S) (genesis : ℕ) (group : Group S)
      → IsExact current w.now genesis
      → group.period ≡ current.beacon_period
      → group.genesis_time ≡ genesis
      → w.chain_open ≡ true
      → hand_over S au w group (transition_time_of S au current w.now genesis)
        ≡ Outcome.new_epoch (first_round_of current w.now genesis) (
            sub_u64 (transition_time_of S au current w.now genesis) current.beacon_period
            - w.woken_at)
  unfolding hand_over
  hand_over-new_epoch w current genesis group x same_period same_genesis open_chain =
      let (there, back) = transition_time_of-round S au current w.now genesis x in
      rw (same_period, same_genesis, back, there, open_chain) (ground arith)

  finish-ok :
      (w : World) (files : NodeFiles S) (current completed : State S) (group : Group S)
      (share : KeyShare S) (transition_time : ℕ)
      → complete S au w.completed_at current group share ≡ ok completed
      → files.dkg.exists ≡ true
      → finish S au w files current group share transition_time ≡ (
        record files {
          dkg = record { exists = true; current = some completed; finished = some completed };
        },
        hand_over S au w group transition_time,
      )
  unfolding finish save_finished
  finish-ok w files current completed group share transition_time done there =
      rw (done, there, finish) refl

  -- A run whose group is formed, whose files are written and whose state can be completed in time
  -- always hands over: the check of the transition's time never refuses.
  pub process_dkg_output-new_epoch :
      (w : World) (files : NodeFiles S) (output : DkgOutput S) (current completed : State S)
      (genesis : ℕ) {group : Group S} {share : KeyShare S}
      → IsExact current w.now genesis
      → current.genesis_time.seconds ≡ ℤ.pos genesis
      → as_group S au output current genesis (transition_time_of S au current w.now genesis)
        ≡ some (group, share)
      → w.share_saved ≡ true
      → w.group_saved ≡ true
      → complete S au w.completed_at current group share ≡ ok completed
      → files.dkg.exists ≡ true
      → w.chain_open ≡ true
      → (process_dkg_output S au w files output current ≡ (
        record {
          share = some share;
          group = some group;
          dkg = record { exists = true; current = some completed; finished = some completed };
        },
        Outcome.new_epoch (first_round_of current w.now genesis) (
            time_of_round current.beacon_period genesis (first_round_of current w.now genesis)
            - current.beacon_period
            - w.woken_at),
      ))
  unfolding process_dkg_output save_output
  process_dkg_output-new_epoch w files output current completed genesis {group} {share} x at formed
        s g done there open_chain =
      let (same_period, same_genesis) =
        as_group-times output current genesis (transition_time_of S au current w.now genesis)
          formed in
      let starts : process_dkg_output S au w files output current
          ≡ save_output S au w files output current genesis =
        ap
          (λ z. elim z [
            | ℤ.pos n ↦ save_output S au w files output current n
            | ℤ.negsuc _ ↦ (files, Outcome.panic)
          ])
          at in
      let told =
        hand_over-new_epoch w current genesis group x same_period same_genesis open_chain in
      let (low, high) = transition_time_of-bounds S au current w.now genesis x in
      let at_round = (transition_time_of-round S au current w.now genesis x).0 in
      let last =
        sub_u64-exact current.beacon_period _ (omega (arith, low, x.period_before)) high
        ∙ ap (λ t. t - current.beacon_period) (sym at_round) in
      let kept : NodeFiles S = record {
        share = some share;
        group = some group;
        dkg = record { exists = true; current = some completed; finished = some completed };
      } in
      let saved =
        finish-ok w (record files { share = some share; group = some group }) current completed
          group share (transition_time_of S au current w.now genesis) done there in
      starts
      ∙ rw (formed, saved, told, s, g, save_output)
          (ap
            (λ d. (kept, Outcome.new_epoch (first_round_of current w.now genesis) (d - w.woken_at)))
            last)
