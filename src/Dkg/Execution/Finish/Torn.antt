-- ===== src/Dkg/Execution/Finish/Torn.antt =====
-- A run that completes too late: src/dkg/execution.rs.
use drand_rs.Common.{ap, err, refl, some, true, ℕ, ◌∙◌, ◌≡◌}
use drand_rs.Common.Int.{ℤ}
use drand_rs.Dkg.Execution.Finish.{
  Outcome, DkgOutput, NodeFiles, World, as_group, finish, process_dkg_output, save_output,
  transition_time_of,
}
use drand_rs.Dkg.State.{DbStateError, State}
use drand_rs.Dkg.Status.{Status, is_valid_state_change}
use drand_rs.Dkg.Transition.{complete}
use drand_rs.Dkg.Validate.{reached}
use drand_rs.Key.Group.{Group, KeyShare}
use drand_rs.Scheme.{Authority, Scheme}

module _ (S : Scheme) (au : Authority) where
  complete-late :
      (now : ℤ) (current : State S) (group : Group S) (share : KeyShare S)
      → current.status ≡ Status.executing
      → reached now current.timeout ≡ true
      → complete S au now current group share ≡ err DbStateError.timeout_reached
  unfolding complete is_valid_state_change
  complete-late now current group share executing late = rw (executing, late) refl

  -- An executing state whose timeout is reached when the run has ended: the share and the group of the
  -- run are in their files, while the files of the DKG keep the state as it was.
  pub process_dkg_output-torn :
      (w : World) (files : NodeFiles S) (output : DkgOutput S) (current : State S) (genesis : ℕ)
      {group : Group S} {share : KeyShare S}
      → current.genesis_time.seconds ≡ ℤ.pos genesis
      → as_group S au output current genesis (transition_time_of S au current w.now genesis)
        ≡ some (group, share)
      → w.share_saved ≡ true
      → w.group_saved ≡ true
      → current.status ≡ Status.executing
      → reached w.completed_at current.timeout ≡ true
      → process_dkg_output S au w files output current ≡ (
        record { share = some share; group = some group; dkg = files.dkg },
        Outcome.not_completed DbStateError.timeout_reached,
      )
  unfolding process_dkg_output save_output finish
  process_dkg_output-torn w files output current genesis {group} {share} at formed s g executing
        late =
      let starts : process_dkg_output S au w files output current
          ≡ save_output S au w files output current genesis =
        ap
          (λ z. elim z [
            | ℤ.pos n ↦ save_output S au w files output current n
            | ℤ.negsuc _ ↦ (files, Outcome.panic)
          ])
          at in
      let refused = complete-late w.completed_at current group share executing late in
      starts ∙ rw (formed, refused, s, g, save_output, finish) refl
