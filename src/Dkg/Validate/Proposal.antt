-- ===== src/Dkg/Validate/Proposal.antt =====
-- What `validate_proposal` accepts: src/dkg/state.rs.
-- An epoch 1 adds the checks of a first epoch; any other those of a reshare, and, for a node with
-- a state of its own, those of a remainer.
use drand_rs.Common.{
  arith, ok, ◌<◌, ◌≡◌, ◌≢◌, ◌⊎◌, >>-ok, Bool-cases, Result, if◌then◌else◌, inl, inr, length, not,
  ◌+◌, ◌==◌, ◌>>◌, ◌↔◌, ◌≤◌, all, false, some, true, ◌||◌, ◌*◌,
}
use drand_rs.Common.Int.{ℤ}
use drand_rs.Dkg.Packet.{ProposalTerms}
use drand_rs.Dkg.State.{State, DbStateError}
use drand_rs.Dkg.Status.{Status, status_eq, status_eq_iff}
use drand_rs.Dkg.Validate.{
  validate_proposal, validate_first_epoch, validate_for_all_dkgs, validate_reshare_for_remainers,
  validate_reshare_terms, addresses, contains_text, contains,
}
use drand_rs.Dkg.Validate.Admissible.{
  FirstEpoch, ForAllDkgs, Remainers, Reshare, all_dkgs_sound, FirstEpoch-sound, Remainers-sound,
  Reshare-sound, all_dkgs_complete, FirstEpoch-complete, Remainers-complete, Reshare-complete,
  last_epoch,
}
use drand_rs.Key.Group.{Group}
use drand_rs.Scheme.{Authority, Scheme}

pub IsAdmissible : (S : Scheme) → Authority → ℤ → State S → ProposalTerms → Type 0
IsAdmissible S au now current terms =
    ForAllDkgs S now current terms
    × ((terms.epoch ≡ 1) × FirstEpoch au terms
        ⊎ (terms.epoch ≢ 1)
          × Reshare S au current terms
          × ((current.status ≡ Status.fresh)
              ⊎ (current.status ≢ Status.fresh) × ((g : Group S) × Remainers S current terms g)))

module _ (S : Scheme) (au : Authority) (now : ℤ) (current : State S) (terms : ProposalTerms) where
  -- The part of the checks that depends on the epoch.
  abbrev pub Epoch : Type 0
  Epoch =
      (terms.epoch ≡ 1) × FirstEpoch au terms
      ⊎ (terms.epoch ≢ 1)
        × Reshare S au current terms
        × ((current.status ≡ Status.fresh)
            ⊎ (current.status ≢ Status.fresh) × ((g : Group S) × Remainers S current terms g))

  abbrev pub checks : Result DbStateError (Unit {0})
  checks =
      if terms.epoch == 1
      then validate_first_epoch au terms
      else validate_reshare_terms S au current terms
        >> (if not (status_eq current.status Status.fresh)
            then validate_reshare_for_remainers S current terms
            else ok tt)

  checks_sound : checks ≡ ok tt → Epoch
  checks_sound h = elim (Bool-cases (terms.epoch == 1)) [
    | inl e ↦ inl (ground arith, FirstEpoch-sound au terms (rw e at h))
    | inr n ↦
        let parts = >>-ok (validate_reshare_terms S au current terms) _ (rw n at h) in
        inr (
          ground arith,
          Reshare-sound S au current terms parts.0,
          elim (Bool-cases (status_eq current.status Status.fresh)) [
            | inl e ↦ inl ((status_eq_iff current.status Status.fresh).0 e)
            | inr m ↦ inr (
              λ e. ground (arith, status_eq_iff current.status Status.fresh),
              Remainers-sound S current terms (rw m at parts.1),
            )
          ],
        )
  ]

  checks_complete :
      terms.threshold ≤ length terms.joining + length terms.remaining → Epoch → checks ≡ ok tt
  checks_complete t (inl (one, first)) = ground (arith, FirstEpoch-complete au terms first)
  checks_complete t (inr (more, reshare, inl e)) = ground (
    arith,
    Reshare-complete S au current terms reshare,
    status_eq_iff current.status Status.fresh,
  )
  checks_complete t (inr (more, reshare, inr (n, (g, r)))) = ground (
    arith,
    Reshare-complete S au current terms reshare,
    Remainers-complete S current terms g r,
    status_eq_iff current.status Status.fresh,
  )

  -- For a current epoch below the largest u32, a proposal passes `validate_proposal` exactly when
  -- it is admissible.
  pub validate_proposal-IsAdmissible :
      current.epoch < 4294967295
      → (validate_proposal S au now current terms ≡ ok tt) ↔ IsAdmissible S au now current terms
  unfolding validate_proposal IsAdmissible
  validate_proposal-IsAdmissible small = (
    λ h.
        let parts = >>-ok (validate_for_all_dkgs S now current terms) checks h in
        (all_dkgs_sound S now current terms small parts.0, checks_sound parts.1),
    λ a. rw (all_dkgs_complete S now current terms small a.0) (checks_complete a.0.not_above a.1),
  )

-- The facts that an operation needs, at any epoch.
module _ (S : Scheme) (au : Authority) (now : ℤ) (current : State S) (terms : ProposalTerms)
    (h : validate_proposal S au now current terms ≡ ok tt) where
  pub validate_proposal-checks :
      (validate_for_all_dkgs S now current terms ≡ ok tt) × Epoch S au now current terms
  unfolding validate_proposal
  validate_proposal-checks =
      let parts =
        >>-ok (validate_for_all_dkgs S now current terms) (checks S au now current terms) h in
      (parts.0, checks_sound S au now current terms parts.1)

  pub validate_proposal-bounds :
      (current.epoch ≤ terms.epoch)
      × (terms.threshold ≤ length terms.joining + length terms.remaining)
      × (length terms.joining + length terms.remaining < 2 * terms.threshold)
  unfolding validate_for_all_dkgs
  validate_proposal-bounds =
      let e : validate_for_all_dkgs S now current terms ≡ ok tt = validate_proposal-checks.0 in
      ground arith

  -- The leader takes part in what it proposes.
  pub validate_proposal-leader :
      (contains au terms.joining terms.leader ≡ true)
      ⊎ (contains au terms.remaining terms.leader ≡ true)
  validate_proposal-leader = elim validate_proposal-checks.1 [
    | inl (one, first) ↦ inl first.leader_joins
    | inr (more, reshare, rest) ↦ inr reshare.leader_remains
  ]

-- The comparison with the last group only looks at one of the two lists: a reshare for which the
-- other checks of a remainer hold and some leaving address is not of the last group passes, with
-- whatever addresses outside of the last group among the remaining.
pub remainers_outsiders_accepted :
    (S : Scheme) (current : State S) (terms : ProposalTerms) (g : Group S)
    → current.final_group ≡ some g
    → terms.genesis_time ≡ current.genesis_time
    → terms.genesis_seed ≡ current.genesis_seed
    → all
        (λ a.
          contains_text (addresses terms.remaining) a || contains_text (addresses terms.leaving) a)
        (last_epoch g)
      ≡ true
    → all (contains_text (last_epoch g)) (addresses terms.leaving) ≡ false
    → current.threshold ≤ length terms.remaining
    → validate_reshare_for_remainers S current terms ≡ ok tt
remainers_outsiders_accepted S current terms g e t seed kept out enough =
    Remainers-complete S current terms g (record {
      group = e;
      genesis_time = t;
      genesis_seed = seed;
      all_kept = kept;
      known = inr out;
      enough_remain = enough;
    })
