-- ===== src/Dkg/Validate/Admissible.antt =====
-- What the checks of a proposal accept, described without the order of the tests.
use drand_rs.Common.{
  map, some, ◌||◌, Option-cases, inl, inr, ◌≡◌, ◌⊎◌, ◌+◌, ◌*◌, ◌≤◌, ◌<◌, true, all, length, arith,
  ok, bytes_eq→eq, Bytes, List, [], bytes_eq_refl, false,
}
use drand_rs.Common.Int.{ℤ, ◌≤ℤ◌}
use drand_rs.Dkg.Packet.{ProposalTerms, timestamp_eq_iff}
use drand_rs.Dkg.State.{State}
use drand_rs.Dkg.Status.{Status, is_terminal}
use drand_rs.Dkg.Validate.{
  is_valid_signature, validate_for_all_dkgs, validate_first_epoch, validate_reshare_terms,
  validate_reshare_for_remainers, contains, contains_text, addresses,
}
use drand_rs.Key.Group.{Group}
use drand_rs.Scheme.{Scheme, Authority}

-- The epoch of the terms is the same after a terminal state, the next one, or, for a node that
-- has left or never took part, any later one.
abbrev pub FollowsEpoch : {S : Scheme} → State S → ProposalTerms → Type 0
FollowsEpoch current terms =
    (terms.epoch ≡ current.epoch) × (is_terminal current.status ≡ true)
    ⊎ (terms.epoch ≡ current.epoch + 1)
    ⊎ (current.epoch < terms.epoch)
      × ((current.status ≡ Status.left) ⊎ (current.status ≡ Status.fresh))

pub record ForAllDkgs (S : Scheme) (now : ℤ) (current : State S) (terms : ProposalTerms)
    : Type 0 where
  pub same_beacon : current.beacon_id ≡ terms.beacon_id
  pub signed : all (is_valid_signature S) terms.joining ≡ true
  pub in_time : ¬ (terms.timeout.seconds ≤ℤ now)
  pub not_above : terms.threshold ≤ length terms.joining + length terms.remaining
  pub majority : length terms.joining + length terms.remaining < 2 * terms.threshold
  pub follows : FollowsEpoch current terms

-- What a first epoch adds.
pub record FirstEpoch (au : Authority) (terms : ProposalTerms) : Type 0 where
  pub no_seed : terms.genesis_seed ≡ []
  pub none_remaining : terms.remaining ≡ []
  pub none_leaving : terms.leaving ≡ []
  pub leader_joins : contains au terms.joining terms.leader ≡ true

-- What a later epoch adds.
pub record Reshare (S : Scheme) (au : Authority) (current : State S) (terms : ProposalTerms)
    : Type 0 where
  pub leader_remains : contains au terms.remaining terms.leader ≡ true
  pub leader_not_joining : contains au terms.joining terms.leader ≡ false
  pub leader_not_leaving : contains au terms.leaving terms.leader ≡ false
  pub enough_remain : current.threshold ≤ length terms.remaining

abbrev pub last_epoch : {S : Scheme} → Group S → List Bytes
last_epoch g = map (λ n. n.identity.address) g.nodes

-- What a later epoch adds for a node that has a state of its own. The last field is weaker than
-- it should be: either all of the remaining nodes are of the last epoch, or some leaving one is not.
pub record Remainers (S : Scheme) (current : State S) (terms : ProposalTerms) (g : Group S)
    : Type 0 where
  pub group : current.final_group ≡ some g
  pub genesis_time : terms.genesis_time ≡ current.genesis_time
  pub genesis_seed : terms.genesis_seed ≡ current.genesis_seed
  pub all_kept :
      all
        (λ a.
          contains_text (addresses terms.remaining) a || contains_text (addresses terms.leaving) a)
        (last_epoch g)
      ≡ true
  pub known :
      (all (contains_text (last_epoch g)) (addresses terms.remaining) ≡ true)
      ⊎ (all (contains_text (last_epoch g)) (addresses terms.leaving) ≡ false)
  pub enough_remain : current.threshold ≤ length terms.remaining

module _ (S : Scheme) (now : ℤ) (current : State S) (terms : ProposalTerms) where
  pub all_dkgs_sound :
      current.epoch < 4294967295
      → validate_for_all_dkgs S now current terms ≡ ok tt
      → ForAllDkgs S now current terms
  unfolding validate_for_all_dkgs
  all_dkgs_sound small h = ground (arith, bytes_eq→eq current.beacon_id terms.beacon_id)

  pub all_dkgs_complete :
      current.epoch < 4294967295
      → ForAllDkgs S now current terms
      → validate_for_all_dkgs S now current terms ≡ ok tt
  unfolding validate_for_all_dkgs
  all_dkgs_complete small h = ground (arith, bytes_eq_refl terms.beacon_id)

module _ (S : Scheme) (current : State S) (terms : ProposalTerms) where
  pub Remainers-sound :
      validate_reshare_for_remainers S current terms ≡ ok tt
      → (g : Group S) × Remainers S current terms g
  unfolding validate_reshare_for_remainers
  Remainers-sound h = elim (Option-cases current.final_group) [
    | inl e ↦ absurd (
        ground (
          arith,
          timestamp_eq_iff terms.genesis_time current.genesis_time,
          bytes_eq→eq terms.genesis_seed current.genesis_seed,
        ))
    | inr (g, e) ↦ (
      g,
      ground (
        arith,
        timestamp_eq_iff terms.genesis_time current.genesis_time,
        bytes_eq→eq terms.genesis_seed current.genesis_seed,
      ),
    )
  ]

  pub Remainers-complete :
      (g : Group S)
      → Remainers S current terms g
      → validate_reshare_for_remainers S current terms ≡ ok tt
  unfolding validate_reshare_for_remainers
  Remainers-complete g h = ground (
    arith,
    timestamp_eq_iff terms.genesis_time current.genesis_time,
    bytes_eq_refl terms.genesis_seed,
  )

pub FirstEpoch-sound :
    (au : Authority) (terms : ProposalTerms)
    → validate_first_epoch au terms ≡ ok tt
    → FirstEpoch au terms
unfolding validate_first_epoch
FirstEpoch-sound au terms h = ground arith

pub FirstEpoch-complete :
    (au : Authority) (terms : ProposalTerms)
    → FirstEpoch au terms
    → terms.threshold ≤ length terms.joining
    → validate_first_epoch au terms ≡ ok tt
unfolding validate_first_epoch
FirstEpoch-complete au terms h t = ground arith

module _ (S : Scheme) (au : Authority) (current : State S) (terms : ProposalTerms) where
  pub Reshare-sound : validate_reshare_terms S au current terms ≡ ok tt → Reshare S au current terms
  unfolding validate_reshare_terms
  Reshare-sound h = ground arith

  pub Reshare-complete :
      Reshare S au current terms → validate_reshare_terms S au current terms ≡ ok tt
  unfolding validate_reshare_terms
  Reshare-complete h = ground arith
