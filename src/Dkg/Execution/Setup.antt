-- ===== src/Dkg/Execution/Setup.antt =====
-- The state that a run of the DKG takes: src/dkg/execution.rs.
use drand_rs.Chain.Commands.{start}
use drand_rs.Common.{>>=-ok, Option, ap, map_err, map_err-ok, ok, ok_injective, ok_or, ◌∙◌, ◌≡◌}
use drand_rs.Common.Int.{ℤ}
use drand_rs.Dkg.Actions.{ActionsError}
use drand_rs.Dkg.Execution.{
  Config, Running, setup_and_run_dkg, last_completed, time_until, config_of, sorted_participants,
}
use drand_rs.Dkg.Gate.{BundleSender, GateKeeper, open_gate}
use drand_rs.Dkg.Packet.{Timestamp}
use drand_rs.Dkg.Store.{DkgStore, get_current}
use drand_rs.Key.Group.{Identity}
use drand_rs.Scheme.{Scheme}

module _ (S : Scheme) (private_key : S.Scalar) (identity : Identity S) where
  module _ (system_time : Timestamp → Option ℤ) (new_dkg : Config S → Option (BundleSender S)) where
    pub setup_and_run_dkg-current :
        (now : ℤ) (store : DkgStore S) (gk : GateKeeper S) (start : Timestamp) {gate : GateKeeper S}
        {r : Running S private_key identity}
        → setup_and_run_dkg S private_key identity system_time new_dkg now store gk start
          ≡ ok (gate, r)
        → get_current store ≡ ok r.current
    unfolding setup_and_run_dkg
    setup_and_run_dkg-current now store gk start {gate} {r} h =
        let (current, at, h₁) = >>=-ok (map_err ActionsError.dkg_store (get_current store)) _ h in
        let (completed, _, h₂) = >>=-ok (last_completed S private_key identity store) _ h₁ in
        let (wait, _, h₃) =
          >>=-ok (time_until S private_key identity system_time new_dkg now start) _ h₂ in
        let (config, _, h₄) =
          >>=-ok
            (config_of S private_key identity current completed (sorted_participants S current)) _
            h₃ in
        let (tx, _, h₅) = >>=-ok (ok_or (new_dkg config) ActionsError.dkg_error) _ h₄ in
        let (opened, _, h₆) = >>=-ok (open_gate S gk tx) _ h₅ in
        let same : current ≡ r.current =
          ap (λ (x : GateKeeper S × Running S private_key identity). x.1.current)
            (ok_injective h₆) in
        map_err-ok ActionsError.dkg_store (get_current store) at ∙ ap ok same
