-- ===== src/Chain/Registry.antt =====
-- What changes per round, or within one: src/chain/registry.rs. The senders and spans are left out.
use drand_rs.Chain.Beacon.{BeaconRepr}
use drand_rs.Chain.Cache.{PartialCache, align}
use drand_rs.Chain.Epoch.{EpochConfig, thr}
use drand_rs.Chain.Sync.Handle.{HandleReSync, is_running, update_last_received_time}
use drand_rs.Common.{Bool, Option, false, if◌then◌else◌, none, some, true, ℕ}
use drand_rs.Scheme.{Scheme}
use drand_rs.Chain.Time
use drand_rs.Chain.Sync.Handle

pub record Registry (S : Scheme) (R : BeaconRepr) : Type 0 where
  pub latest_stored : R.Beacon
  pub current_round : ℕ  -- u64
  pub p_cache : PartialCache S
  pub catchup_enabled : Bool
  pub h_resync : Option HandleReSync

module _ (S : Scheme) (R : BeaconRepr) where
  -- `time_now` is `time::time_now().as_secs()`.
  unfoldable pub new : (time_now period genesis_time : ℕ) → R.Beacon → (thr : ℕ) → Registry S R
  new time_now period genesis_time latest_stored thr = record {
    latest_stored = latest_stored;
    current_round = drand_rs.Chain.Time.current_round time_now period genesis_time;
    p_cache = drand_rs.Chain.Cache.new S (R.round latest_stored) thr;
    catchup_enabled = false;
    h_resync = none;
  }

  extended : ℕ → Option HandleReSync → Option HandleReSync
  extended now none = none
  extended now (some h) = some (update_last_received_time now h)

  unfoldable pub extend_resync_expiry_time : (now : ℕ) → Registry S R → Registry S R
  unfolding extended
  extend_resync_expiry_time now reg = record reg { h_resync = extended now reg.h_resync }

  unfoldable pub is_resync_active : (now : ℕ) → Registry S R → Bool
  is_resync_active now reg = elim reg.h_resync [ none ↦ false | some h ↦ is_running now h ]

  unfoldable pub new_resync_handle : (now period : ℕ) → Registry S R → Registry S R
  new_resync_handle now period reg = record reg {
    h_resync = some (drand_rs.Chain.Sync.Handle.new now period);
  }

  -- Whether a task is spawned that will send the signal.
  unfoldable pub start_catchup : Registry S R → Registry S R × Bool
  start_catchup reg =
      if reg.catchup_enabled then (reg, false) else (record reg { catchup_enabled = true }, true)

  unfoldable pub catchup_signal_received : Registry S R → Registry S R
  catchup_signal_received reg = record reg { catchup_enabled = false }

  unfoldable pub new_round : ℕ → Registry S R → Registry S R
  new_round round reg = record reg { current_round = round }

  unfoldable pub align_cache : EpochConfig S → Registry S R → Registry S R
  align_cache ec reg = record reg { p_cache = align S reg.p_cache ec (R.round reg.latest_stored) }

  unfoldable pub update_latest_stored : R.Beacon → Registry S R → Registry S R
  update_latest_stored b reg = record reg { latest_stored = b }

  unfoldable pub stop_resync : Registry S R → Registry S R
  stop_resync reg = record reg { h_resync = none }
