-- ===== src/Chain/Sync/Handle.antt =====
-- The handle of a running resync task: src/chain/sync.rs.
-- `RESYNC_EXPIRY_FACTOR`.
use drand_rs.Common.{Bool, false, if◌then◌else◌, ltb, two_32, ℕ, ◌%◌, ◌*◌, ◌-◌}

abbrev resync_expiry_factor : ℕ
resync_expiry_factor = 2

-- The join handle is read as whether the task has finished; times are in nanoseconds.
pub record HandleReSync : Type 0 where
  pub is_finished : Bool
  pub latest_received : ℕ
  pub factor : ℕ

unfoldable pub new : (now period : ℕ) → HandleReSync
new now period = record {
  is_finished = false;
  latest_received = now;
  factor = period * resync_expiry_factor % two_32 * 1000000000;
}

unfoldable pub is_running : (now : ℕ) → HandleReSync → Bool
is_running now h = if h.is_finished then false else ltb (now - h.latest_received) h.factor

unfoldable pub update_last_received_time : (now : ℕ) → HandleReSync → HandleReSync
update_last_received_time now h = record h { latest_received = now }
