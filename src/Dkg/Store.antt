-- ===== src/Dkg/Store.antt =====
-- The files of the DKG history: src/dkg/store.rs. A file holds the state that its TOML text
-- stands for; reading and writing a file that is there does not fail.
pub mod History
use drand_rs.Common.{
  Bool, Bytes, Option, Result, err, false, if◌then◌else◌, none, ok, ok_or, some, true, ◌&&◌, ◌>>=◌,
  ◌>>◌,
}
use drand_rs.Common.Int.{ℤ}
use drand_rs.Dkg.State.{State, fresh}
use drand_rs.Dkg.Status.{Status, is_terminal, status_eq}
use drand_rs.Dkg.Validate.{reached}
use drand_rs.Scheme.{Scheme}

pub data DkgStoreError : Type 0 where
  failed_to_load not_found : DkgStoreError

-- The folder, and the files current.toml and finished.toml in it.
pub record DkgStore (S : Scheme) : Type 0 where
  pub exists : Bool
  pub current : Option (State S)
  pub finished : Option (State S)

-- The statuses in which a start of the node looks at the timeout.
waits : Status → Bool
waits Status.proposed = true
waits Status.proposing = true
waits Status.accepted = true
waits Status.joined = true
waits _ = false

module _ {S : Scheme} where
  unfoldable pub get_current : DkgStore S → Result DkgStoreError (State S)
  get_current store =
      if store.exists
      then ok_or store.current DkgStoreError.not_found
      else err DkgStoreError.not_found

  unfoldable pub get_finished : DkgStore S → Result DkgStoreError (State S)
  get_finished store =
      if store.exists
      then ok_or store.finished DkgStoreError.not_found
      else err DkgStoreError.not_found

  unfoldable pub save_current : DkgStore S → State S → Result DkgStoreError (DkgStore S)
  save_current store state =
      if store.exists
      then ok (record store { current = some state })
      else err DkgStoreError.not_found

  unfoldable pub save_finished : DkgStore S → State S → Result DkgStoreError (DkgStore S)
  save_finished store state =
      if store.exists
      then ok (record store { finished = some state; current = some state })
      else err DkgStoreError.not_found

  unfoldable pub get_last_succesful : DkgStore S → Bytes → Result DkgStoreError (State S)
  unfolding get_current get_finished
  get_last_succesful store beacon_id = do
    current ← get_current store
    if is_terminal current.status
        then elim (get_finished store) [
          | ok finished ↦ ok finished
          | err DkgStoreError.not_found ↦ ok (fresh S beacon_id)
          | err e ↦ err e
        ]
        else ok current

  open_folder : Bool → DkgStore S → Result DkgStoreError (DkgStore S)
  open_folder fresh_run store =
      if store.exists
      then ok store
      else if fresh_run
      then ok (record { exists = true; current = none; finished = none })
      else err DkgStoreError.failed_to_load

  unfoldable pub init : ℤ → DkgStore S → Bool → Bytes → Result DkgStoreError (DkgStore S)
  unfolding open_folder waits get_current save_current
  init now folder fresh_run id = do
    store ← open_folder fresh_run folder
    elim (get_current store) [
      | ok state ↦
          if waits state.status && reached now state.timeout
          then save_current store (record state { status = Status.timed_out })
          else if status_eq state.status Status.executing
          then save_current store (record state { status = Status.failed })
          else ok store
      | err DkgStoreError.not_found ↦ save_current store (fresh S id)
      | err e ↦ err e
    ]
