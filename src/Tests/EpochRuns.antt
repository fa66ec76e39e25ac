-- ===== src/Tests/EpochRuns.antt =====
-- Runs of the chain from one epoch to the next under the toy scheme: src/chain/handler.rs.
use drand_rs.Chain.Beacon.{unchained}
use drand_rs.Chain.Commands.{
  Wait, leave, receive, start, ChainCmd, Exit, Loop, latest_round, live_step, Move, run, step,
}
use drand_rs.Chain.Commands.Epochs.{poll-take_reload, run-next_epoch}
use drand_rs.Chain.Commands.Waits.{Before, Announced, AllWaits, Reached}
use drand_rs.Chain.Handler.Grows.{Grows}
use drand_rs.Chain.Life.{Carried, EpochRun, run_epochs}
use drand_rs.Chain.Life.Setup.{HasKey, run_epochs-Keeps}
use drand_rs.Chain.Store.{last, ChainStore, last_row}
use drand_rs.Chain.Store.Held.{Keeps}
use drand_rs.Common.{
  inr, ◌⊎◌, List, [], arith, false, inl, none, refl, some, sub_u64, true, ℕ, ◌∷◌, ◌≡◌, ◌≤◌, ap,
  some_injective, ◌∙◌,
}
use drand_rs.Common.Text.{text}
use drand_rs.Key.Group.{Group}
use drand_rs.Tests.ChainData.{handler, at_genesis, at_genesis-IsSound}
use drand_rs.Tests.Toy.{toy}

-- The epoch before had two NewEpoch commands with round 1: one task is finished, and the Reload of the
-- other is left in the channel.
abbrev left_waits : List Wait
left_waits =
    record { want_round = 0; finished = true } ∷ record { want_round = 0; finished = true } ∷ []

abbrev moves : List (Move toy unchained handler)
moves = Move.command ChainCmd.latest_stored ∷ Move.take_reload ∷ []

abbrev WasNamed : ℕ → Type 0
WasNamed first_round = first_round ≡ 1

run-next_epoch_example :
    let l = run toy unchained handler (start toy unchained handler at_genesis left_waits 1) moves in
    ((first_round : ℕ) × ((first_round ≡ 1) ⊎ Announced toy unchained handler moves first_round)
      × (sub_u64 first_round 1 ≤ l.chain.reg.latest_stored.round))
    × AllWaits
        (Before
          (λ first_round. (first_round ≡ 1) ⊎ Announced toy unchained handler moves first_round))
        l.waits
    × Grows toy unchained handler at_genesis l.chain
unfolding run step live_step receive leave latest_round start last last_row AllWaits Reached
run-next_epoch_example =
    run-next_epoch toy unchained handler WasNamed at_genesis left_waits 1 moves at_genesis-IsSound
      ((1, refl, refl), ((1, refl, refl), tt)) (inr (0, (1, refl, refl), omega arith)) refl

abbrev waiting : Loop toy unchained
waiting = record {
  chain = at_genesis;
  waits = record { want_round = 0; finished = false } ∷ [];
  reloads = 0;
  registered = true;
  replies = [];
  exit = none;
}

poll-take_reload_example :
    let l' = run toy unchained handler waiting (Move.poll 0 ∷ Move.take_reload ∷ []) in
    (l'.exit ≡ some Exit.next_epoch) × (l'.registered ≡ false) × (l'.chain ≡ at_genesis)
poll-take_reload_example =
    poll-take_reload toy unchained handler waiting [] [] 0 at_genesis-IsSound refl refl
      (omega arith) refl refl

abbrev group : Group toy
group = record {
  threshold = 1;
  period = 3;
  catchup_period = 1;
  genesis_time = 1000;
  transition_time = 1000;
  genesis_seed = [];
  beacon_id = text "default";
  nodes = [];
  dist_key = (9 ∷ []) ∷ [];
}

-- An epoch in which nothing happens.
abbrev epoch : EpochRun toy unchained
epoch = record {
  now = 1000;
  pool_open = true;
  files = record {
    group = some group;
    share = some (record { commits = (9 ∷ []) ∷ []; pri_share = 7 });
  };
  moves = λ h. Move.command (ChainCmd.new_epoch 1) ∷ Move.poll 0 ∷ Move.take_reload ∷ [];
}

abbrev no_rows : ChainStore unchained
no_rows = record { rows = []; alive = true }

abbrev nothing_yet : Carried toy unchained
nothing_yet = record { store = no_rows; waits = []; reloads = 0 }

has_key : HasKey toy unchained (9 ∷ []) epoch.files
has_key g k cs e e' =
    let same : (9 ∷ []) ∷ [] ≡ k ∷ cs =
      ap (λ (x : Group toy). x.dist_key) (some_injective e) ∙ e' in
    cc

run_epochs-Keeps_example :
    Keeps toy unchained
      (9 ∷ [])
      no_rows
      (run_epochs toy unchained (text "default") nothing_yet (epoch ∷ epoch ∷ [])).0.store
run_epochs-Keeps_example =
    run_epochs-Keeps toy unchained (9 ∷ []) (text "default") nothing_yet (epoch ∷ epoch ∷ [])
      (has_key, (has_key, tt)) (inl refl)
