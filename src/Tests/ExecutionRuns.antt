-- ===== src/Tests/ExecutionRuns.antt =====
-- Runs of the end of a DKG under the toy scheme: src/dkg/execution.rs.
use mathlib.Core.List.{Mem, mem-cons, not-mem-nil, Perm}
use drand_rs.Chain.Time.{time_of_round}
use drand_rs.Common.{
  [], none, refl, some, true, ℕ, ◌++◌, ◌∷◌, ◌≡◌, Result, arith, subst, sym, Bytes, List, any,
  enumerate, bytes_eq,
}
use drand_rs.Common.Int.{ℤ}
use drand_rs.Common.Text.{text}
use drand_rs.Dkg.Actions.{ActionsError}
use drand_rs.Dkg.Bundle.{map_all}
use drand_rs.Dkg.Execution.{
  DkgNode, bytes_le, insert_by_key, sort_by_public_key, sorted_participants, Config, config_of,
  nonce_for_epoch, deserialize_node, initial_config, new_nodes_of, prior,
}
use drand_rs.Dkg.Execution.Finish.{
  World, Outcome, DkgOutput, NodeFiles, as_group, transition_time_of, process_dkg_output,
}
use drand_rs.Dkg.Execution.Finish.Handover.{process_dkg_output-new_epoch}
use drand_rs.Dkg.Execution.Finish.Times.{IsExact}
use drand_rs.Dkg.Execution.Finish.Torn.{process_dkg_output-torn}
use drand_rs.Dkg.Execution.Order.{HasDistinctKeys, config_of-agree}
use drand_rs.Dkg.Packet.{Participant}
use drand_rs.Dkg.State.{State, from_terms, DbStateError}
use drand_rs.Dkg.Status.{Status, is_valid_state_change}
use drand_rs.Dkg.Transition.{complete}
use drand_rs.Key.Group.{Group, Identity, Node}
use drand_rs.Tests.DkgData.{me, proposed_state}
use drand_rs.Tests.Toy.{exact, toy}
use mathlib.Core.Logic.Or
use mathlib.Core.List.Perm

abbrev other : Participant
other = record { address = text "b:1"; key = 4 ∷ []; signature = text "toy" ++ 4 ∷ [] }

-- Two nodes that run the DKG, which ends ten seconds before its timeout.
abbrev at_execution : State toy
at_execution = record proposed_state {
  status = Status.executing;
  genesis_seed = 0 ∷ [];
  joining = me ∷ other ∷ [];
}

abbrev as_other_sees_it : State toy
as_other_sees_it = record at_execution { joining = other ∷ me ∷ [] }

abbrev identity : Participant → Identity toy
identity p = record { address = p.address; key = p.key; signature = p.signature }

abbrev dkg_node : ℕ → Participant → DkgNode toy
dkg_node index p = record { index = index; public = p.key }

abbrev output : DkgOutput toy
output = record {
  qual = dkg_node 0 other ∷ dkg_node 1 me ∷ [];
  key = record { commits = (9 ∷ []) ∷ []; pri_share = 1 };
}

abbrev world : World
world = record {
  share_saved = true;
  group_saved = true;
  chain_open = true;
  now = 90;
  completed_at = ℤ.pos 90;
  woken_at = 90;
}

abbrev before : NodeFiles toy
before = record {
  share = none;
  group = none;
  dkg = record { exists = true; current = some at_execution; finished = none };
}

abbrev group_node : ℕ → Participant → Node toy
group_node index p = record { identity = identity p; index = index }

abbrev new_group : Group toy
new_group = record {
  threshold = 1;
  period = 3;
  catchup_period = 1;
  genesis_time = 200;
  transition_time = 200;
  genesis_seed = 0 ∷ [];
  beacon_id = text "default";
  nodes = group_node 0 other ∷ group_node 1 me ∷ [];
  dist_key = (9 ∷ []) ∷ [];
}

formed :
    as_group toy exact output at_execution 200 (transition_time_of toy exact at_execution 90 200)
    ≡ some (new_group, output.key)
unfolding as_group transition_time_of from_terms sorted_participants sort_by_public_key
    insert_by_key bytes_le map_all
formed = refl

abbrev completed : State toy
completed = record at_execution {
  status = Status.complete;
  final_group = some new_group;
  key_share = some output.key;
}

IsExact-times : IsExact at_execution 90 200
unfolding from_terms
IsExact-times = record {
  period_pos = omega arith;
  period_u32 = omega arith;
  genesis_fits = omega arith;
  period_before = omega arith;
  started = λ e. absurd (cc);
  near = λ e. absurd (cc);
}

process_dkg_output-new_epoch_example :
    process_dkg_output toy exact world before output at_execution ≡ (
      record {
        share = some output.key;
        group = some new_group;
        dkg = record { exists = true; current = some completed; finished = some completed };
      },
      Outcome.new_epoch 1 107,
    )
unfolding complete from_terms time_of_round is_valid_state_change
process_dkg_output-new_epoch_example =
    process_dkg_output-new_epoch toy exact world before output at_execution completed 200
      IsExact-times refl formed refl refl refl refl refl

process_dkg_output-torn_example :
    process_dkg_output toy exact
      (record world { completed_at = ℤ.pos 100 })
      before
      output
      at_execution
    ≡ (
      record { share = some output.key; group = some new_group; dkg = before.dkg },
      Outcome.not_completed DbStateError.timeout_reached,
    )
unfolding from_terms
process_dkg_output-torn_example =
    process_dkg_output-torn toy exact (record world { completed_at = ℤ.pos 100 }) before output
      at_execution 200 refl formed refl refl refl refl

Participant-set : IsSet Participant
Participant-set = hlevel

same_prop : (p q : Participant) → IsProp (p.key ≡ q.key → p ≡ q)
same_prop p q = hlevel

two_cases :
    {P : Participant → Type 0}
    → ((p : Participant) → IsProp (P p))
    → P me
    → P other
    → (p : Participant) → Mem p (me ∷ other ∷ [])
    → P p
two_cases {P} prop a b p m =
    Or.elim (prop p) (mem-cons.0 m) (λ e. subst P (sym e) a)
      (λ m'.
        Or.elim (prop p) (mem-cons.0 m') (λ e. subst P (sym e) b) (λ n. absurd (not-mem-nil n)))

distinct : HasDistinctKeys (me ∷ other ∷ [])
unfolding HasDistinctKeys
distinct p q m n =
    two_cases {P = λ x. x.key ≡ q.key → x ≡ q} (λ x. same_prop x q)
      (two_cases {P = λ y. me.key ≡ y.key → me ≡ y} (λ y. same_prop me y) (λ e. refl)
        (λ e. absurd (cc)) q n)
      (two_cases {P = λ y. other.key ≡ y.key → other ≡ y} (λ y. same_prop other y)
        (λ e. absurd (cc)) (λ e. refl) q n)
      p m

abbrev config_seen_by : Participant → State toy → Result ActionsError (Config toy)
config_seen_by p state = config_of toy p.key (identity p) state none (sorted_participants toy state)

abbrev config : Bytes → Config toy
config long_term = record {
  long_term = long_term;
  old_nodes = [];
  new_nodes = dkg_node 0 other ∷ dkg_node 1 me ∷ [];
  public_coeffs = [];
  share = none;
  threshold = 1;
  old_threshold = 0;
  nonce = nonce_for_epoch toy 1;
}

config_of-agree_example :
    (◌≡◌ {A = List (DkgNode toy)} (config me.key).new_nodes (config other.key).new_nodes)
    × (◌≡◌ {A = ℕ} (config me.key).threshold (config other.key).threshold)
    × ((config me.key).nonce ≡ (config other.key).nonce)
    × Perm (sorted_participants toy at_execution) (at_execution.joining ++ at_execution.remaining)
unfolding config_of initial_config sorted_participants sort_by_public_key insert_by_key bytes_le
    from_terms new_nodes_of deserialize_node map_all enumerate any bytes_eq prior
config_of-agree_example =
    config_of-agree toy at_execution as_other_sees_it (Perm.swap other me []) distinct refl refl
      me.key other.key (identity me) (identity other) none none {c = config me.key}
      {d = config other.key} refl refl
