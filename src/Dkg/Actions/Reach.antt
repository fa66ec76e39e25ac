-- ===== src/Dkg/Actions/Reach.antt =====
-- A node over its life: packets, commands, restarts, and the runs of the DKG protocol that
-- src/dkg/execution.rs starts and completes.
use drand_rs.Common.{
  Bool, Bytes, Option, none, ok, some, ◌≡◌, arith, inl, inr, subst, sym, >>=-ok, map_err-ok, false,
  ◌∙◌, err, map_err, Result, ◌>>=◌, ◌⊎◌,
}
use drand_rs.Common.Int.{ℤ}
use drand_rs.Dkg.Actions.{
  ActionsError, previous_group, of_failure, apply_packet_to_state, command, Command, start_accept,
  start_join,
}
use drand_rs.Dkg.Actions.Signed.{apply_packet_to_state-IsSigned}
use drand_rs.Dkg.Packet.{GossipPacket, Participant, Timestamp}
use drand_rs.Dkg.State.{fresh, State}
use drand_rs.Dkg.Status.{Status}
use drand_rs.Dkg.Store.{
  init, get_current, get_last_succesful, save_finished, save_current, DkgStore,
}
use drand_rs.Dkg.Store.History.{Starts, Restarted, get_last_succesful_lem, init-Restarted}
use drand_rs.Dkg.Transition.{complete, joined, accepted}
use drand_rs.Dkg.Transition.Invariant.{
  IsWellFormed, fresh-IsWellFormed, accepted-IsWellFormed, accepted-not_fresh, joined-IsWellFormed,
  apply-IsWellFormed, complete-IsWellFormed, complete-not_fresh,
}
use drand_rs.Key.Group.{Group, KeyShare}
use drand_rs.Scheme.{Authority, Scheme}

-- The files, and the state that a running DKG was started with (`current` of setup_and_run_dkg).
pub record NodeState (S : Scheme) : Type 0 where
  pub store : DkgStore S
  pub running : Option (State S)

module _ (S : Scheme) (au : Authority) (id : Bytes) (me : Participant) where
  pub data Step (n : NodeState S) : NodeState S → Type 0 where
    packet :
        (now later : ℤ) (p : GossipPacket) {saved : DkgStore S} {time : Option Timestamp}
        → apply_packet_to_state S au id me now later n.store p ≡ ok (saved, time)
        → Step n (record n { store = saved })
    cmd :
        (parse : Bytes → Option (Group S)) (now : ℤ) (c : Command) {saved : DkgStore S}
        → command S au id me parse now n.store c ≡ ok saved
        → Step n (record n { store = saved })
    -- A restart loses a running DKG.
    restart :
        (now : ℤ) (fresh_run : Bool) {saved : DkgStore S}
        → init now n.store fresh_run id ≡ ok saved
        → Step n (record { store = saved; running = none })
    setup : {s : State S} → get_current n.store ≡ ok s → Step n (record n { running = some s })
    finish :
        (now : ℤ) (group : Group S) (share : KeyShare S) {s t : State S} {saved : DkgStore S}
        → n.running ≡ some s
        → complete S au now s group share ≡ ok t
        → save_finished n.store t ≡ ok saved
        → Step n (record { store = saved; running = none })

  pub data Reach (n : NodeState S) : NodeState S → Type 0 where
    here : Reach n n
    next : {m k : NodeState S} → Reach n m → Step m k → Reach n k

  -- The states that a node holds are well formed, and the finished one is complete.
  pub record IsConsistent (n : NodeState S) : Type 0 where
    pub current : (s : State S) → n.store.current ≡ some s → IsWellFormed S au me s
    pub finished :
        (s : State S)
        → n.store.finished ≡ some s
        → IsWellFormed S au me s × (s.status ≡ Status.complete)
    pub running : (s : State S) → n.running ≡ some s → IsWellFormed S au me s

  -- The state that an action starts from is well formed.
  last_succesful-IsWellFormed :
      (n : NodeState S) {s : State S}
      → IsConsistent n
      → get_last_succesful n.store id ≡ ok s
      → IsWellFormed S au me s
  last_succesful-IsWellFormed n {s} v h = elim (get_last_succesful_lem n.store id h).1 [
    | inl (e, live) ↦ v.current s e
    | inr (old, inl e) ↦ (v.finished s e).0
    | inr (old, inr (e, p)) ↦ subst (IsWellFormed S au me) (sym p) (fresh-IsWellFormed S au me id)
  ]

  Restarted-IsWellFormed :
      (now : ℤ) (s t : State S)
      → Restarted now s t
      → IsWellFormed S au me s
      → IsWellFormed S au me t
  Restarted-IsWellFormed now s t r v = ground arith

  -- A well-formed state is written as the current one.
  current-IsConsistent :
      (n : NodeState S) (t : State S) {saved : DkgStore S}
      → saved ≡ record (n.store) { current = some t }
      → IsConsistent n
      → IsWellFormed S au me t
      → IsConsistent (record n { store = saved })
  current-IsConsistent n t e v w =
      subst (λ x. IsConsistent (record n { store = x })) (sym e)
        (record {
          current = λ s p. subst (IsWellFormed S au me) (cc) w;
          finished = v.finished;
          running = v.running;
        })

  save_current_lem :
      (store : DkgStore S) (t : State S) {saved : DkgStore S}
      → save_current store t ≡ ok saved
      → saved ≡ record store { current = some t }
  unfolding save_current
  save_current_lem store t h = ground arith

  save_finished_lem :
      (store : DkgStore S) (t : State S) {saved : DkgStore S}
      → save_finished store t ≡ ok saved
      → saved ≡ record store { finished = some t; current = some t }
  unfolding save_finished
  save_finished_lem store t h = ground arith

  start_join-saved :
      (parse : Bytes → Option (Group S)) (now : ℤ) (store : DkgStore S) (s : State S)
      (group_file : Bytes) {saved : DkgStore S}
      → start_join S au id me parse now store s group_file ≡ ok saved
      → IsWellFormed S au me s
      → (t : State S) × (save_current store t ≡ ok saved) × IsWellFormed S au me t
  unfolding start_join
  start_join-saved parse now store s group_file h v =
      let save : State S → Result ActionsError (DkgStore S) =
        λ x. map_err ActionsError.dkg_store (save_current store x) in
      let (group, found, h2) =
        >>=-ok (previous_group S au id me parse s group_file)
          (λ x. map_err of_failure (joined S au now s me x) >>= save) h in
      let (t, done, h3) = >>=-ok (map_err of_failure (joined S au now s me group)) save h2 in
      (
        t,
        map_err-ok ActionsError.dkg_store (save_current store t) h3,
        joined-IsWellFormed S au me now s group
            (map_err-ok of_failure (joined S au now s me group) done) v,
      )

  command-saved :
      (n : NodeState S) (parse : Bytes → Option (Group S)) (now : ℤ) (c : Command)
      {saved : DkgStore S}
      → command S au id me parse now n.store c ≡ ok saved
      → IsConsistent n
      → (t : State S) × (save_current n.store t ≡ ok saved) × IsWellFormed S au me t
  unfolding command start_accept
  command-saved n parse now Command.accept h v =
      let (s, last, h1) = >>=-ok _ _ h in
      let (t, done, h2) = >>=-ok _ _ h1 in
      let e : accepted S au now s me ≡ ok t = map_err-ok _ _ done in
      (
        t,
        map_err-ok _ _ h2,
        accepted-IsWellFormed S au me now s e (accepted-not_fresh S au me now s e)
            (last_succesful-IsWellFormed n v (map_err-ok _ _ last)),
      )
  command-saved n parse now (Command.join group_file) h v =
      let (s, last, h1) =
        >>=-ok (map_err ActionsError.dkg_store (get_last_succesful n.store id))
          (λ s. start_join S au id me parse now n.store s group_file) h in
      start_join-saved parse now n.store s group_file h1
        (last_succesful-IsWellFormed n v (map_err-ok _ _ last))
  command-saved n parse now _ h v =
      let (s, last, h1) =
        >>=-ok (map_err ActionsError.dkg_store (get_last_succesful n.store id))
          (λ s. err ActionsError.todo) h in
      absurd (cc h1)

  get_current_lem :
      (store : DkgStore S) {s : State S} → get_current store ≡ ok s → store.current ≡ some s
  unfolding get_current
  get_current_lem store h = ground arith

  complete-status :
      (now : ℤ) (s : State S) (group : Group S) (share : KeyShare S) {t : State S}
      → complete S au now s group share ≡ ok t
      → t.status ≡ Status.complete
  unfolding complete
  complete-status now s group share h = ground arith

  restart-parts :
      (n : NodeState S) (now : ℤ) (t : State S) (fresh_run : Bool) (saved : DkgStore S)
      → IsConsistent n
      → (t ≡ fresh S id → IsWellFormed S au me t)
      → Starts now fresh_run id n.store saved t
      → IsWellFormed S au me t × ((saved.finished ≡ n.store.finished) ⊎ (saved.finished ≡ none))
  restart-parts n now t fresh_run saved v w (inl (there, (s, e, r), kept)) =
      (Restarted-IsWellFormed now s t r (v.current s e), inl kept)
  restart-parts n now t fresh_run saved v w (inr (inl (there, no_current, e, kept))) =
      (w e, inl kept)
  restart-parts n now t fresh_run saved v w (inr (inr (no_folder, new, e, gone))) = (w e, inr gone)

  restart-IsConsistent :
      (n : NodeState S) (now : ℤ) (fresh_run : Bool) {saved : DkgStore S}
      → init now n.store fresh_run id ≡ ok saved
      → IsConsistent n
      → IsConsistent (record { store = saved; running = none })
  restart-IsConsistent n now fresh_run {saved} h v =
      let (t, exists, current, from) = init-Restarted now n.store fresh_run id h in
      let brand_new : t ≡ fresh S id → IsWellFormed S au me t =
        λ e. subst (IsWellFormed S au me) (sym e) (fresh-IsWellFormed S au me id) in
      let (w, f) = restart-parts n now t fresh_run saved v brand_new from in
      record {
        current = λ s e. subst (IsWellFormed S au me) (cc) w;
        finished =
            λ s e. elim f [ inl kept ↦ v.finished s (sym kept ∙ e) | inr gone ↦ absurd (cc) ];
        running = λ s e. absurd (cc);
      }

  -- Every step keeps a node consistent.
  Step-IsConsistent : {n m : NodeState S} → Step n m → IsConsistent n → IsConsistent m
  Step-IsConsistent {n} (packet now later p h) v =
      let (s, t, last, applied, e, time, by) =
        apply_packet_to_state-IsSigned S au id me now later n.store p h in
      current-IsConsistent n t e v
        (apply-IsWellFormed S au me now later s p applied (last_succesful-IsWellFormed n v last))
  Step-IsConsistent {n} (cmd parse now c h) v =
      let (t, saved, w) = command-saved n parse now c h v in
      current-IsConsistent n t (save_current_lem n.store t saved) v w
  Step-IsConsistent {n} (restart now fresh_run h) v = restart-IsConsistent n now fresh_run h v
  Step-IsConsistent {n} (setup {s} h) v = record {
    current = v.current;
    finished = v.finished;
    running = λ t e. v.current t (get_current_lem n.store h ∙ (cc));
  }
  Step-IsConsistent {n} (finish now group share {s} {t} r c h) v =
      let w =
        complete-IsWellFormed S au me now s group share c
          (complete-not_fresh S au me now s group share c) (v.running s r) in
      subst (λ x. IsConsistent (record { store = x; running = none }))
        (sym (save_finished_lem n.store t h))
        (record {
          current = λ u e. subst (IsWellFormed S au me) (cc) w;
          finished = λ u e.
              subst (λ x. IsWellFormed S au me x × (x.status ≡ Status.complete)) (cc)
                (w, complete-status now s group share c);
          running = λ u e. absurd (cc);
        })

  -- From a node with no files, every state that is ever stored is well formed, and the finished
  -- state is always one that completed.
  pub Reach-IsConsistent :
      {n : NodeState S}
      → Reach
          (record {
            store = record { exists = false; current = none; finished = none };
            running = none;
          })
          n
      → IsConsistent n
  Reach-IsConsistent here = record {
    current = λ s e. absurd (cc);
    finished = λ s e. absurd (cc);
    running = λ s e. absurd (cc);
  }
  Reach-IsConsistent (next r st) = Step-IsConsistent st (Reach-IsConsistent r)
