-- ===== src/Dkg/Store/History.antt =====
-- Which state a read of the DKG files gives: src/dkg/store.rs.
use drand_rs.Common.{
  Bool, Bytes, arith, false, none, ok, some, true, ◌≡◌, ◌≢◌, ◌⊎◌, Bool-cases, Option, ap, inl, inr,
  refl, if◌then◌else◌, sym, ◌&&◌, ◌∙◌,
}
use drand_rs.Common.Int.{ℤ}
use drand_rs.Dkg.State.{fresh, State}
use drand_rs.Dkg.Status.{Status, is_terminal, status_eq}
use drand_rs.Dkg.Store.{init, get_last_succesful, waits, DkgStore}
use drand_rs.Dkg.Validate.{reached}
use drand_rs.Scheme.{Scheme}

-- The phases that wait for an answer, which are those that time out.
abbrev pub WaitsForAnswer : Status → Type 0
WaitsForAnswer s =
    (s ≡ Status.proposed) ⊎ (s ≡ Status.proposing) ⊎ (s ≡ Status.accepted) ⊎ (s ≡ Status.joined)

waits-true : (s : Status) → waits s ≡ true → WaitsForAnswer s
unfolding waits status_eq
waits-true s h = ground arith

waits-false : (s : Status) → waits s ≡ false → ¬ WaitsForAnswer s
unfolding waits status_eq
waits-false s h w = ground arith

executing-true : (s : Status) → status_eq s Status.executing ≡ true → s ≡ Status.executing
unfolding status_eq
executing-true s h = ground arith

executing-false : (s : Status) → status_eq s Status.executing ≡ false → s ≢ Status.executing
unfolding status_eq
executing-false s h e = ground arith

executing-waits : (s : Status) → s ≡ Status.executing → waits s ≡ false
unfolding waits status_eq
executing-waits s e = ground arith

module _ {S : Scheme} where
  -- The files of a folder, field by field.
  abbrev files : Bool → Option (State S) → Option (State S) → DkgStore S
  files e c f = record { exists = e; current = c; finished = f }

  abbrev LastOf : DkgStore S → Bytes → State S → Type 0
  LastOf store id s =
      (store.exists ≡ true)
      × ((store.current ≡ some s) × (is_terminal s.status ≡ false)
          ⊎ ((c : State S) × (store.current ≡ some c) × (is_terminal c.status ≡ true))
            × ((store.finished ≡ some s) ⊎ (store.finished ≡ none) × (s ≡ fresh S id)))

  LastOf-files :
      (e : Bool) (c f : Option (State S)) (id : Bytes) {s : State S}
      → get_last_succesful (files e c f) id ≡ ok s
      → LastOf (files e c f) id s
  unfolding get_last_succesful
  LastOf-files false c f id h = cc
  LastOf-files true none f id h = cc
  LastOf-files true (some c) none id {s} h = elim (Bool-cases (is_terminal c.status)) [
    | inl t ↦ (refl, inr ((c, refl, t), inr (refl, ground arith)))
    | inr n ↦ let e : c ≡ s = ground arith in (refl, inl (ap some e, rw (← e) n))
  ]
  LastOf-files true (some c) (some f) id {s} h = elim (Bool-cases (is_terminal c.status)) [
    | inl t ↦ (refl, inr ((c, refl, t), inl (ground arith)))
    | inr n ↦ let e : c ≡ s = ground arith in (refl, inl (ap some e, rw (← e) n))
  ]

  -- The last successful state is the current one unless that is terminal, and then the finished
  -- one, or a fresh one where no DKG has finished.
  pub get_last_succesful_lem :
      (store : DkgStore S) (id : Bytes) {s : State S}
      → get_last_succesful store id ≡ ok s
      → (store.exists ≡ true)
        × ((store.current ≡ some s) × (is_terminal s.status ≡ false)
            ⊎ ((c : State S) × (store.current ≡ some c) × (is_terminal c.status ≡ true))
              × ((store.finished ≡ some s) ⊎ (store.finished ≡ none) × (s ≡ fresh S id)))
  get_last_succesful_lem store id h = LastOf-files store.exists store.current store.finished id h

  -- What a start of the node does to a state that it finds: the four cases exclude each other.
  abbrev pub Restarted : ℤ → State S → State S → Type 0
  Restarted now s t =
      WaitsForAnswer s.status
        × (reached now s.timeout ≡ true)
        × (t ≡ record s { status = Status.timed_out })
      ⊎ WaitsForAnswer s.status × (reached now s.timeout ≡ false) × (t ≡ s)
      ⊎ (s.status ≡ Status.executing) × (t ≡ record s { status = Status.failed })
      ⊎ (¬ WaitsForAnswer s.status) × (s.status ≢ Status.executing) × (t ≡ s)

  restarted : ℤ → State S → State S
  restarted now s =
      if waits s.status && reached now s.timeout
      then record s { status = Status.timed_out }
      else if status_eq s.status Status.executing
      then record s { status = Status.failed }
      else s

  init-restarted :
      (now : ℤ) (s : State S) (f : Option (State S)) (fresh_run : Bool) (id : Bytes)
      → init now (files true (some s) f) fresh_run id ≡ ok (files true (some (restarted now s)) f)
  unfolding init restarted
  init-restarted now s f fresh_run id =
      elim (Bool-cases (waits s.status && reached now s.timeout)) [
        | inl w ↦ rw w
        | inr n ↦ rw n (elim (Bool-cases (status_eq s.status Status.executing)) [
          | inl e ↦ rw e
          | inr m ↦ rw m
        ])
      ]

  restarted-Restarted : (now : ℤ) (s : State S) → Restarted now s (restarted now s)
  unfolding restarted
  restarted-Restarted now s = elim (Bool-cases (waits s.status)) [
    | inl w ↦ elim (Bool-cases (reached now s.timeout)) [
      | inl r ↦ rw (w, r, restarted) (inl (waits-true s.status w, refl, refl))
      | inr r ↦ elim (Bool-cases (status_eq s.status Status.executing)) [
        | inl e ↦ absurd (ground (arith, executing-waits s.status (executing-true s.status e)))
        | inr n ↦ rw (w, r, n, restarted) (inr (inl (waits-true s.status w, refl, refl)))
      ]
    ]
    | inr w ↦ elim (Bool-cases (status_eq s.status Status.executing)) [
      | inl e ↦ rw (w, e, restarted) (inr (inr (inl (executing-true s.status e, refl))))
      | inr n ↦
          rw (w, n, restarted)
            (inr (inr (inr (waits-false s.status w, executing-false s.status n, refl))))
    ]
  ]

  -- What a start finds, and the current state that it leaves.
  abbrev pub Starts : ℤ → Bool → Bytes → DkgStore S → DkgStore S → State S → Type 0
  Starts now fresh_run id store saved t =
      (store.exists ≡ true)
        × ((s : State S) × (store.current ≡ some s) × Restarted now s t)
        × (saved.finished ≡ store.finished)
      ⊎ (store.exists ≡ true)
        × (store.current ≡ none)
        × (t ≡ fresh S id)
        × (saved.finished ≡ store.finished)
      ⊎ (store.exists ≡ false) × (fresh_run ≡ true) × (t ≡ fresh S id) × (saved.finished ≡ none)

  abbrev StartOf : ℤ → Bool → Bytes → DkgStore S → DkgStore S → Type 0
  StartOf now fresh_run id store saved =
      (t : State S) × (saved.exists ≡ true)
      × (saved.current ≡ some t)
      × Starts now fresh_run id store saved t

  StartOf-files :
      (now : ℤ) (e : Bool) (c f : Option (State S)) (fresh_run : Bool) (id : Bytes)
      {saved : DkgStore S}
      → init now (files e c f) fresh_run id ≡ ok saved
      → StartOf now fresh_run id (files e c f) saved
  unfolding init
  StartOf-files now false c f false id h = cc
  StartOf-files now false c f true id h =
      (fresh S id, ground arith, ground arith, inr (inr (refl, refl, refl, ground arith)))
  StartOf-files now true none f fresh_run id h =
      (fresh S id, ground arith, ground arith, inr (inl (refl, refl, refl, ground arith)))
  StartOf-files now true (some s) f fresh_run id {saved} h =
      let e : ok saved ≡ ok (files true (some (restarted now s)) f) =
        sym h ∙ init-restarted now s f fresh_run id in
      (
        restarted now s,
        ground arith,
        ground arith,
        inl (refl, (s, refl, restarted-Restarted now s), ground arith),
      )

  -- A start of the node that succeeds leaves a folder with a current state: where there was one, it
  -- is timed out if it is proposed, proposing, accepted or joined and its timeout is reached, failed
  -- if it is executing, and kept otherwise; where there was none, or no folder in a fresh run, it is a fresh one. The
  -- finished state stays, and is none in a new folder.
  pub init-Restarted :
      (now : ℤ) (store : DkgStore S) (fresh_run : Bool) (id : Bytes) {saved : DkgStore S}
      → init now store fresh_run id ≡ ok saved
      → (t : State S) × (saved.exists ≡ true)
        × (saved.current ≡ some t)
        × Starts now fresh_run id store saved t
  init-Restarted now store fresh_run id h =
      StartOf-files now store.exists store.current store.finished fresh_run id h
