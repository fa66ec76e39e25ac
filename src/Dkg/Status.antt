-- ===== src/Dkg/Status.antt =====
-- The status of a DKG and its transitions: src/dkg/status.rs.
pub mod Codes
use Prim.Native.String.{String}
use text.Mathlib.Text.{◌==◌ as str_eq}
use drand_rs.Common.{
  ℕ, Bool, true, false, Option, none, some, Result, ok, err, if◌then◌else◌, ◌==◌, arith, ◌↔◌, ◌≡◌,
}

pub data Status : Type 0 where
  fresh proposed proposing accepted rejected aborted : Status
  executing complete timed_out joined left failed : Status

pub data StateError : Type 0 where
  invalid_state_change : Status → Status → StateError
  impossible_dkg_state : ℕ → StateError

-- `value as u32`, by the order of the variants.
unfoldable pub to_u32 : Status → ℕ
to_u32 fresh = 0
to_u32 proposed = 1
to_u32 proposing = 2
to_u32 accepted = 3
to_u32 rejected = 4
to_u32 aborted = 5
to_u32 executing = 6
to_u32 complete = 7
to_u32 timed_out = 8
to_u32 joined = 9
to_u32 left = 10
to_u32 failed = 11

unfoldable pub try_from : ℕ → Result StateError Status
try_from value =
    if value == 0
    then ok fresh
    else if value == 1
    then ok proposed
    else if value == 2
    then ok proposing
    else if value == 3
    then ok accepted
    else if value == 4
    then ok rejected
    else if value == 5
    then ok aborted
    else if value == 6
    then ok executing
    else if value == 7
    then ok complete
    else if value == 8
    then ok timed_out
    else if value == 9
    then ok joined
    else if value == 10
    then ok left
    else if value == 11
    then ok failed
    else err (impossible_dkg_state value)

-- The derived equality of two variants.
unfoldable pub status_eq : Status → Status → Bool
unfolding to_u32
status_eq a b = to_u32 a == to_u32 b

-- The `matches!` of each state.
may_change : Status → Status → Bool
may_change fresh proposing = true
may_change fresh proposed = true
may_change joined left = true
may_change joined executing = true
may_change joined aborted = true
may_change joined timed_out = true
may_change proposing executing = true
may_change proposing aborted = true
may_change proposing timed_out = true
may_change proposed accepted = true
may_change proposed rejected = true
may_change proposed joined = true
may_change proposed left = true
may_change proposed aborted = true
may_change proposed timed_out = true
may_change accepted executing = true
may_change accepted aborted = true
may_change accepted timed_out = true
may_change rejected aborted = true
may_change rejected timed_out = true
may_change executing complete = true
may_change executing timed_out = true
may_change executing failed = true
may_change complete proposing = true
may_change complete proposed = true
may_change left joined = true
may_change left aborted = true
may_change left proposed = true
may_change aborted proposing = true
may_change aborted proposed = true
may_change timed_out proposing = true
may_change timed_out proposed = true
may_change timed_out aborted = true
may_change failed proposing = true
may_change failed proposed = true
may_change failed left = true
may_change failed aborted = true
may_change _ _ = false

unfoldable pub is_valid_state_change : Status → Status → Result StateError (Unit {0})
unfolding may_change
is_valid_state_change self next =
    if may_change self next then ok tt else err (invalid_state_change self next)

unfoldable pub is_terminal : Status → Bool
is_terminal aborted = true
is_terminal timed_out = true
is_terminal failed = true
is_terminal _ = false

-- Display writes the variant's Debug name.
unfoldable pub to_string : Status → String
to_string fresh = "Fresh"
to_string proposed = "Proposed"
to_string proposing = "Proposing"
to_string accepted = "Accepted"
to_string rejected = "Rejected"
to_string aborted = "Aborted"
to_string executing = "Executing"
to_string complete = "Complete"
to_string timed_out = "TimedOut"
to_string joined = "Joined"
to_string left = "Left"
to_string failed = "Failed"

unfoldable pub from_str : String → Option Status
from_str s =
    if str_eq s "Fresh"
    then some fresh
    else if str_eq s "Proposed"
    then some proposed
    else if str_eq s "Proposing"
    then some proposing
    else if str_eq s "Accepted"
    then some accepted
    else if str_eq s "Rejected"
    then some rejected
    else if str_eq s "Aborted"
    then some aborted
    else if str_eq s "Executing"
    then some executing
    else if str_eq s "Complete"
    then some complete
    else if str_eq s "TimedOut"
    then some timed_out
    else if str_eq s "Joined"
    then some joined
    else if str_eq s "Left"
    then some left
    else if str_eq s "Failed"
    then some failed
    else none

pub status_eq_iff : (a b : Status) → (status_eq a b ≡ true) ↔ (a ≡ b)
unfolding status_eq
status_eq_iff fresh b = (λ h. ground arith, λ h. ground arith)
status_eq_iff _ b = (λ h. ground arith, λ h. ground arith)
