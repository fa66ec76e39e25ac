-- ===== src/Dkg/Status/Codes.antt =====
-- The number and the name of a status: src/dkg/status.rs (TryFrom<u32>, Display, FromStr).
use drand_rs.Common.{ℕ, ◌≡◌, refl, ◌↔◌, ◌≤◌, arith, ok, err, some}
use drand_rs.Dkg.Status.{Status, StateError, to_u32, try_from, to_string, from_str}

-- A number is read as a status exactly when it is the status's own number, and every number from
-- 12 on is refused with itself in the error.
pub try_from-to_u32 :
    (value : ℕ)
    → ((s : Status) → (try_from value ≡ ok s) ↔ (value ≡ to_u32 s))
      × (12 ≤ value → try_from value ≡ err (StateError.impossible_dkg_state value))
unfolding try_from to_u32
try_from-to_u32 value = (λ s. (λ h. ground arith, λ h. to s h), λ h. ground arith)
  where
    to : (s : Status) → value ≡ to_u32 s → try_from value ≡ ok s
    to Status.fresh h = ground arith
    to _ h = ground arith

-- The name that is written for a status is read back as that status.
pub from_str-to_string : (s : Status) → from_str (to_string s) ≡ some s
unfolding from_str to_string
from_str-to_string Status.fresh = refl
from_str-to_string _ = refl
