-- ===== src/Scheme.antt =====
-- What drand-rs takes from crates outside the repository: the curve and signature scheme of
-- `energon`, the hash functions, and the comparison of `http::uri::Authority`.
use drand_rs.Common.{ℕ, ◌≡◌, ◌↔◌, Bool, true, Option, List, Bytes, some}

-- One drand scheme: points, threshold BLS and the beacon digest. Texts are byte strings.
pub record Scheme : Type 1 where
  pub KeyPoint : Type 0
  pub SigPoint : Type 0
  pub PriShare : Type 0
  pub Scalar : Type 0
  pub id : Bytes
  pub point_size : ℕ
  pub is_chained : Bool
  pub deserialize_key : Bytes → Option KeyPoint
  pub serialize_key : KeyPoint → Option Bytes
  pub deserialize_sig : Bytes → Option SigPoint
  pub serialize_sig : SigPoint → Option Bytes
  -- The equality of points.
  pub same_key : KeyPoint → KeyPoint → Bool
  pub same_key_iff : (a b : KeyPoint) → (same_key a b ≡ true) ↔ (a ≡ b)
  pub scalar_to_bytes : Scalar → Option Bytes
  pub scalar_from_bytes : Bytes → Option Scalar
  pub bls_verify : KeyPoint → SigPoint → Bytes → Bool
  pub digest : Bytes → ℕ → Bytes
  pub blake2b : Bytes → Bytes
  pub sha256 : Bytes → Bytes
  pub deserialize-serialize_key :
      (k : KeyPoint) {b : Bytes} → serialize_key k ≡ some b → deserialize_key b ≡ some k
  pub scalar_from_bytes-to_bytes :
      (s : Scalar) {b : Bytes} → scalar_to_bytes s ≡ some b → scalar_from_bytes b ≡ some s
  pub deserialize-serialize_sig :
      (s : SigPoint) {b : Bytes} → serialize_sig s ≡ some b → deserialize_sig b ≡ some s
  -- tBLS: an index and a point for each share. `share_point` is the public share at an index.
  pub deserialize_share : Bytes → Option (ℕ × SigPoint)
  pub serialize_share : ℕ × SigPoint → Option Bytes
  pub sign_share : PriShare → Bytes → Option (ℕ × SigPoint)
  pub share_index : PriShare → ℕ
  pub share_point : List KeyPoint → ℕ → KeyPoint
  pub recover : List (ℕ × SigPoint) → Option SigPoint

-- `http::uri::Authority`: its equality, which ignores the case of ASCII letters.
pub record Authority : Type 0 where
  pub same : Bytes → Bytes → Bool
  pub same_refl : (a : Bytes) → same a a ≡ true
  pub same_sym : (a b : Bytes) → same a b ≡ same b a
  pub same_trans : (a b c : Bytes) → same a b ≡ true → same b c ≡ true → same a c ≡ true
