-- ===== src/Tests/Toy.antt =====
-- A scheme whose signature is the signed message, and an authority compared byte by byte. They
-- show that the hypotheses of the development can hold together.
use drand_rs.Common.{
  Bytes, List, Option, [], arith, bytes_eq, bytes_eq_refl, bytes_eq→eq, false, none, refl, some,
  sym, true, ℕ, ◌%◌, ◌*◌, ◌+◌, ◌/◌, ◌∷◌, ◌≡◌,
}
use drand_rs.Common.Text.{text}
use drand_rs.Scheme.{Authority, Scheme}

-- A share is its index in two bytes and the point.
abbrev toy_share : Bytes → Option (ℕ × Bytes)
toy_share (hi ∷ lo ∷ rest) = some (hi * 256 + lo, rest)
toy_share _ = none

abbrev head_or_empty : List Bytes → Bytes
head_or_empty [] = []
head_or_empty (x ∷ xs) = x

abbrev first_point : List (ℕ × Bytes) → Option Bytes
first_point [] = none
first_point ((i, p) ∷ rest) = some p

abbrev pub toy : Scheme
toy = record {
  KeyPoint = Bytes;
  SigPoint = Bytes;
  PriShare = ℕ;
  Scalar = Bytes;
  id = text "toy";
  point_size = 1;
  is_chained = false;
  deserialize_key = some;
  serialize_key = some;
  deserialize_sig = some;
  serialize_sig = some;
  same_key = bytes_eq;
  same_key_iff = λ a b. (bytes_eq→eq a b, λ h. rw h (bytes_eq_refl b));
  scalar_to_bytes = some;
  scalar_from_bytes = some;
  bls_verify = λ key sig msg. bytes_eq sig msg;
  digest = λ prev round. round ∷ [];
  blake2b = λ x. x;
  sha256 = λ x. x;
  deserialize-serialize_key = λ k h. sym h;
  scalar_from_bytes-to_bytes = λ s h. sym h;
  deserialize-serialize_sig = λ s h. sym h;
  deserialize_share = toy_share;
  serialize_share = λ s. some (s.0 / 256 ∷ s.0 % 256 ∷ s.1);
  sign_share = λ share msg. some (share, msg);
  share_index = λ share. share;
  share_point = λ commits i. head_or_empty commits;
  recover = first_point;
}

pub bytes_eq_sym : (a b : Bytes) → bytes_eq a b ≡ bytes_eq b a
unfolding bytes_eq
bytes_eq_sym [] [] = refl
bytes_eq_sym [] (y ∷ ys) = refl
bytes_eq_sym (x ∷ xs) [] = refl
bytes_eq_sym (x ∷ xs) (y ∷ ys) = ground (arith, bytes_eq_sym xs ys)

pub bytes_eq_trans :
    (a b c : Bytes) → bytes_eq a b ≡ true → bytes_eq b c ≡ true → bytes_eq a c ≡ true
bytes_eq_trans a b c h k = rw (bytes_eq→eq a b h) k

abbrev pub exact : Authority
exact = record {
  same = bytes_eq;
  same_refl = bytes_eq_refl;
  same_sym = bytes_eq_sym;
  same_trans = bytes_eq_trans;
}
