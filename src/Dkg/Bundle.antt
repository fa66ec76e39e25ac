-- ===== src/Dkg/Bundle.antt =====
-- The bundles of a running DKG and their protobuf form: src/dkg/broadcast.rs, with the bundles of
-- `energon` and the messages of src/protobuf/dkg.rs.
pub mod Convert
use drand_rs.Common.{
  Bool, Bytes, List, Option, Result, [], err, none, ok, ok_or, some, ℕ, ◌>>=◌, ◌>>◌, ◌∷◌,
}
use drand_rs.Scheme.{Scheme}

pub record Deal : Type 0 where
  pub share_index : ℕ  -- u32
  pub encrypted_share : Bytes

pub record DealBundle (S : Scheme) : Type 0 where
  pub dealer_index : ℕ  -- u32
  pub deals : List Deal
  pub public : List S.KeyPoint
  pub session_id : Bytes
  pub signature : Bytes

pub record Response : Type 0 where
  pub dealer_index : ℕ  -- u32
  pub status : Bool

pub record ResponseBundle : Type 0 where
  pub share_index : ℕ  -- u32
  pub responses : List Response
  pub session_id : Bytes
  pub signature : Bytes

pub record Justification (S : Scheme) : Type 0 where
  pub share_index : ℕ  -- u32
  pub share : S.Scalar

pub record JustificationBundle (S : Scheme) : Type 0 where
  pub dealer_index : ℕ  -- u32
  pub justifications : List (Justification S)
  pub session_id : Bytes
  pub signature : Bytes

pub data Bundle (S : Scheme) : Type 0 where
  deal : DealBundle S → Bundle S
  response : ResponseBundle → Bundle S
  justification : JustificationBundle S → Bundle S

-- The messages. Those of a deal and of a response have the fields of the bundle's own.
pub record ProtoDealBundle : Type 0 where
  pub dealer_index : ℕ
  pub commits : List Bytes
  pub deals : List Deal
  pub session_id : Bytes
  pub signature : Bytes

pub record ProtoJustification : Type 0 where
  pub share_index : ℕ
  pub share : Bytes

pub record ProtoJustificationBundle : Type 0 where
  pub dealer_index : ℕ
  pub justifications : List ProtoJustification
  pub session_id : Bytes
  pub signature : Bytes

pub data ProtoBundle : Type 0 where
  deal : ProtoDealBundle → ProtoBundle
  response : ResponseBundle → ProtoBundle
  justification : ProtoJustificationBundle → ProtoBundle

-- `Packet` with the beacon's id of its metadata, and `DkgPacket`.
pub record Packet : Type 0 where
  pub beacon_id : Option Bytes
  pub bundle : Option ProtoBundle

pub record DkgPacket : Type 0 where
  pub dkg : Option Packet

pub data ConvertError : Type 0 where
  empty_proto from_inner : ConvertError

-- The loop of a conversion, which stops at the first element that has none.
unfoldable pub map_all {ℓ κ} : {A : Type ℓ} {B : Type κ} → (A → Option B) → List A → Option (List B)
map_all f [] = some []
map_all f (x ∷ xs) = elim (f x) [
  | none ↦ none
  | some y ↦ elim (map_all f xs) [ none ↦ none | some ys ↦ some (y ∷ ys) ]
]

module _ (S : Scheme) where
  unfoldable pub justification_from : ProtoJustification → Option (Justification S)
  justification_from j = elim (S.scalar_from_bytes j.share) [
    | none ↦ none
    | some share ↦ some (record { share_index = j.share_index; share = share })
  ]

  unfoldable pub justification_into : Justification S → Option ProtoJustification
  justification_into j = elim (S.scalar_to_bytes j.share) [
    | none ↦ none
    | some share ↦ some (record { share_index = j.share_index; share = share })
  ]

  -- `Convert::from_proto` of the three kinds of bundle.
  unfoldable pub bundle_from : ProtoBundle → Result ConvertError (Bundle S)
  bundle_from (ProtoBundle.deal d) = do
    public ← ok_or (map_all S.deserialize_key d.commits) ConvertError.from_inner
    ok (
        Bundle.deal (record {
          dealer_index = d.dealer_index;
          deals = d.deals;
          public = public;
          session_id = d.session_id;
          signature = d.signature;
        }))
  bundle_from (ProtoBundle.response r) = ok (Bundle.response r)
  bundle_from (ProtoBundle.justification j) = do
    justifications ← ok_or (map_all justification_from j.justifications) ConvertError.from_inner
    ok (
        Bundle.justification (record {
          dealer_index = j.dealer_index;
          justifications = justifications;
          session_id = j.session_id;
          signature = j.signature;
        }))

  -- `Convert::into_proto` of the three kinds of bundle.
  unfoldable pub bundle_into : Bundle S → Result ConvertError ProtoBundle
  bundle_into (Bundle.deal d) = do
    commits ← ok_or (map_all S.serialize_key d.public) ConvertError.from_inner
    ok (
        ProtoBundle.deal (record {
          dealer_index = d.dealer_index;
          commits = commits;
          deals = d.deals;
          session_id = d.session_id;
          signature = d.signature;
        }))
  bundle_into (Bundle.response r) = ok (ProtoBundle.response r)
  bundle_into (Bundle.justification j) = do
    justifications ← ok_or (map_all justification_into j.justifications) ConvertError.from_inner
    ok (
        ProtoBundle.justification (record {
          dealer_index = j.dealer_index;
          justifications = justifications;
          session_id = j.session_id;
          signature = j.signature;
        }))

  unfoldable pub into_proto : Bundle S → Bytes → Result ConvertError DkgPacket
  into_proto bundle id = do
    proto_bundle ← bundle_into bundle
    ok (record { dkg = some (record { beacon_id = some id; bundle = some proto_bundle }) })

  -- src/dkg/utils.rs.
  unfoldable pub bundle_from_proto : DkgPacket → Option (Bundle S)
  bundle_from_proto proto = elim proto.dkg [
    | none ↦ none
    | some packet ↦ elim packet.bundle [
      | none ↦ none
      | some b ↦ elim (bundle_from b) [ ok bundle ↦ some bundle | err e ↦ none ]
    ]
  ]
