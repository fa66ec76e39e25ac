-- ===== src/Dkg/Signing.antt =====
-- The bytes that a gossip packet is signed over, and the check of its signature:
-- src/dkg/actions_signing.rs and the GossipAuth instance of src/dkg/state.rs.
pub mod Timestamps
use Prim.Native.String.{String}
use drand_rs.Common.{
  Bool, Bytes, List, Option, Result, [], add_u64, err, false, find, if◌then◌else◌, none, ok, some,
  two_32, two_64, ℕ, ◌%◌, ◌++◌, ◌-◌, ◌/◌, ◌∷◌,
}
use drand_rs.Common.Int.{negsuc, pos, ℤ, pattern_of}
use drand_rs.Common.Text.{text}
use drand_rs.Dkg.Packet.{GossipData, GossipPacket, Participant, ProposalTerms, Timestamp}
use drand_rs.Dkg.State.{State}
use drand_rs.Scheme.{Authority, Scheme}

-- The byte of weight 256 ^ k of a number.
abbrev pub byte_of : ℕ → ℕ → ℕ
byte_of x weight = x / weight % 256

-- u32::to_le_bytes.
unfoldable pub to_le_bytes : ℕ → Bytes
to_le_bytes x = byte_of x 1 ∷ byte_of x 256 ∷ byte_of x 65536 ∷ byte_of x 16777216 ∷ []

-- 62135596800 seconds lie between the year 1 and the Unix epoch; the sum wraps as an i64.
unfoldable pub enc_timestamp : Timestamp → Bytes
enc_timestamp t =
    let sec = add_u64 (pattern_of two_64 t.seconds) 62135596800 in
    let nsec = pattern_of two_32 t.nanos in
    1
    ∷ byte_of sec 72057594037927936
    ∷ byte_of sec 281474976710656
    ∷ byte_of sec 1099511627776
    ∷ byte_of sec 4294967296
    ∷ byte_of sec 16777216
    ∷ byte_of sec 65536
    ∷ byte_of sec 256
    ∷ byte_of sec 1
    ∷ byte_of nsec 16777216
    ∷ byte_of nsec 65536
    ∷ byte_of nsec 256
    ∷ byte_of nsec 1
    ∷ 255
    ∷ 255
    ∷ []

unfoldable pub enc_participant : String → Participant → Bytes
enc_participant role identity =
    text role ++ (identity.address ++ (text "\nSig:" ++ identity.signature))

unfoldable pub enc_terms : ProposalTerms → Bytes
unfolding to_le_bytes
enc_terms p =
    text "Proposal:"
    ++ (p.beacon_id
        ++ (text "\n"
            ++ (to_le_bytes p.epoch
                ++ (text "\nLeader:" ++ (p.leader.address ++ (text "\n" ++ p.leader.signature))))))

unfoldable pub enc_data : GossipData → Bytes
unfolding enc_terms enc_timestamp
enc_data (GossipData.proposal terms) = enc_terms terms
enc_data (GossipData.accept acceptor) = text "Accepted:" ++ (acceptor.address ++ text "\n")
enc_data (GossipData.reject r) = text "Rejected:" ++ (r.rejector.address ++ text "\n")
enc_data (GossipData.abort reason) = text "Aborted:" ++ reason
enc_data (GossipData.execute time) = text "Execute:" ++ enc_timestamp time
enc_data (GossipData.dkg id bundle) = text "Gossip packet"

unfoldable pub enc_packet : GossipPacket → Bytes
unfolding enc_data
enc_packet p = text "beaconID:" ++ (p.metadata.beacon_id ++ (text "\n" ++ enc_data p.body))

enc_all : String → List Participant → Bytes
unfolding enc_participant
enc_all role [] = []
enc_all role (p ∷ ps) = enc_participant role p ++ enc_all role ps

unfoldable pub enc_state : (S : Scheme) → State S → Bytes
unfolding to_le_bytes enc_timestamp enc_all
enc_state S s =
    text "Proposal:\n"
    ++ (s.beacon_id
        ++ (text "\n"
            ++ (to_le_bytes s.epoch
                ++ (text "\nLeader:"
                    ++ (s.leader.address
                        ++ (text "\n"
                            ++ (s.leader.signature
                                ++ (to_le_bytes s.threshold
                                    ++ (enc_timestamp s.timeout
                                        ++ (to_le_bytes s.catchup_period
                                            ++ (to_le_bytes s.beacon_period
                                                ++ (text "\nScheme: "
                                                    ++ (S.id
                                                        ++ (text "\n"
                                                            ++ (enc_timestamp s.genesis_time
                                                            ++ (enc_all "\nJoiner:" s.joining
                                                            ++ (enc_all "\nRemainer:" s.remaining
                                                            ++ enc_all "\nLeaver:"
                                                            s.leaving)))))))))))))))))

unfoldable pub msg_for_signing : GossipPacket → Bytes → Bytes
unfolding enc_packet
msg_for_signing packet enc_state = enc_packet packet ++ enc_state

unfoldable pub is_valid_signature : Scheme → Bytes → Bytes → Bytes → Bool
is_valid_signature S key sig msg = elim (S.deserialize_key key) [
  | none ↦ false
  | some k ↦ elim (S.deserialize_sig sig) [ none ↦ false | some s ↦ S.bls_verify k s msg ]
]

pub data VerifyError : Type 0 where
  missing_participant invalid_signature : VerifyError

-- Option::or_else.
abbrev or_else {ℓ} : {A : Type ℓ} → Option A → Option A → Option A
or_else none b = b
or_else (some a) b = some a

-- The participant that the packet claims to be from: a joiner, or else a remaining node.
unfoldable pub sender : {S : Scheme} → Authority → State S → Bytes → Option Participant
unfolding find
sender au s address =
    or_else (find (λ (p : Participant). au.same p.address address) s.joining)
      (find (λ (p : Participant). au.same p.address address) s.remaining)

unfoldable pub verify_msg :
    (S : Scheme) → Authority → GossipPacket → State S → Result VerifyError (Unit {0})
unfolding sender msg_for_signing is_valid_signature
verify_msg S au gp s = elim (sender au s gp.metadata.address) [
  | none ↦ err VerifyError.missing_participant
  | some participant ↦
      if is_valid_signature S participant.key gp.metadata.signature
        (msg_for_signing gp (enc_state S s))
      then ok tt
      else err VerifyError.invalid_signature
]
