-- ===== src/Tests/DkgData.antt =====
-- A node, a first proposal and its folders under the toy scheme: src/dkg.
use drand_rs.Common.{Bytes, [], none, some, true, ℕ, ◌++◌, ◌∷◌}
use drand_rs.Common.Int.{ℤ}
use drand_rs.Common.Text.{text}
use drand_rs.Dkg.Packet.{GossipPacket, GossipData, Participant, ProposalTerms, Timestamp}
use drand_rs.Dkg.Signing.{msg_for_signing, enc_state}
use drand_rs.Dkg.State.{State, fresh, from_terms}
use drand_rs.Dkg.Store.{DkgStore}
use drand_rs.Tests.Toy.{toy}

abbrev pub me : Participant
me = record { address = text "a:1"; key = 5 ∷ []; signature = text "toy" ++ 5 ∷ [] }

abbrev pub at_second : ℕ → Timestamp
at_second n = record { seconds = ℤ.pos n; nanos = ℤ.pos 0 }

-- A first epoch of one node.
abbrev pub terms : ProposalTerms
terms = record {
  beacon_id = text "default";
  epoch = 1;
  leader = me;
  threshold = 1;
  timeout = at_second 100;
  catchup_period_seconds = 1;
  beacon_period_seconds = 3;
  scheme_id = text "toy";
  genesis_time = at_second 200;
  genesis_seed = [];
  joining = me ∷ [];
  remaining = [];
  leaving = [];
}

abbrev pub start : State toy
start = fresh toy (text "default")

abbrev pub proposed_state : State toy
proposed_state = from_terms toy terms

abbrev pub signed_by : Bytes → GossipPacket
signed_by signature = record {
  metadata = record { beacon_id = text "default"; address = text "a:1"; signature = signature };
  body = GossipData.proposal terms;
}

abbrev pub proposal : GossipPacket
proposal = signed_by (msg_for_signing (signed_by []) (enc_state toy proposed_state))

abbrev pub new_folder : DkgStore toy
new_folder = record { exists = true; current = some start; finished = none }

abbrev pub proposed_folder : DkgStore toy
proposed_folder = record { exists = true; current = some proposed_state; finished = none }
