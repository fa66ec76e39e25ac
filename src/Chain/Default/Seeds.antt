-- ===== src/Chain/Default/Seeds.antt =====
-- What a follow request takes from the peers' information: src/chain/sync.rs.
use drand_rs.Chain.Beacon.{BeaconPacket, BeaconRepr}
use drand_rs.Chain.Default.{target_of}
use drand_rs.Chain.Info.{ChainInfo, ChainInfoPacket, from_packet, hash_packet}
use drand_rs.Chain.Store.{last, ChainStore, check_genesis}
use drand_rs.Chain.Store.Held.{Extends-refl, Held, Keeps, last-IsChain, check_genesis-Keeps}
use drand_rs.Chain.Sync.Follow.{
  from_config, chain_info_from_peers, process_follow_request, start_follow_chain,
}
use drand_rs.Chain.Sync.Follow.Kept.{process_follow_request-Kept}
use drand_rs.Chain.Time.{current_round, next_round}
use drand_rs.Common.{
  Bool-cases, Bytes, List, Option, Option-cases, Result-cases, [], arith, bytes_eq, false, inl, inr,
  is_empty, leb, none, ok, ok_injective, some, subst, two_64, ℕ, ◌<◌, ◌∷◌, ◌≡◌,
}
use drand_rs.Dkg.Execution.Finish.{seeded}
use drand_rs.Scheme.{Scheme}

-- The information that the peers give has a genesis seed.
unfoldable pub Seeded : List (Option ChainInfoPacket) → Type 0
Seeded [] = Unit
Seeded (none ∷ peers) = Seeded peers
Seeded (some packet ∷ peers) = (is_empty packet.group_hash ≡ false) × Seeded peers

pub chain_info_from_peers-Seeded :
    (beacon_id : Bytes) (peers : List (Option ChainInfoPacket)) {packet : ChainInfoPacket}
    → Seeded peers
    → chain_info_from_peers beacon_id peers ≡ ok packet
    → is_empty packet.group_hash ≡ false
unfolding chain_info_from_peers Seeded
chain_info_from_peers-Seeded beacon_id [] s e = absurd (cc)
chain_info_from_peers-Seeded beacon_id (none ∷ peers) s e =
    chain_info_from_peers-Seeded beacon_id peers s e
chain_info_from_peers-Seeded beacon_id (some p ∷ peers) (seeded, s) e =
    elim (Option-cases p.metadata) [
      | inl none_there ↦
          chain_info_from_peers-Seeded beacon_id peers s
            (rw (none_there, chain_info_from_peers) at e)
      | inr (m, there) ↦ elim (Bool-cases (bytes_eq m.beacon_id beacon_id)) [
        | inl same ↦
            subst (λ (q : ChainInfoPacket). is_empty q.group_hash ≡ false)
              (ok_injective (rw (there, same, chain_info_from_peers) at e)) seeded
        | inr other ↦
            chain_info_from_peers-Seeded beacon_id peers s
              (rw (there, other, chain_info_from_peers) at e)
      ]
    ]

current_round_fits : (now period genesis : ℕ) → current_round now period genesis < two_64
unfolding current_round next_round
current_round_fits now period genesis = ground arith

module _ (S : Scheme) (R : BeaconRepr) where
  pub target_of_fits :
      (up_to now period genesis : ℕ)
      → target_of S R up_to (current_round now period genesis) < two_64
  unfolding target_of
  target_of_fits up_to now period genesis = ground (arith, current_round_fits now period genesis)

  pub from_packet-seed :
      (packet : ChainInfoPacket) (id : Bytes) {info : ChainInfo S}
      → from_packet S packet id ≡ some info
      → info.genesis_seed ≡ packet.group_hash
  unfolding from_packet
  from_packet-seed packet id e = ground arith

  pub from_config-from_packet :
      (packet : ChainInfoPacket) (id : Bytes) {info : ChainInfo S}
      → from_config S R packet id ≡ ok info
      → from_packet S packet id ≡ some info
  unfolding from_config
  from_config-from_packet packet id {info} e = elim (Option-cases (from_packet S packet id)) [
    | inl none_there ↦ absurd (ground arith)
    | inr (i, there) ↦ ground arith
  ]

  -- A sync task keeps a store that is held under the key of its information.
  pub process_follow_request-Keeps :
      (info : ChainInfo S) (target : ℕ) (store : ChainStore R)
      (peers : List (Option (List BeaconPacket))) (room : ℕ)
      → target < two_64
      → Held S R info.public_key store.rows
      → Keeps S R info.public_key store (process_follow_request S R info target store peers room).0
  unfolding process_follow_request
  process_follow_request-Keeps info target store peers room big held =
      let unchanged : Keeps S R info.public_key store store = (held, Extends-refl R store.rows) in
      elim (Result-cases (last R store)) [
        | inr (e, bad) ↦ rw (bad, process_follow_request) unchanged
        | inl (b, found) ↦ elim (Bool-cases (leb target (R.round b))) [
          | inl early ↦ rw (found, early, process_follow_request) unchanged
          | inr later ↦
              let chain = last-IsChain S R info.public_key store held found in
              let kept =
                process_follow_request-Kept S R info target store b peers room big (ground arith)
                  chain in
              (
                inr (kept.latest, kept.continues.chain),
                (kept.continues.news, kept.continues.appended),
              )
        ]
      ]

  pub start_follow_chain-Keeps :
      (pk : S.KeyPoint) (chain_hash beacon_id : Bytes) (store : ChainStore R)
      (peers : List (Option ChainInfoPacket))
      → Held S R pk store.rows
      → Keeps S R pk store (start_follow_chain S R chain_hash beacon_id store peers).0
  unfolding start_follow_chain
  start_follow_chain-Keeps pk chain_hash beacon_id store peers held =
      let unchanged : Keeps S R pk store store = (held, Extends-refl R store.rows) in
      elim (Bool-cases (is_empty peers)) [
        | inl no_peers ↦ rw (no_peers, start_follow_chain) unchanged
        | inr some_peers ↦ elim (Result-cases (chain_info_from_peers beacon_id peers)) [
          | inr (e, bad) ↦ rw (some_peers, bad, start_follow_chain) unchanged
          | inl (packet, found) ↦
              elim (Bool-cases (bytes_eq (hash_packet S packet beacon_id) chain_hash)) [
                | inr other ↦ rw (some_peers, found, other, start_follow_chain) unchanged
                | inl same ↦
                    let kept = check_genesis-Keeps S R pk store packet.group_hash held in
                    elim (Result-cases (check_genesis R store packet.group_hash).1) [
                      | inr (e, bad) ↦ rw (some_peers, found, same, bad, start_follow_chain) kept
                      | inl (u, fine) ↦ rw (some_peers, found, same, fine, start_follow_chain) kept
                    ]
              ]
        ]
      ]

  pub start_follow_chain-Seeded :
      (chain_hash beacon_id : Bytes) (store : ChainStore R) (peers : List (Option ChainInfoPacket))
      {packet : ChainInfoPacket}
      → Seeded peers
      → (start_follow_chain S R chain_hash beacon_id store peers).1 ≡ ok packet
      → is_empty packet.group_hash ≡ false
  unfolding start_follow_chain
  start_follow_chain-Seeded chain_hash beacon_id store peers {packet} s e =
      elim (Bool-cases (is_empty peers)) [
        | inl no_peers ↦ absurd (cc (rw (no_peers, start_follow_chain) at e))
        | inr some_peers ↦ elim (Result-cases (chain_info_from_peers beacon_id peers)) [
          | inr (x, bad) ↦ absurd (cc (rw (some_peers, bad, start_follow_chain) at e))
          | inl (p, found) ↦ elim (Bool-cases (bytes_eq (hash_packet S p beacon_id) chain_hash)) [
            | inr other ↦ absurd (cc (rw (some_peers, found, other, start_follow_chain) at e))
            | inl same ↦ elim (Result-cases (check_genesis R store p.group_hash).1) [
              | inr (x, bad) ↦
                  absurd (cc (rw (some_peers, found, same, bad, start_follow_chain) at e))
              | inl (u, fine) ↦
                  let p_is : p ≡ packet =
                    ok_injective (rw (some_peers, found, same, fine, start_follow_chain) at e) in
                  subst (λ (q : ChainInfoPacket). is_empty q.group_hash ≡ false) p_is
                    (chain_info_from_peers-Seeded beacon_id peers s found)
            ]
          ]
        ]
      ]
