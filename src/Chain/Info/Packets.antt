-- ===== src/Chain/Info/Packets.antt =====
-- Packets of chain information, there and back: src/chain/info.rs.
use drand_rs.Chain.Info.{
  ChainInfo, ChainInfoPacket, from_packet, as_packet, hash, hash_packet, check_genesis_time,
}
use drand_rs.Common.{
  Bool-cases, Option-cases, inl, inr, leb, some, ◌<◌, ◌^◌, ◌≡◌, ap, arith, bytes_eq, bytes_eq_refl,
  ltb→lt, refl, suc, true, two_64, zero, ℕ, ◌%◌, ◌∙◌,
}
use drand_rs.Common.Int.{ℤ}
use drand_rs.Scheme.{Scheme}

module _ (S : Scheme) where
  -- What a packet made from the information holds.
  record Sent (info : ChainInfo S) (p : ChainInfoPacket) : Type 0 where
    key : S.serialize_key info.public_key ≡ some p.public_key
    hashed : hash S info ≡ some p.hash
    small : info.genesis_time < 2 ^ 63
    period : p.period ≡ info.period
    time : p.genesis_time ≡ ℤ.pos info.genesis_time
    group : p.group_hash ≡ info.genesis_seed
    scheme : p.scheme_id ≡ S.id

  as_packet-Sent :
      (info : ChainInfo S) (p : ChainInfoPacket) → as_packet S info ≡ some p → Sent info p
  unfolding as_packet
  as_packet-Sent info p h = elim (Option-cases (S.serialize_key info.public_key)) [
    | inl e ↦ absurd (cc (rw (e, as_packet) at h))
    | inr (key, e) ↦ elim (Option-cases (hash S info)) [
      | inl e' ↦ absurd (cc (rw (e, e', as_packet) at h))
      | inr (d, e') ↦ elim (Bool-cases (leb (2 ^ 63) info.genesis_time)) [
        | inl large ↦ absurd (cc (rw (e, e', large, as_packet) at h))
        | inr small ↦
            let s = rw (e, e', small, as_packet) at h in
            record {
              key = e ∙ ap some (ground arith);
              hashed = e' ∙ ap some (ground arith);
              small = ltb→lt _ _ (ground arith);
              period = ground arith;
              time = ground arith;
              group = ground arith;
              scheme = ground arith;
            }
      ]
    ]
  ]

  check-positive : (n : ℕ) → 0 < n → check_genesis_time (ℤ.pos n) ≡ some n
  unfolding check_genesis_time
  check-positive zero later = absurd (omega arith)
  check-positive (suc n) later = refl

  -- The information comes back from its own packet.
  pub from_packet-as_packet :
      (info : ChainInfo S) (p : ChainInfoPacket)
      → 0 < info.genesis_time
      → as_packet S info ≡ some p
      → from_packet S p info.beacon_id ≡ some info
  unfolding from_packet check_genesis_time
  from_packet-as_packet info p later h =
      let s = as_packet-Sent info p h in
      let id : bytes_eq S.id p.scheme_id ≡ true = rw s.scheme (bytes_eq_refl S.id) in
      let key = S.deserialize-serialize_key info.public_key s.key in
      let time : check_genesis_time p.genesis_time ≡ some info.genesis_time =
        rw s.time (check-positive info.genesis_time later) in
      rw (id, key, time, from_packet, s.period, s.group) refl

  -- A client that hashes the packet finds the hash that the chain has.
  pub hash_packet-as_packet :
      (info : ChainInfo S) (p : ChainInfoPacket)
      → as_packet S info ≡ some p
      → hash S info ≡ some (hash_packet S p info.beacon_id)
  unfolding hash hash_packet
  hash_packet-as_packet info p h =
      let s = as_packet-Sent info p h in
      let fits : info.genesis_time % two_64 ≡ info.genesis_time = omega (arith, s.small) in
      rw (s.key, s.period, s.time, s.group, hash, hash_packet, fits) refl
