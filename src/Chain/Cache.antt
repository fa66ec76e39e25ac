-- ===== src/Chain/Cache.antt =====
-- The cache of partial signatures: src/chain/cache.rs.
-- `CACHE_LIMIT_ROUNDS`.
use drand_rs.Chain.Beacon.{PartialBeaconPacket}
use drand_rs.Chain.Epoch.{EpochConfig, SigShare, verify_partial}
use drand_rs.Common.{
  Bool, Bytes, List, Option, [], add_u64, any, bytes_eq, drop, err, false, if◌then◌else◌, is_empty,
  leb, length, ltb, none, ok, some, suc, true, zero, ℕ, ◌*◌, ◌++◌, ◌+◌, ◌-◌, ◌==◌, ◌∷◌,
}
use drand_rs.Scheme.{Scheme}
pub mod Aligned
pub mod Shares

abbrev pub cache_limit_rounds : ℕ
cache_limit_rounds = 3

pub record PartialsUnchecked : Type 0 where
  pub round : ℕ  -- u64
  pub packets : List PartialBeaconPacket

pub record PartialCache (S : Scheme) : Type 0 where
  pub thr : ℕ  -- usize
  pub height : ℕ  -- u64
  pub valid_sigs : List (SigShare S)
  pub rounds_cache : List PartialsUnchecked

abbrev pub empty_round : ℕ → PartialsUnchecked
empty_round r = record { round = r; packets = [] }

-- The entries of the rounds first .. first + n - 1.
range : ℕ → ℕ → List PartialsUnchecked
range first zero = []
range first (suc n) = empty_round first ∷ range (add_u64 first 1) n

unfoldable pub new : (S : Scheme) → ℕ → ℕ → PartialCache S
unfolding range
new S latest_stored thr = record {
  thr = thr;
  height = latest_stored;
  valid_sigs = [];
  rounds_cache = range (add_u64 latest_stored 2) cache_limit_rounds;
}

-- The first entry of the packet's round takes it, unless its signature is there.
unfoldable pub add_to_round :
    PartialBeaconPacket → List PartialsUnchecked → Option (Bool × List PartialsUnchecked)
unfolding any
add_to_round packet [] = none
add_to_round packet (r ∷ rs) =
    let rest = add_to_round packet rs in
    if r.round == packet.round
    then if any (λ (i : PartialBeaconPacket). bytes_eq i.partial_sig packet.partial_sig) r.packets
      then some (false, r ∷ rs)
      else some (true, record r { packets = r.packets ++ packet ∷ [] } ∷ rs)
    else elim rest [ none ↦ none | some (added, rs') ↦ some (added, r ∷ rs') ]

-- Insertion by the index, after the shares of the same index.
insert_share : (S : Scheme) → SigShare S → List (SigShare S) → List (SigShare S)
insert_share S s [] = s ∷ []
insert_share S s (x ∷ xs) =
    let rest = insert_share S s xs in if ltb s.0 x.0 then s ∷ x ∷ xs else x ∷ rest

-- sort_by_key(SigShare::index), which is stable.
unfoldable pub sort_by_index :
    (S : Scheme) → List (SigShare S) → List (SigShare S) → List (SigShare S)
unfolding insert_share
sort_by_index S [] sorted = sorted
sort_by_index S (x ∷ xs) sorted = sort_by_index S xs (insert_share S x sorted)

module _ (S : Scheme) where
  unfoldable pub add_packet : PartialCache S → PartialBeaconPacket → PartialCache S × Option Bool
  unfolding add_to_round
  add_packet c packet = elim (add_to_round packet c.rounds_cache) [
    | none ↦ (c, none)
    | some (added, rounds) ↦ (record c { rounds_cache = rounds }, some added)
  ]

  unfoldable pub is_share_present : PartialCache S → ℕ → Bool
  unfolding any
  is_share_present c index = any (λ (s : SigShare S). s.0 == index) c.valid_sigs

  -- The shares, sorted by their index, once there are as many as the threshold.
  unfoldable pub add_prechecked :
      PartialCache S → SigShare S → PartialCache S × Option (List (SigShare S))
  unfolding sort_by_index
  add_prechecked c valid_sig =
      let sigs = c.valid_sigs ++ valid_sig ∷ [] in
      let sorted = sort_by_index S sigs [] in
      if ltb (length sigs) c.thr
      then (record c { valid_sigs = sigs }, none)
      else (record c { valid_sigs = sorted }, some sorted)

  -- `for i in 1..=gap`: the entries latest_stored + i + CACHE_LIMIT_ROUNDS.
  new_rounds : ℕ → ℕ → ℕ → List PartialsUnchecked
  new_rounds latest_stored i zero = []
  new_rounds latest_stored i (suc n) =
      empty_round (add_u64 (add_u64 latest_stored i) cache_limit_rounds)
      ∷ new_rounds latest_stored (i + 1) n

  -- The packets of the entry that was popped, where it has some.
  popped : List PartialsUnchecked → Option (List PartialBeaconPacket)
  popped [] = none
  popped (r ∷ rs) = if is_empty r.packets then none else some r.packets

  -- `for i in 0..gap` pops the front only at i = gap - 1, so once.
  unfoldable pub update : PartialCache S → ℕ → PartialCache S × Option (List PartialBeaconPacket)
  unfolding new_rounds popped
  update c latest_stored =
      let gap = latest_stored - c.height in
      let rounds = c.rounds_cache ++ new_rounds latest_stored 1 gap in
      if leb latest_stored c.height
      then (c, none)
      else if leb gap cache_limit_rounds
      then (
        record c { valid_sigs = []; height = latest_stored; rounds_cache = drop 1 rounds },
        popped rounds,
      )
      else (new S latest_stored c.thr, none)

  -- u32::from_be_bytes([0, 0, partial[0], partial[1]]) of a partial of the right length.
  unfoldable pub get_partial_index : Bytes → Option ℕ
  get_partial_index (hi ∷ lo ∷ rest) =
      if length rest == S.point_size then some (hi * 256 + lo) else none
  get_partial_index _ = none

  -- One packet of `align`.
  check_packet : EpochConfig S → PartialBeaconPacket → List (SigShare S) → List (SigShare S)
  unfolding any
  check_packet ec packet sigs = elim (get_partial_index packet.partial_sig) [
    | none ↦ sigs
    | some idx ↦
        if any (λ (s : SigShare S). s.0 == idx) sigs
        then sigs
        else elim (verify_partial S ec packet) [
          | ok (share, peer) ↦ sigs ++ share ∷ []
          | err e ↦ sigs
        ]
  ]

  check_packets : EpochConfig S → List PartialBeaconPacket → List (SigShare S) → List (SigShare S)
  unfolding check_packet
  check_packets ec [] sigs = sigs
  check_packets ec (p ∷ ps) sigs = check_packets ec ps (check_packet ec p sigs)

  unfoldable pub align : PartialCache S → EpochConfig S → ℕ → PartialCache S
  unfolding update check_packets
  align c ec latest_stored =
      let (c', packets) = update c latest_stored in
      elim packets [
        | none ↦ c'
        | some ps ↦ record c' { valid_sigs = check_packets ec ps c'.valid_sigs }
      ]
