-- ===== src/Chain/Cache/Aligned.antt =====
-- The rounds that the cache has room for: src/chain/cache.rs.
use Prim.Native.Nat.{max}
use mathlib.Core.List.{head-eq_of_cons-eq}
use drand_rs.Chain.Beacon.{PartialBeaconPacket}
use drand_rs.Chain.Cache.{
  PartialCache, PartialsUnchecked, new, add_packet, add_to_round, update, new_rounds, popped,
  cache_limit_rounds,
}
use drand_rs.Chain.Epoch.{thr}
use drand_rs.Common.{
  List, [], map, two_64, ℕ, ◌+◌, ◌<◌, ◌∷◌, ◌≡◌, Option, arith, none, refl, some, ◌++◌, Bool-cases,
  drop, false, inl, inr, is_empty, leb, subst, true, ◌-◌, ◌≤◌, ◌∙◌, ◌⊎◌, sym,
}
use drand_rs.Scheme.{Scheme}

abbrev pub rounds_of : List PartialsUnchecked → List ℕ
rounds_of = map (λ r. r.round)

-- The three rounds after the one that is being aggregated.
abbrev pub allowed : ℕ → List ℕ
allowed height = (height + 2) ∷ (height + 3) ∷ (height + 4) ∷ []

-- Every cached packet is of the round of its entry.
abbrev pub AreOfRound : ℕ → List PartialBeaconPacket → Type 0
AreOfRound r [] = Unit
AreOfRound r (p ∷ ps) = (p.round ≡ r) × AreOfRound r ps

abbrev pub AreFiled : List PartialsUnchecked → Type 0
AreFiled [] = Unit
AreFiled (r ∷ rs) = AreOfRound r.round r.packets × AreFiled rs

pub record IsAligned {S : Scheme} (c : PartialCache S) : Type 0 where
  pub rounds : rounds_of c.rounds_cache ≡ allowed c.height
  pub filed : AreFiled c.rounds_cache

-- A list of three entries, written out.
pub entries :
    (l : List PartialsUnchecked) {a b c : ℕ}
    → rounds_of l ≡ a ∷ b ∷ c ∷ []
    → (x y z : PartialsUnchecked) × (l ≡ x ∷ y ∷ z ∷ [])
      × (x.round ≡ a)
      × (y.round ≡ b)
      × (z.round ≡ c)
entries [] h = absurd (cc)
entries (x ∷ []) h = absurd (cc)
entries (x ∷ y ∷ []) h = absurd (cc)
entries (x ∷ y ∷ z ∷ []) h = (x, y, z, refl, cc, cc, cc)
entries (x ∷ y ∷ z ∷ w ∷ ws) h = absurd (cc)

pub AreOfRound-append :
    (r : ℕ) (ps : List PartialBeaconPacket) (p : PartialBeaconPacket)
    → AreOfRound r ps
    → p.round ≡ r
    → AreOfRound r (ps ++ p ∷ [])
AreOfRound-append r [] p h e = (e, tt)
AreOfRound-append r (q ∷ ps) p h e = (h.0, AreOfRound-append r ps p h.1 e)

-- What an update hands on for the next round: only packets of that round.
abbrev pub HandsOn : ℕ → Option (List PartialBeaconPacket) → Type 0
HandsOn r none = Unit
HandsOn r (some ps) = AreOfRound r ps

module _ (S : Scheme) where
  pub new-IsAligned :
      (latest_stored thr : ℕ) → latest_stored + 8 < two_64 → IsAligned (new S latest_stored thr)
  unfolding new
  new-IsAligned latest_stored thr small = ground arith

  -- A gap of 1, 2 or 3 takes the branch that keeps the cache.
  update-near :
      (c : PartialCache S) (latest_stored gap : ℕ)
      → latest_stored ≡ c.height + gap
      → 0 < gap
      → gap ≤ cache_limit_rounds
      → update S c latest_stored ≡ (
        record c {
          valid_sigs = [];
          height = latest_stored;
          rounds_cache = drop 1 (c.rounds_cache ++ new_rounds S latest_stored 1 gap);
        },
        popped S (c.rounds_cache ++ new_rounds S latest_stored 1 gap),
      )
  unfolding update
  update-near c latest_stored gap e lo hi =
      let d : latest_stored - c.height ≡ gap = omega arith in
      let t : leb latest_stored c.height ≡ false = ground arith in
      let u : leb gap cache_limit_rounds ≡ true = ground arith in rw (d, t, u)

  AreOfRound-popped :
      (x : PartialsUnchecked) (rest : List PartialsUnchecked) (r : ℕ)
      → x.round ≡ r
      → AreOfRound x.round x.packets
      → HandsOn r (popped S (x ∷ rest))
  unfolding popped
  AreOfRound-popped x rest r e f = elim (Bool-cases (is_empty x.packets)) [
    | inl none_there ↦ rw none_there tt
    | inr some_there ↦ rw some_there (subst (λ k. AreOfRound k x.packets) e f)
  ]

  update_one :
      (c : PartialCache S)
      → c.height + 9 < two_64
      → IsAligned c
      → IsAligned (update S c (c.height + 1)).0
        × ((update S c (c.height + 1)).0.height ≡ c.height + 1)
        × HandsOn (c.height + 2) (update S c (c.height + 1)).1
  unfolding new_rounds
  update_one c small v =
      let (x, y, z, e, ex, ey, ez) = entries c.rounds_cache v.rounds in
      let f : AreFiled (x ∷ y ∷ z ∷ []) = subst AreFiled e v.filed in
      rw (update-near c (c.height + 1) 1 refl (omega arith) (omega arith)) (
        rw e (
          record { rounds = ground arith; filed = (f.1.0, (f.1.1.0, (tt, tt))) },
          refl,
          AreOfRound-popped x _ (c.height + 2) ex f.0,
        ))

  update_far :
      (c : PartialCache S) (latest_stored : ℕ)
      → c.height + 3 < latest_stored
      → update S c latest_stored ≡ (new S latest_stored c.thr, none)
  unfolding update
  update_far c latest_stored h =
      let t : leb latest_stored c.height ≡ false = ground arith in
      let u : leb (latest_stored - c.height) cache_limit_rounds ≡ false = ground arith in rw (t, u)

  update_old :
      (c : PartialCache S) (latest_stored : ℕ)
      → latest_stored ≤ c.height
      → update S c latest_stored ≡ (c, none)
  unfolding update
  update_old c latest_stored h = let t : leb latest_stored c.height ≡ true = ground arith in rw t

  new_height : (latest_stored thr : ℕ) → (new S latest_stored thr).height ≡ latest_stored
  unfolding new
  new_height latest_stored thr = refl

  -- An update to a stored round that is not 2 or 3 ahead of an aligned cache leaves an aligned
  -- cache at the later of the two heights, and hands on only packets of the next round.
  pub update-IsAligned :
      (c : PartialCache S) (latest_stored : ℕ)
      → latest_stored + 8 < two_64
      → IsAligned c
      → (latest_stored ≤ c.height + 1) ⊎ (c.height + 3 < latest_stored)
      → IsAligned (update S c latest_stored).0
        × ((update S c latest_stored).0.height ≡ max c.height latest_stored)
        × HandsOn (latest_stored + 1) (update S c latest_stored).1
  update-IsAligned c latest_stored small v (inl near) =
      elim (Bool-cases (leb latest_stored c.height)) [
        | inl old ↦ rw (update_old c latest_stored (ground arith)) (v, ground arith, tt)
        | inr later ↦
            let e : latest_stored ≡ c.height + 1 = ground arith in
            let (a, h, p) = update_one c (omega arith) v in
            let m : max c.height latest_stored ≡ c.height + 1 = omega arith in
            let n : latest_stored + 1 ≡ c.height + 2 = omega arith in rw (m, n) (rw e (a, h, p))
      ]
  update-IsAligned c latest_stored small v (inr far) =
      rw (update_far c latest_stored far) (
        new-IsAligned latest_stored c.thr small,
        new_height latest_stored c.thr ∙ (omega arith),
        tt,
      )

  add_packet-refused :
      (c : PartialCache S) (p : PartialBeaconPacket)
      → add_to_round p c.rounds_cache ≡ none
      → (add_packet S c p).1 ≡ none
  unfolding add_packet
  add_packet-refused c p h = ground arith

  popped-some :
      (x : PartialsUnchecked) (rest : List PartialsUnchecked)
      → is_empty x.packets ≡ false
      → popped S (x ∷ rest) ≡ some x.packets
  unfolding popped
  popped-some x rest some_there = rw some_there refl

  -- An aligned cache whose first entry has packets, after two or three beacons were stored since the
  -- last update, as a resync does without touching the cache: the update hands on the packets of that
  -- entry for the check against the next round, though they are of a round that is stored already,
  -- and the cache then refuses every packet of the third round after the latest stored one, which the
  -- chain lets through to it.
  pub update_short_gap :
      (c : PartialCache S) (x : PartialsUnchecked) (rest : List PartialsUnchecked) (gap : ℕ)
      (p : PartialBeaconPacket)
      → c.height + 12 < two_64
      → IsAligned c
      → c.rounds_cache ≡ x ∷ rest
      → is_empty x.packets ≡ false
      → (gap ≡ 2) ⊎ (gap ≡ 3)
      → p.round ≡ c.height + gap + 3
      → ((update S c (c.height + gap)).1 ≡ some x.packets)
        × AreOfRound (c.height + 2) x.packets
        × (c.height + 2 ≤ c.height + gap)
        × ((add_packet S (update S c (c.height + gap)).0 p).1 ≡ none)
  unfolding new_rounds
  update_short_gap c x rest gap p small v first some_there short r =
      let (y, z, w, e, ey, ez, ew) = entries c.rounds_cache v.rounds in
      let f : AreFiled (y ∷ z ∷ w ∷ []) = subst AreFiled e v.filed in
      let same : y ≡ x = head-eq_of_cons-eq (sym e ∙ first) in
      let own : AreOfRound (c.height + 2) x.packets =
        subst (λ (u : PartialsUnchecked). AreOfRound (c.height + 2) u.packets) same
          (subst (λ k. AreOfRound k y.packets) ey f.0) in
      let handed : (more : List PartialsUnchecked)
          → popped S (c.rounds_cache ++ more) ≡ some x.packets =
        λ more. rw first (popped-some x (rest ++ more) some_there) in
      elim short [
        | inl two ↦
            let r' : p.round ≡ c.height + 5 = omega arith in
            rw two (
              rw (update-near c (c.height + 2) 2 refl (omega arith) (omega arith)) (
                handed _,
                own,
                omega arith,
                rw e (add_packet-refused _ p (unfold add_to_round in ground arith)),
              ))
        | inr three ↦
            let r' : p.round ≡ c.height + 6 = omega arith in
            rw three (
              rw (update-near c (c.height + 3) 3 refl (omega arith) (omega arith)) (
                handed _,
                own,
                omega arith,
                rw e (add_packet-refused _ p (unfold add_to_round in ground arith)),
              ))
      ]
