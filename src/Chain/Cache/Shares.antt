-- ===== src/Chain/Cache/Shares.antt =====
-- What the cache takes in and gives out: src/chain/cache.rs.
use mathlib.Core.List.{append-nil, Perm, perm_middle}
use drand_rs.Chain.Beacon.{PartialBeaconPacket}
use drand_rs.Chain.Cache.{
  PartialCache, PartialsUnchecked, add_packet, add_to_round, sort_by_index, insert_share,
  add_prechecked,
}
use drand_rs.Chain.Cache.Aligned.{AreFiled, rounds_of, AreOfRound-append, IsAligned, entries}
use drand_rs.Chain.Epoch.{SigShare}
use drand_rs.Common.{
  Bool, Bool-cases, List, [], arith, inl, inr, ltb, some, ℕ, ◌++◌, ◌∷◌, ◌≡◌, ◌≤◌, Option,
  Option-cases, any, ap, bytes_eq, length, refl, subst, ◌+◌, ◌==◌, ◌∙◌, false, length-append,
  ltb→ge, true,
}
use drand_rs.Scheme.{Scheme}
use mathlib.Core.List.Perm

same_round : PartialBeaconPacket → PartialsUnchecked → Bool
same_round p r = any (λ (i : PartialBeaconPacket). bytes_eq i.partial_sig p.partial_sig) r.packets

-- What adding a packet keeps of the entries.
abbrev Keeps : List PartialsUnchecked → List PartialsUnchecked → Type 0
Keeps l l' = (rounds_of l' ≡ rounds_of l) × (AreFiled l → AreFiled l')

some_pair :
    {b added : Bool} {l l' : List PartialsUnchecked}
    → ◌≡◌ {A = Option (Bool × List PartialsUnchecked)} (some (b, l)) (some (added, l'))
    → l ≡ l'
some_pair h = ground arith

add_to_round-Keeps :
    (p : PartialBeaconPacket) (l : List PartialsUnchecked) {added : Bool}
    {l' : List PartialsUnchecked}
    → add_to_round p l ≡ some (added, l')
    → Keeps l l'
unfolding add_to_round same_round
add_to_round-Keeps p [] h = absurd (cc)
add_to_round-Keeps p (r ∷ rs) {added} {l'} h = elim (Bool-cases (r.round == p.round)) [
  | inl here ↦ elim (Bool-cases (same_round p r)) [
    | inl old ↦ subst (Keeps (r ∷ rs)) (some_pair (rw (here, old) at h)) (refl, λ f. f)
    | inr young ↦
        subst (Keeps (r ∷ rs)) (some_pair (rw (here, young) at h))
          (refl, λ f. (AreOfRound-append r.round r.packets p f.0 (ground arith), f.1))
  ]
  | inr away ↦ elim (Option-cases (add_to_round p rs)) [
    | inl nowhere ↦ absurd (cc (rw (away, nowhere) at h))
    | inr (found, e) ↦
        let (rounds, filed) = add_to_round-Keeps p rs {added = found.0} {l' = found.1} e in
        subst (Keeps (r ∷ rs)) (some_pair (rw (away, e) at h))
          (ap (◌∷◌ r.round) rounds, λ f. (f.0, filed f.1))
  ]
]

-- An entry of the packet's round takes it.
add_to_round-found :
    (p : PartialBeaconPacket) (l : List PartialsUnchecked)
    → any (λ (r : PartialsUnchecked). r.round == p.round) l ≡ true
    → (r : Bool × List PartialsUnchecked) × (add_to_round p l ≡ some r)
unfolding add_to_round any same_round
add_to_round-found p [] h = absurd (cc)
add_to_round-found p (r ∷ rs) h = elim (Bool-cases (r.round == p.round)) [
  | inl here ↦ elim (Bool-cases (same_round p r)) [
    | inl old ↦ rw (here, old) ((false, r ∷ rs), refl)
    | inr young ↦ rw (here, young) ((true, record r { packets = r.packets ++ p ∷ [] } ∷ rs), refl)
  ]
  | inr away ↦
      let (found, e) = add_to_round-found p rs (rw away at h) in
      rw (away, e) ((found.0, r ∷ found.1), refl)
]

-- One of three rounds in a row.
any-entries :
    (p : PartialBeaconPacket) (x y z : PartialsUnchecked) (h : ℕ)
    → x.round ≡ h + 2
    → y.round ≡ h + 3
    → z.round ≡ h + 4
    → h + 2 ≤ p.round
    → p.round ≤ h + 4
    → any (λ (r : PartialsUnchecked). r.round == p.round) (x ∷ y ∷ z ∷ []) ≡ true
unfolding any
any-entries p x y z h ex ey ez lo hi = ground arith

-- Sorted by the index, with no index below `k`.
abbrev pub IsSortedFrom : (S : Scheme) → ℕ → List (SigShare S) → Type 0
IsSortedFrom S k [] = Unit
IsSortedFrom S k (x ∷ xs) = (k ≤ x.0) × IsSortedFrom S x.0 xs

module _ (S : Scheme) where
  insert_share-IsSortedFrom :
      (k : ℕ) (s : SigShare S) (l : List (SigShare S))
      → k ≤ s.0
      → IsSortedFrom S k l
      → IsSortedFrom S k (insert_share S s l)
  unfolding insert_share
  insert_share-IsSortedFrom k s [] h v = (h, tt)
  insert_share-IsSortedFrom k s (x ∷ xs) h v = elim (Bool-cases (ltb s.0 x.0)) [
    | inl before ↦ rw before (h, (ground arith, v.1))
    | inr after ↦ rw after (v.0, insert_share-IsSortedFrom x.0 s xs (ground arith) v.1)
  ]

  insert_share-perm : (s : SigShare S) (l : List (SigShare S)) → Perm (insert_share S s l) (s ∷ l)
  unfolding insert_share
  insert_share-perm s [] = Perm.refl (s ∷ [])
  insert_share-perm s (x ∷ xs) = elim (Bool-cases (ltb s.0 x.0)) [
    | inl before ↦ rw before (Perm.refl (s ∷ x ∷ xs))
    | inr after ↦ rw after (Perm.trans (Perm.cons x (insert_share-perm s xs)) (Perm.swap s x xs))
  ]

  sort_by_index-IsSortedFrom :
      (l sorted : List (SigShare S))
      → IsSortedFrom S 0 sorted
      → IsSortedFrom S 0 (sort_by_index S l sorted)
  unfolding sort_by_index
  sort_by_index-IsSortedFrom [] sorted v = v
  sort_by_index-IsSortedFrom (x ∷ xs) sorted v =
      sort_by_index-IsSortedFrom xs (insert_share S x sorted)
        (insert_share-IsSortedFrom 0 x sorted (omega arith) v)

  sort_by_index-perm :
      (l sorted : List (SigShare S)) → Perm (sort_by_index S l sorted) (l ++ sorted)
  unfolding sort_by_index
  sort_by_index-perm [] sorted = Perm.refl sorted
  sort_by_index-perm (x ∷ xs) sorted =
      Perm.trans (sort_by_index-perm xs (insert_share S x sorted))
        (Perm.trans (Perm.append_left xs (insert_share-perm x sorted)) (perm_middle xs sorted))

  pub add_packet-IsAligned :
      (c : PartialCache S) (p : PartialBeaconPacket) → IsAligned c → IsAligned (add_packet S c p).0
  unfolding add_packet
  add_packet-IsAligned c p v = elim (Option-cases (add_to_round p c.rounds_cache)) [
    | inl e ↦ rw (e, add_packet) v
    | inr (r, e) ↦
        let (rounds, filed) = add_to_round-Keeps p c.rounds_cache {added = r.0} {l' = r.1} e in
        rw (e, add_packet) (record { rounds = rounds ∙ v.rounds; filed = filed v.filed })
  ]

  -- An aligned cache takes every packet of its three rounds, so that the handler's error for a
  -- refused packet of an allowed round is not reached from it.
  pub add_packet-allowed :
      (c : PartialCache S) (p : PartialBeaconPacket)
      → IsAligned c
      → c.height + 2 ≤ p.round
      → p.round ≤ c.height + 4
      → (added : Bool) × ((add_packet S c p).1 ≡ some added)
  unfolding add_packet
  add_packet-allowed c p v lo hi =
      let (x, y, z, e, ex, ey, ez) = entries c.rounds_cache v.rounds in
      let (found, f) =
        add_to_round-found p c.rounds_cache (rw e (any-entries p x y z c.height ex ey ez lo hi)) in
      rw (f, add_packet) (found.0, refl)

  -- The shares are given out exactly when their number reaches the threshold: then they are those
  -- of the cache and the new one, sorted by their index.
  pub add_prechecked_lem :
      (c : PartialCache S) (s : SigShare S) {sigs : List (SigShare S)}
      → (add_prechecked S c s).1 ≡ some sigs
      → (c.thr ≤ length c.valid_sigs + 1)
        × IsSortedFrom S 0 sigs
        × Perm sigs (c.valid_sigs ++ s ∷ [])
        × ((add_prechecked S c s).0 ≡ record c { valid_sigs = sigs })
  unfolding add_prechecked
  add_prechecked_lem c s {sigs} h =
      let all = c.valid_sigs ++ s ∷ [] in
      elim (Bool-cases (ltb (length all) c.thr)) [
        | inl few ↦ absurd (cc (rw few at h))
        | inr enough ↦
            let e : sort_by_index S all [] ≡ sigs = ground arith in
            (
              ground (arith, ltb→ge (length all) c.thr, length-append c.valid_sigs (s ∷ [])),
              subst (IsSortedFrom S 0) e (sort_by_index-IsSortedFrom all [] tt),
              subst (λ l. Perm l all) e
                  (subst (Perm (sort_by_index S all [])) (append-nil all)
                    (sort_by_index-perm all [])),
              rw enough (ap (λ l. record c { valid_sigs = l }) e),
            )
      ]
