-- ===== src/Dkg/Execution/Order.antt =====
-- The order of the participants in the configuration: `sort_by_key` of src/dkg/execution.rs.
use mathlib.Core.List.Permᴰ
use mathlib.Core.List.Perm
use mathlib.Core.List.{Mem, Perm, Permᴰ, mem-cons_self, mem-cons_of_mem}
use mathlib.Core.Logic.{∥∥₁_elim}
use drand_rs.Common.{
  Bytes, List, [], arith, false, refl, true, ◌∷◌, ◌≡◌, Bool-cases, ap, inl, inr, sym, ◌∙◌, Option,
  none, ok, ok_injective, some, ◌++◌, >>-ok, >>=-ok, any, not, ok_or, reject_if, subst,
}
use drand_rs.Dkg.Execution.{
  bytes_le, insert_by_key, sort_by_public_key, Config, config_of, initial_config, new_nodes_of,
  nonce_for_epoch, reshare_config, sorted_participants,
}
use drand_rs.Dkg.Packet.{Participant}
use drand_rs.Dkg.State.{State}
use drand_rs.Key.Group.{Identity}
use drand_rs.Scheme.{Scheme}

pub bytes_le_total : (a b : Bytes) → bytes_le a b ≡ false → bytes_le b a ≡ true
unfolding bytes_le
bytes_le_total [] b h = cc
bytes_le_total (x ∷ a) [] h = refl
bytes_le_total (x ∷ a) (y ∷ b) h = ground (arith, bytes_le_total a b)

bytes_le_antisym : (a b : Bytes) → bytes_le a b ≡ true → bytes_le b a ≡ true → a ≡ b
unfolding bytes_le
bytes_le_antisym [] [] h k = refl
bytes_le_antisym [] (y ∷ b) h k = cc
bytes_le_antisym (x ∷ a) [] h k = cc
bytes_le_antisym (x ∷ a) (y ∷ b) h k = ground (arith, bytes_le_antisym a b)

bytes_le_trans : (a b c : Bytes) → bytes_le a b ≡ true → bytes_le b c ≡ true → bytes_le a c ≡ true
unfolding bytes_le
bytes_le_trans [] b c h k = refl
bytes_le_trans (x ∷ a) [] c h k = cc
bytes_le_trans (x ∷ a) (y ∷ b) [] h k = cc
bytes_le_trans (x ∷ a) (y ∷ b) (z ∷ c) h k = ground (arith, bytes_le_trans a b c)

-- Participants with one key are one participant.
unfoldable pub HasDistinctKeys : List Participant → Type 0
HasDistinctKeys ps = (p q : Participant) → Mem p ps → Mem q ps → p.key ≡ q.key → p ≡ q

module _ (p q : Participant) (qs : List Participant) where
  insert_first : bytes_le p.key q.key ≡ true → insert_by_key p (q ∷ qs) ≡ p ∷ q ∷ qs
  unfolding insert_by_key
  insert_first h = rw h refl

  insert_later : bytes_le p.key q.key ≡ false → insert_by_key p (q ∷ qs) ≡ q ∷ insert_by_key p qs
  unfolding insert_by_key
  insert_later h = rw h refl

-- The one with the smaller key comes first, in whichever order they are inserted.
insert_le :
    (p q : Participant) (l : List Participant)
    → bytes_le p.key q.key ≡ true
    → bytes_le q.key p.key ≡ false
    → insert_by_key p (insert_by_key q l) ≡ insert_by_key q (insert_by_key p l)
insert_le p q [] pq qp =
    let single : (x : Participant) → insert_by_key x [] ≡ x ∷ [] =
      λ x. unfold insert_by_key in refl in
    rw (single q, single p, insert_first p q [] pq, insert_later q p [] qp, single q) refl
insert_le p q (r ∷ l) pq qp = elim (Bool-cases (bytes_le q.key r.key)) [
  | inl qr ↦
      let pr = bytes_le_trans p.key q.key r.key pq qr in
      rw
        (
          insert_first q r l qr,
          insert_first p r l pr,
          insert_first p q (r ∷ l) pq,
          insert_later q p (r ∷ l) qp,
          insert_first q r l qr,
        )
        refl
  | inr qr ↦ elim (Bool-cases (bytes_le p.key r.key)) [
    | inl pr ↦
        rw
          (
            insert_later q r l qr,
            insert_first p r l pr,
            insert_first p r (insert_by_key q l) pr,
            insert_later q p (r ∷ l) qp,
            insert_later q r l qr,
          )
          refl
    | inr pr ↦
        rw
          (
            insert_later q r l qr,
            insert_later p r l pr,
            insert_later p r (insert_by_key q l) pr,
            insert_later q r (insert_by_key p l) qr,
          )
          (ap (◌∷◌ r) (insert_le p q l pq qp))
  ]
]

Participants-set : IsSet (List Participant)
Participants-set = hlevel

insert_comm :
    (p q : Participant) (l : List Participant)
    → (p.key ≡ q.key → p ≡ q)
    → insert_by_key p (insert_by_key q l) ≡ insert_by_key q (insert_by_key p l)
insert_comm p q l same = elim (Bool-cases (bytes_le p.key q.key)) [
  | inr qp ↦ sym (insert_le q p l (bytes_le_total p.key q.key qp) qp)
  | inl pq ↦ elim (Bool-cases (bytes_le q.key p.key)) [
    | inr qp ↦ insert_le p q l pq qp
    | inl qp ↦ let e = same (bytes_le_antisym p.key q.key pq qp) in rw e refl
  ]
]

sort_by_public_key-permᴰ :
    {l r : List Participant}
    → Permᴰ l r
    → HasDistinctKeys l
    → sort_by_public_key l ≡ sort_by_public_key r
unfolding sort_by_public_key HasDistinctKeys
sort_by_public_key-permᴰ Permᴰ.nil h = refl
sort_by_public_key-permᴰ (Permᴰ.cons e p) h =
    cc (sort_by_public_key-permᴰ p (λ x y m n. h x y (mem-cons_of_mem _ m) (mem-cons_of_mem _ n)))
sort_by_public_key-permᴰ (Permᴰ.swap {a} {b} {a'} {b'} {l} e f) h =
    cc (
      insert_comm a b (sort_by_public_key l)
        (h a b mem-cons_self (mem-cons_of_mem a mem-cons_self)))
sort_by_public_key-permᴰ (Permᴰ.trans p q) h =
    sort_by_public_key-permᴰ p h
    ∙ sort_by_public_key-permᴰ q
        (λ x y m n. h x y (Permᴰ.mem (Permᴰ.symm p) m) (Permᴰ.mem (Permᴰ.symm p) n))

pub sort_by_public_key-perm :
    {l r : List Participant}
    → Perm l r
    → HasDistinctKeys l
    → sort_by_public_key l ≡ sort_by_public_key r
sort_by_public_key-perm {l} {r} p h =
    ∥∥₁_elim p (Participants-set (sort_by_public_key l) (sort_by_public_key r))
      (λ d. sort_by_public_key-permᴰ d h)

insert_by_key-perm : (p : Participant) (l : List Participant) → Perm (insert_by_key p l) (p ∷ l)
insert_by_key-perm p [] = unfold insert_by_key in Perm.refl (p ∷ [])
insert_by_key-perm p (q ∷ l) = elim (Bool-cases (bytes_le p.key q.key)) [
  | inl first ↦ rw (insert_first p q l first) (Perm.refl (p ∷ q ∷ l))
  | inr later ↦
      rw (insert_later p q l later)
        (Perm.trans (Perm.cons q (insert_by_key-perm p l)) (Perm.swap p q l))
]

sorted-perm : (l : List Participant) → Perm (sort_by_public_key l) l
unfolding sort_by_public_key
sorted-perm [] = Perm.refl []
sorted-perm (p ∷ l) =
    Perm.trans (insert_by_key-perm p (sort_by_public_key l)) (Perm.cons p (sorted-perm l))

module _ (S : Scheme) where
  abbrev Fields : List Participant → State S → Config S → Type 0
  Fields sorted current c =
      (new_nodes_of S sorted ≡ ok c.new_nodes)
      × (c.threshold ≡ current.threshold)
      × (c.nonce ≡ nonce_for_epoch S current.epoch)

  -- What a configuration takes from the state and the sorted participants, in a first run and in a
  -- reshare.
  config_of-Fields :
      (key : S.Scalar) (me : Identity S) (current : State S) (previous : Option (State S))
      (sorted : List Participant) {c : Config S}
      → config_of S key me current previous sorted ≡ ok c
      → Fields sorted current c
  unfolding config_of initial_config reshare_config
  config_of-Fields key me current none sorted {c} h =
      let (n, e, h₁) = >>=-ok (new_nodes_of S sorted) _ h in
      let (u, h₂) = >>-ok (reject_if (not (any (λ m. S.same_key m.public me.key) n)) _) _ h₁ in
      subst (Fields sorted current) (ok_injective h₂) (e, refl, refl)
  config_of-Fields key me current (some previous) sorted {c} h =
      let (n, e, h₁) = >>=-ok (new_nodes_of S sorted) _ h in
      let (g, e', h₂) = >>=-ok (ok_or previous.final_group _) _ h₁ in
      let (s, e'', h₃) = >>=-ok (ok_or previous.key_share _) _ h₂ in
      subst (Fields sorted current) (ok_injective h₃) (e, refl, refl)

  -- Two nodes with the same participants in any order, of which no two have one key, and the same
  -- threshold and epoch: where both get a configuration, the new nodes, the threshold and the nonce
  -- are the same, whatever their own keys and their last states are, and the sorted participants are
  -- those of the state.
  pub config_of-agree :
      (a b : State S)
      → Perm (a.joining ++ a.remaining) (b.joining ++ b.remaining)
      → HasDistinctKeys (a.joining ++ a.remaining)
      → a.threshold ≡ b.threshold
      → a.epoch ≡ b.epoch
      → (key_a key_b : S.Scalar) (me_a me_b : Identity S) (previous_a previous_b : Option (State S))
        {c d : Config S}
      → config_of S key_a me_a a previous_a (sorted_participants S a) ≡ ok c
      → config_of S key_b me_b b previous_b (sorted_participants S b) ≡ ok d
      → (c.new_nodes ≡ d.new_nodes)
        × (c.threshold ≡ d.threshold)
        × (c.nonce ≡ d.nonce)
        × Perm (sorted_participants S a) (a.joining ++ a.remaining)
  unfolding sorted_participants
  config_of-agree a b perm distinct same_threshold same_epoch ka kb ma mb pa pb {c} {d} ha hb =
      let (na, ta, ea) = config_of-Fields ka ma a pa _ ha in
      let (nb, tb, eb) = config_of-Fields kb mb b pb _ hb in
      let same = sort_by_public_key-perm perm distinct in
      (
        ok_injective (sym na ∙ ap (new_nodes_of S) same ∙ nb),
        ta ∙ same_threshold ∙ sym tb,
        ea ∙ ap (nonce_for_epoch S) same_epoch ∙ sym eb,
        sorted-perm (a.joining ++ a.remaining),
      )
