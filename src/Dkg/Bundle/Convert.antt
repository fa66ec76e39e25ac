-- ===== src/Dkg/Bundle/Convert.antt =====
-- Bundles there and back: src/dkg/broadcast.rs.
use drand_rs.Common.{
  >>=-ok, Bytes, List, Option, Option-cases, [], arith, inl, inr, ok, some, ◌∷◌, ◌≡◌, ok_injective,
  ok_or, ok_or-ok, refl, some_injective, subst,
}
use drand_rs.Dkg.Bundle.{
  ConvertError, Bundle, DkgPacket, Justification, ProtoJustification, ProtoBundle, map_all,
  justification_from, justification_into, bundle_from, bundle_into, into_proto, bundle_from_proto,
}
use drand_rs.Scheme.{Scheme}

map_all-inverse {ℓ κ} :
    {A : Type ℓ} {B : Type κ} (f : A → Option B) (g : B → Option A)
    → ((x : A) (y : B) → f x ≡ some y → g y ≡ some x)
    → (xs : List A) {ys : List B} → map_all f xs ≡ some ys
    → map_all g ys ≡ some xs
unfolding map_all
map_all-inverse f g inverse [] h = ground arith
map_all-inverse f g inverse (x ∷ xs) h = elim (Option-cases (f x)) [
  | inl e ↦ absurd (cc (rw (e, map_all) at h))
  | inr (y, e) ↦ elim (Option-cases (map_all f xs)) [
    | inl e' ↦ absurd (cc (rw (e, e', map_all) at h))
    | inr (ys, e') ↦
        let back = map_all-inverse f g inverse xs e' in
        let first = inverse x y e in
        subst (λ l. map_all g l ≡ some (x ∷ xs)) (some_injective (rw (e, e', map_all) at h))
          (rw (first, back, map_all) refl)
  ]
]

module _ (S : Scheme) where
  justification-inverse :
      (j : Justification S) (p : ProtoJustification)
      → justification_into S j ≡ some p
      → justification_from S p ≡ some j
  unfolding justification_into justification_from
  justification-inverse j p h = elim (Option-cases (S.scalar_to_bytes j.share)) [
    | inl e ↦ absurd (cc (rw (e, justification_into) at h))
    | inr (b, e) ↦
        let back = S.scalar_from_bytes-to_bytes j.share e in
        subst (λ q. justification_from S q ≡ some j)
          (some_injective (rw (e, justification_into) at h)) (rw (back, justification_from) refl)
  ]

  bundle_from-bundle_into :
      (b : Bundle S) {p : ProtoBundle} → bundle_into S b ≡ ok p → bundle_from S p ≡ ok b
  unfolding bundle_into bundle_from
  bundle_from-bundle_into (Bundle.deal d) h =
      let (commits, e, h1) =
        >>=-ok (ok_or (map_all S.serialize_key d.public) ConvertError.from_inner) _ h in
      let e' = ok_or-ok _ ConvertError.from_inner e in
      let back =
        map_all-inverse S.serialize_key S.deserialize_key (λ k b. S.deserialize-serialize_key k)
          d.public e' in
      subst (λ q. bundle_from S q ≡ ok (Bundle.deal d)) (ok_injective h1)
        (rw (back, bundle_from) refl)
  bundle_from-bundle_into (Bundle.response r) h = ground arith
  bundle_from-bundle_into (Bundle.justification j) h =
      let (js, e, h1) =
        >>=-ok (ok_or (map_all (justification_into S) j.justifications) ConvertError.from_inner) _
          h in
      let e' = ok_or-ok _ ConvertError.from_inner e in
      let back =
        map_all-inverse (justification_into S) (justification_from S) justification-inverse
          j.justifications e' in
      subst (λ q. bundle_from S q ≡ ok (Bundle.justification j)) (ok_injective h1)
        (rw (back, bundle_from) refl)

  -- Every bundle that a node can broadcast is read back by its receivers as the same bundle.
  pub bundle_from_proto-into_proto :
      (b : Bundle S) (id : Bytes) {p : DkgPacket}
      → into_proto S b id ≡ ok p
      → bundle_from_proto S p ≡ some b
  unfolding into_proto bundle_from_proto
  bundle_from_proto-into_proto b id h =
      let (proto, e, h1) = >>=-ok (bundle_into S b) _ h in
      let back = bundle_from-bundle_into b e in
      subst (λ q. bundle_from_proto S q ≡ some b) (ok_injective h1)
        (rw (back, bundle_from_proto) refl)
