-- ===== src/Net/Pool/Each.antt =====
-- Lists whose members all have a property, through the steps of the pool: src/net/pool.rs.
use mathlib.Core.List.{Mem, mem-cons_self, mem-cons_of_mem}
use drand_rs.Common.{
  Bool, Bool-cases, Bytes, List, Option, [], inl, inr, is_empty, map, none, refl, retain, some,
  some_injective, subst, ◌&&◌, ◌++◌, ◌∷◌, ◌≡◌, get_elem?, suc, zero, ℕ,
}
use drand_rs.Net.Pool.{contains, insert, remove, without}

module _ {A : Type 0} where
  unfoldable pub Each : (A → Type 0) → List A → Type 0
  Each Q [] = Unit
  Each Q (x ∷ xs) = Q x × Each Q xs

module _ {A : Type 0} (Q : A → Type 0) where
  pub Each-mem : (xs : List A) → ((x : A) → Mem x xs → Q x) → Each Q xs
  unfolding Each
  Each-mem [] f = tt
  Each-mem (x ∷ xs) f = (f x mem-cons_self, Each-mem xs (λ y m. f y (mem-cons_of_mem x m)))

  pub each_at : (xs : List A) (i : ℕ) {x : A} → Each Q xs → get_elem? xs i ≡ some x → Q x
  unfolding Each
  each_at [] i h e = absurd (cc)
  each_at (x ∷ xs) zero (h, hs) e = subst Q (some_injective e) h
  each_at (x ∷ xs) (suc i) (h, hs) e = each_at xs i hs e

  pub Each-retain : (b : A → Bool) (xs : List A) → Each Q xs → Each Q (retain b xs)
  unfolding Each retain
  Each-retain b [] h = tt
  Each-retain b (x ∷ xs) (h, hs) =
      let rest = Each-retain b xs hs in
      elim (Bool-cases (b x)) [
        | inl keep ↦ rw (keep, retain) (h, rest)
        | inr drops ↦ rw (drops, retain) rest
      ]

  pub Each-append : (xs ys : List A) → Each Q xs → Each Q ys → Each Q (xs ++ ys)
  unfolding Each
  Each-append [] ys h k = k
  Each-append (x ∷ xs) ys (h, hs) k = (h, Each-append xs ys hs k)

  pub Each-map :
      (Q' : A → Type 0) (f : A → A) (xs : List A)
      → ((x : A) → Q x → Q' (f x))
      → Each Q xs
      → Each Q' (map f xs)
  unfolding Each
  Each-map Q' f [] g h = tt
  Each-map Q' f (x ∷ xs) g (h, hs) = (g x h, Each-map Q' f xs g hs)

  pub Each-weaken :
      (Q' : A → Type 0) (xs : List A) → ((x : A) → Q x → Q' x) → Each Q xs → Each Q' xs
  unfolding Each
  Each-weaken Q' [] g h = tt
  Each-weaken Q' (x ∷ xs) g (h, hs) = (g x h, Each-weaken Q' xs g hs)

module _ (Q : Bytes → Type 0) where
  pub insert-Each : (id : Bytes) (ids : List Bytes) → Q id → Each Q ids → Each Q (insert id ids)
  unfolding insert Each
  insert-Each id ids q h = elim (Bool-cases (contains ids id)) [
    | inl there ↦ rw (there, insert) h
    | inr absent ↦ rw (absent, insert) (q, h)
  ]

  pub without-Each :
      (id : Bytes) (o : Option (List Bytes)) {ids : List Bytes}
      → ((old : List Bytes) → o ≡ some old → Each Q old)
      → without id o ≡ some ids
      → Each Q ids
  unfolding without remove
  without-Each id none h e = absurd (cc)
  without-Each id (some old) h e = elim (Bool-cases (contains old id && is_empty (remove id old))) [
    | inl gone ↦ absurd (cc (rw (gone, without) at e))
    | inr kept ↦
        subst (Each Q) (some_injective (rw (kept, without) at e)) (Each-retain Q _ old (h old refl))
  ]
