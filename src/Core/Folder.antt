-- ===== src/Core/Folder.antt =====
-- The beacon id of a folder, src/key/store.rs, with the parts of std::path that it uses: a path is
-- its bytes, 47 is the slash and 46 the dot.
use mathlib.Core.List.{append-nil}
use drand_rs.Common.{
  Bool, Bytes, Option, [], any, bytes_eq, false, if◌then◌else◌, is_empty, none, some, true, ◌++◌,
  ◌==◌, ◌∷◌, ◌≡◌, ◌||◌, Bool-cases, inl, inr, refl, arith, ap, ◌∙◌, append_assoc, not, ◌&&◌, sym,
}

unfoldable pub is_absolute : Bytes → Bool
is_absolute [] = false
is_absolute (b ∷ bs) = b == 47

-- `Path::join`: an absolute path takes the place of the first one. A separator that is there already
-- is doubled here, which leaves the components of the path as they are.
unfoldable pub path_join : Bytes → Bytes → Bytes
unfolding is_absolute
path_join base p = if is_absolute p then p else if is_empty base then p else base ++ 47 ∷ p

-- The end of a component: an empty one and that of the current directory are left out.
unfoldable pub end_part : Option Bytes → Bytes → Option Bytes
end_part found part = if is_empty part || bytes_eq part (46 ∷ []) then found else some part

-- The last component of a path, after the one found so far and in the middle of a further one.
unfoldable pub last_part : Option Bytes → Bytes → Bytes → Option Bytes
unfolding end_part
last_part found part [] = end_part found part
last_part found part (b ∷ bs) =
    if b == 47 then last_part (end_part found part) [] bs else last_part found (part ++ b ∷ []) bs

-- `Path::file_name`: none where the path ends at the root or in the parent directory.
unfoldable pub file_name : Bytes → Option Bytes
unfolding last_part
file_name p = elim (last_part none [] p) [
  | none ↦ none
  | some part ↦ if bytes_eq part (46 ∷ 46 ∷ []) then none else some part
]

-- `FileStore::get_beacon_id` of a folder.
unfoldable pub get_beacon_id : Bytes → Option Bytes
unfolding file_name
get_beacon_id beacon_path = file_name beacon_path

-- An id that names a folder of its own: one component, which is not a dot or two.
unfoldable pub is_plain : Bytes → Bool
is_plain id =
    not (is_empty id)
    && not (any (λ b. b == 47) id)
    && not (bytes_eq id (46 ∷ []))
    && not (bytes_eq id (46 ∷ 46 ∷ []))

-- A path without a slash is one component.
last_part-one :
    (found : Option Bytes) (part id : Bytes)
    → any (λ b. b == 47) id ≡ false
    → last_part found part id ≡ end_part found (part ++ id)
unfolding last_part any
last_part-one found part [] h = ap (end_part found) (sym (append-nil part))
last_part-one found part (b ∷ bs) h =
    let other : (b == 47) ≡ false = ground arith in
    let rest : any (λ b. b == 47) bs ≡ false = ground arith in
    rw (other, last_part)
      (last_part-one found (part ++ b ∷ []) bs rest
        ∙ ap (end_part found) (append_assoc part (b ∷ []) bs))

last_part-append :
    (found : Option Bytes) (part base id : Bytes)
    → (f : Option Bytes) × (last_part found part (base ++ 47 ∷ id) ≡ last_part f [] id)
unfolding last_part
last_part-append found part [] id = (end_part found part, refl)
last_part-append found part (b ∷ bs) id = elim (Bool-cases (b == 47)) [
  | inl slash ↦
      let (f, e) = last_part-append (end_part found part) [] bs id in (f, rw (slash, last_part) e)
  | inr other ↦
      let (f, e) = last_part-append found (part ++ b ∷ []) bs id in (f, rw (other, last_part) e)
]

last_part-plain :
    (found : Option Bytes) (id : Bytes) → is_plain id ≡ true → last_part found [] id ≡ some id
unfolding is_plain end_part
last_part-plain found id h =
    let flat : any (λ b. b == 47) id ≡ false = ground arith in
    last_part-one found [] id flat ∙ ground arith

plain-relative : (id : Bytes) → is_plain id ≡ true → is_absolute id ≡ false
unfolding is_plain is_absolute any
plain-relative [] h = refl
plain-relative (b ∷ bs) h = ground arith

not_parent :
    (id : Bytes)
    → is_plain id ≡ true
    → (if bytes_eq id (46 ∷ 46 ∷ []) then none else some id) ≡ some id
unfolding is_plain
not_parent id h = ground arith

-- The folder of a plain id has that id.
pub get_beacon_id-path_join :
    (base id : Bytes) → is_plain id ≡ true → get_beacon_id (path_join base id) ≡ some id
unfolding get_beacon_id file_name path_join
get_beacon_id-path_join base id plain =
    let named : (p : Bytes) → last_part none [] p ≡ some id → file_name p ≡ some id =
      λ p e. rw (e, file_name) (not_parent id plain) in
    let relative = plain-relative id plain in
    elim (Bool-cases (is_empty base)) [
      | inl nothing ↦ rw (relative, nothing, path_join) (named id (last_part-plain none id plain))
      | inr some_base ↦
          let (f, e) = last_part-append none [] base id in
          rw (relative, some_base, path_join)
            (named (base ++ 47 ∷ id) (e ∙ last_part-plain f id plain))
    ]
