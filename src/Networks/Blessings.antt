-- ===== src/Networks/Blessings.antt =====
-- The addresses of src/ot_accesslist.c that may do what others may not.
use bt_server.Prelude.Append.{append_nil}
use Prim.Native.Nat.{bit_and}
use mathlib.Core.Logic.{◌↔◌}
use mathlib.Core.Path.{subst}
use bt_server.Prelude.{
  ℕ, zero, suc, ◌≤◌, ◌≡◌, refl, List, [], ◌∷◌, ◌++◌, Bool, true, false, not, ◌&&◌, leb, leb→le, ◌-◌,
  ◌<◌, ap, some, get_elem?, ◌==◌, if◌then◌else◌, arith, length, length-append, length-take, take,
  Bool-cases, inl, inr,
}

-- An address with its permissions.
pub record Blessing : Type 0 where
  pub ip : List ℕ
  pub permissions : ℕ

-- OT_ADMINIP_MAX
abbrev pub adminip_max : ℕ
adminip_max = 64

-- `!memcmp` of two addresses
abbrev pub same_ip : List ℕ → List ℕ → Bool
same_ip [] [] = true
same_ip [] (b ∷ bs) = false
same_ip (a ∷ rest) [] = false
same_ip (a ∷ rest) (b ∷ bs) = (a == b) && same_ip rest bs

-- `accesslist_blessip` on the two tables, which are one here; whether it answers 0
unfoldable pub accesslist_blessip : List Blessing → Blessing → Bool × List Blessing
accesslist_blessip blessed b =
    if leb adminip_max (length blessed) then (false, blessed) else (true, blessed ++ (b ∷ []))

abbrev pub allows : List ℕ → ℕ → Blessing → Bool
allows ip permissions b = same_ip b.ip ip && not (bit_and b.permissions permissions == 0)

unfoldable pub accesslist_isblessed : List Blessing → List ℕ → ℕ → Bool
accesslist_isblessed [] ip permissions = false
accesslist_isblessed (b ∷ bs) ip permissions =
    let rest = accesslist_isblessed bs ip permissions in
    if allows ip permissions b then true else rest

-- The addresses of a configuration, blessed one after the other.
unfoldable pub bless_all : List Blessing → List Blessing → List Blessing
bless_all blessed [] = blessed
bless_all blessed (b ∷ bs) = bless_all (accesslist_blessip blessed b).1 bs

append_one : (xs ys : List Blessing) (y : Blessing) → (xs ++ (y ∷ [])) ++ ys ≡ xs ++ (y ∷ ys)
append_one [] ys y = refl
append_one (x ∷ xs) ys y = ap (λ r. x ∷ r) (append_one xs ys y)

take_nil : (n : ℕ) → take {A = Blessing} n [] ≡ []
take_nil zero = refl
take_nil (suc n) = refl

-- Where the table is full, nothing is added.
bless_all-take :
    (blessed bs : List Blessing)
    → length blessed ≤ adminip_max
    → bless_all blessed bs ≡ blessed ++ take (adminip_max - length blessed) bs
unfolding bless_all accesslist_blessip
bless_all-take blessed [] fits =
    rw (take_nil (adminip_max - length blessed), append_nil blessed) refl
bless_all-take blessed (b ∷ bs) fits = elim (Bool-cases (leb adminip_max (length blessed))) [
  | inl full ↦
      let no_room : adminip_max - length blessed ≡ 0 =
        omega (arith, leb→le adminip_max (length blessed) full) in
      rw (full, bless_all-take blessed bs fits, no_room) refl
  | inr free ↦
      let longer = length-append blessed (b ∷ []) in
      let room : adminip_max - length blessed ≡ suc (adminip_max - length (blessed ++ (b ∷ []))) =
        ground (arith, free, longer) in
      rw (free, bless_all-take (blessed ++ (b ∷ [])) bs (ground (arith, free, longer)), room)
        (append_one blessed _ b)
]

-- Some member of the first ones allows it.
abbrev pub SomeAllows : ℕ → List Blessing → List ℕ → ℕ → Type 0
SomeAllows n bs ip permissions =
    (i : ℕ) × (b : Blessing) × (i < n)
    × (get_elem? bs i ≡ some b)
    × (allows ip permissions b ≡ true)

module _ (ip : List ℕ) (permissions : ℕ) where
  isblessed-SomeAllows :
      (n : ℕ) (bs : List Blessing)
      → accesslist_isblessed (take n bs) ip permissions ≡ true
      → SomeAllows n bs ip permissions
  unfolding accesslist_isblessed
  isblessed-SomeAllows zero bs h = cc
  isblessed-SomeAllows (suc n) [] h = cc
  isblessed-SomeAllows (suc n) (b ∷ bs) h = elim (Bool-cases (allows ip permissions b)) [
    | inl allowed ↦ (0, b, omega arith, refl, allowed)
    | inr refused ↦
        let (i, c, lt, e, k) = isblessed-SomeAllows n bs (ground (arith, h, refused)) in
        (suc i, c, omega (arith, lt), e, k)
  ]

  SomeAllows-isblessed :
      (n : ℕ) (bs : List Blessing)
      → SomeAllows n bs ip permissions
      → accesslist_isblessed (take n bs) ip permissions ≡ true
  unfolding accesslist_isblessed
  SomeAllows-isblessed zero bs (i, b, lt, e, k) = absurd (omega arith)
  SomeAllows-isblessed (suc n) [] (i, b, lt, e, k) = cc
  SomeAllows-isblessed (suc n) (c ∷ bs) (zero, b, lt, e, k) =
      let same : b ≡ c = cc e in
      let allowed = subst (λ x. allows ip permissions x ≡ true) same k in rw allowed refl
  SomeAllows-isblessed (suc n) (c ∷ bs) (suc i, b, lt, e, k) =
      let later = SomeAllows-isblessed n bs (i, b, omega arith, e, k) in ground (arith, later)

  -- After any addresses have been blessed in order, the table has at most 64 of them, and an address
  -- is found to be blessed with one of the given permissions if and only if one of the first 64 is this
  -- address with such a permission.
  pub accesslist_isblessed-bless_all :
      (bs : List Blessing)
      → (length (bless_all [] bs) ≤ adminip_max)
        × ((accesslist_isblessed (bless_all [] bs) ip permissions ≡ true)
            ↔ SomeAllows adminip_max bs ip permissions)
  accesslist_isblessed-bless_all bs =
      let first : bless_all [] bs ≡ take adminip_max bs = bless_all-take [] bs (omega arith) in
      rw first (
        omega (arith, length-take adminip_max bs),
        (isblessed-SomeAllows adminip_max bs, SomeAllows-isblessed adminip_max bs),
      )
