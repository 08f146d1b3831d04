-- ===== src/Networks/Match.antt =====
-- What `address_in_net` answers for a prefix that ends inside a byte.
use bt_server.Prelude.{
  ltb, ℕ, suc, ◌+◌, ◌*◌, ◌/◌, ◌%◌, ◌≤◌, ◌<◌, ◌≡◌, ◌≢◌, refl, ap, ◌∙◌, List, [], ◌∷◌, ◌++◌, Bool,
  true, false, Option, none, some, arith, length, get_elem?, Bool-cases, ◌==◌, if◌then◌else◌, inl,
  inr, ◌⊎◌,
}
use mathlib.Core.Path.{subst}
use bt_server.Networks.{Net, same_bits, memcmp_equal, address_in_net}
use bt_server.Networks.Prefix.{first_bits, same_bits-low, same_bits-high}

-- A decision that is reached, and what it says.
abbrev pub Decides : Option Bool → Type 0 → Type 0
Decides none P = ⊥
Decides (some b) P = ((b ≡ true) × P) ⊎ ((b ≡ false) × (P → ⊥))

memcmp_equal-cons :
    (n x y : ℕ) (a b : List ℕ)
    → memcmp_equal (suc n) (x ∷ a) (y ∷ b) ≡ (if x == y then memcmp_equal n a b else some false)
unfolding memcmp_equal
memcmp_equal-cons n x y a b = refl

memcmp_equal-Decides :
    (p q s t : List ℕ)
    → length p ≡ length q
    → ((memcmp_equal (length p) (p ++ s) (q ++ t) ≡ some true) × (p ≡ q))
      ⊎ ((memcmp_equal (length p) (p ++ s) (q ++ t) ≡ some false) × (p ≢ q))
unfolding memcmp_equal
memcmp_equal-Decides [] [] s t h = inl (refl, refl)
memcmp_equal-Decides [] (y ∷ q) s t h = absurd (omega arith)
memcmp_equal-Decides (x ∷ p) [] s t h = absurd (omega arith)
memcmp_equal-Decides (x ∷ p) (y ∷ q) s t h = elim (Bool-cases (x == y)) [
  | inl e ↦
      let same : x ≡ y = ground arith in
      elim (memcmp_equal-Decides p q s t (omega arith)) [
        | inl (m, r) ↦ inl (ground (arith, m), cc)
        | inr (m, r) ↦ inr (ground (arith, m), λ z. r (cc))
      ]
  | inr e ↦ let ne : x ≢ y = λ z. ground arith in inr (ground arith, λ z. ne (cc))
]

get_elem?-append : (p x : List ℕ) (a : ℕ) → get_elem? (p ++ (a ∷ x)) (length p) ≡ some a
get_elem?-append [] x a = refl
get_elem?-append (y ∷ p) x a = get_elem?-append p x a

address_in_net-part :
    (address : List ℕ) (net : Net) (a n : ℕ)
    → net.bits % 8 ≢ 0
    → memcmp_equal (net.bits / 8) address net.address ≡ some true
    → get_elem? address (net.bits / 8) ≡ some a
    → get_elem? net.address (net.bits / 8) ≡ some n
    → address_in_net address net ≡ some (same_bits (net.bits % 8) a n)
unfolding address_in_net
address_in_net-part address net a n nz m g h = ground (arith, m, g, h)

address_in_net-other :
    (address : List ℕ) (net : Net)
    → memcmp_equal (net.bits / 8) address net.address ≡ some false
    → address_in_net address net ≡ some false
unfolding address_in_net
address_in_net-other address net m = ground (arith, m)

-- An address and a network that are told apart behind the first bytes, by the bytes `a` and `n`.
module _ (p q x y : List ℕ) (a n k : ℕ) (as_long : length p ≡ length q) where
  abbrev pub net_of : Net
  net_of = record { address = q ++ (n ∷ y); bits = length p * 8 + k }

  split_bits : k < 8 → (net_of.bits / 8 ≡ length p) × (net_of.bits % 8 ≡ k)
  split_bits h = (omega arith, omega arith)

  same_prefix :
      (k ≢ 0) × (k < 8)
      → memcmp_equal (length p) (p ++ (a ∷ x)) (q ++ (n ∷ y)) ≡ some true
      → address_in_net (p ++ (a ∷ x)) net_of ≡ some (same_bits k a n)
  same_prefix (nz, lt) m =
      let (d, r) = split_bits lt in
      let there : get_elem? (q ++ (n ∷ y)) (length p) ≡ some n =
        rw as_long (get_elem?-append q y n) in
      subst (λ z. address_in_net (p ++ (a ∷ x)) net_of ≡ some (same_bits z a n)) r
        (address_in_net-part (p ++ (a ∷ x)) net_of a n (omega (arith, r, nz)) (rw d m)
          (rw d (get_elem?-append p x a)) (rw d there))

  other_prefix :
      k < 8
      → memcmp_equal (length p) (p ++ (a ∷ x)) (q ++ (n ∷ y)) ≡ some false
      → address_in_net (p ++ (a ∷ x)) net_of ≡ some false
  other_prefix lt m = address_in_net-other (p ++ (a ∷ x)) net_of (rw ((split_bits lt).0) m)

  -- A byte that is below 0x80 in the address is compared by its first bits.
  address_in_net_low-Decides :
      (k ≢ 0) × (k < 8)
      → a < 128
      → n < 256
      → Decides (address_in_net (p ++ (a ∷ x)) net_of) ((p ≡ q) × (first_bits k a ≡ n))
  address_in_net_low-Decides inside low byte =
      elim (memcmp_equal-Decides p q (a ∷ x) (n ∷ y) as_long) [
        | inl (m, e) ↦
            let bits = same_bits-low k a inside (omega arith) n low byte in
            rw (same_prefix inside m, Decides)
              (rw bits (elim (Bool-cases (first_bits k a == n)) [
                | inl same ↦ inl (same, (e, ground arith))
                | inr other ↦ inr (other, λ z. ground (arith, z.1))
              ]))
        | inr (m, ne) ↦ rw (other_prefix inside.1 m, Decides) (inr (refl, λ z. ne z.0))
      ]

  -- A byte that is 0x80 or more in the address is never found.
  address_in_net_missed :
      (k ≢ 0) × (k < 8)
      → 128 ≤ a
      → a < 256
      → n < 256
      → address_in_net (p ++ (a ∷ x)) net_of ≡ some false
  address_in_net_missed inside high byte byte_n =
      elim (memcmp_equal-Decides p q (a ∷ x) (n ∷ y) as_long) [
        | inl (m, e) ↦ same_prefix inside m ∙ ap some (same_bits-high k a inside byte n high byte_n)
        | inr (m, ne) ↦ other_prefix inside.1 m
      ]

  low_byte : (o : Option Bool) (P : Type 0) → a < 128 → Decides o P → Decides o ((a < 128) × P)
  low_byte none P low h = h
  low_byte (some b) P low (inl (yes_b, holds)) = inl (yes_b, (low, holds))
  low_byte (some b) P low (inr (no_b, fails)) = inr (no_b, λ z. fails z.1)

  -- Where a prefix ends inside a byte, the address is found in the network exactly if that byte is below
  -- 0x80 in the address, the whole bytes in front are equal, and the first bits of that byte, the others
  -- cleared, are the network's byte. So an address whose byte is 0x80 or more is in no such network, also
  -- not where all its bits are equal.
  pub address_in_net-Decides :
      (k ≢ 0) × (k < 8)
      → a < 256
      → n < 256
      → Decides
          (address_in_net (p ++ (a ∷ x)) net_of)
          ((a < 128) × ((p ≡ q) × (first_bits k a ≡ n)))
  address_in_net-Decides inside byte byte_n = elim (Bool-cases (ltb a 128)) [
    | inl low ↦
        low_byte _ _ (ground (arith, low))
          (address_in_net_low-Decides inside (ground (arith, low)) byte_n)
    | inr high ↦
        let large : 128 ≤ a = ground (arith, high) in
        rw (address_in_net_missed inside large byte byte_n, Decides)
          (inr (refl, λ z. absurd (omega (arith, z.0, large))))
  ]
