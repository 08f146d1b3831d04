-- ===== src/Networks/Prefix.antt =====
-- The byte that a prefix ends in, over all bytes: its first bits are compared where the byte of the
-- address is below 0x80, and from there on nothing is ever equal.
use bt_server.Prelude.{
  ℕ, ◌-◌, ◌*◌, ◌/◌, ◌^◌, ◌≤◌, ◌<◌, ◌≡◌, ◌≢◌, refl, Bool, true, false, not, ◌||◌, arith, ltb, ◌==◌,
  ◌&&◌,
}
use bt_server.Prelude.Bytes.{on_bytes, on_bytes_at, passes_below}
use bt_server.Networks.{masked, same_bits}

-- The first k bits of a byte, the others cleared.
abbrev pub first_bits : ℕ → ℕ → ℕ
first_bits k a = a / 2 ^ (8 - k) * 2 ^ (8 - k)

-- The number of bits that a prefix has in its last byte, where it ends inside one.
part : ℕ → Bool
part k = not (k == 0) && ltb k 8

low_byte : ℕ → ℕ → Bool
low_byte k a = not (ltb a 128) || (masked k a == first_bits k a && ltb (first_bits k a) 128)

-- The masked byte equals no `char`: it is too large for one and too small for a negative `int`.
high_byte : ℕ → ℕ → Bool
high_byte k a = ltb a 128 || (ltb 127 (masked k a) && ltb (masked k a) (2 ^ 15))

low_table : on_bytes (λ k. not (part k) || on_bytes (low_byte k)) ≡ true
unfolding passes_below low_byte part
low_table = refl

high_table : on_bytes (λ k. not (part k) || on_bytes (high_byte k)) ≡ true
unfolding passes_below high_byte part
high_table = refl

or_holds : (a b : Bool) → (not a || b) ≡ true → a ≡ true → b ≡ true
or_holds true b h e = h
or_holds false b h e = cc

module _ (k a : ℕ) (inside : (k ≢ 0) × (k < 8)) (byte : a < 256) where
  part-true : part k ≡ true
  unfolding part
  part-true = ground arith

  masked-low : a < 128 → (masked k a ≡ first_bits k a) × (first_bits k a < 128)
  unfolding low_byte
  masked-low h =
      let t = or_holds _ _ (on_bytes_at _ k (omega arith) low_table) part-true in
      let both = or_holds (ltb a 128) _ (on_bytes_at (low_byte k) a byte t) (ground arith) in
      ground (arith, both)

  high_byte-true : high_byte k a ≡ true
  high_byte-true =
      on_bytes_at (high_byte k) a byte
        (or_holds _ _ (on_bytes_at _ k (omega arith) high_table) part-true)

  -- Below 0x80 the first bits are compared with the whole byte of the network.
  pub same_bits-low : (n : ℕ) → a < 128 → n < 256 → same_bits k a n ≡ (first_bits k a == n)
  unfolding same_bits
  same_bits-low n h byte_n = ground (arith, masked-low h)

  pub same_bits-high : (n : ℕ) → 128 ≤ a → n < 256 → same_bits k a n ≡ false
  unfolding same_bits high_byte
  same_bits-high n h byte_n = ground (arith, high_byte-true)
