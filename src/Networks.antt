-- ===== src/Networks.antt =====
-- `address_in_net` of src/ot_accesslist.c: whether an address begins with the bits of a network.
-- `ot_ip6` is an array of `char`, taken as signed; a byte stands for the character with its bits, and
-- an `int` for its 32 bits.
pub mod Prefix
pub mod Match
pub mod Blessings
use Prim.Native.Nat.{bit_and}
use bt_server.Prelude.{
  ℕ, zero, suc, ◌+◌, ◌-◌, ◌/◌, ◌%◌, ◌^◌, List, [], ◌∷◌, Bool, true, false, Option, none, some, ltb,
  ◌==◌, if◌then◌else◌, get_elem?,
}

-- `ot_net`
pub record Net : Type 0 where
  pub address : List ℕ
  pub bits : ℕ

-- The bits of a `char` that is widened to an `int`.
abbrev pub widened : ℕ → ℕ
widened c = if ltb c 128 then c else c + (2 ^ 32 - 2 ^ 8)

-- `( 0x7f00 >> k ) & a`
abbrev pub masked : ℕ → ℕ → ℕ
masked k a = bit_and (0x7f00 / 2 ^ k) (widened a)

-- Whether `( ( 0x7f00 >> k ) & a ) - n` is 0.
unfoldable pub same_bits : ℕ → ℕ → ℕ → Bool
same_bits k a n = masked k a == widened n

-- `!memcmp( a, b, n )`; `none` is a read behind an end.
unfoldable pub memcmp_equal : ℕ → List ℕ → List ℕ → Option Bool
memcmp_equal zero a b = some true
memcmp_equal (suc n) [] b = none
memcmp_equal (suc n) (x ∷ a) [] = none
memcmp_equal (suc n) (x ∷ a) (y ∷ b) =
    let rest = memcmp_equal n a b in if x == y then rest else some false

abbrev pub rest_in_net : ℕ → Option ℕ → Option ℕ → Option Bool
rest_in_net k (some a) (some n) = some (same_bits k a n)
rest_in_net k (some a) none = none
rest_in_net k none n = none

unfoldable pub address_in_net : List ℕ → Net → Option Bool
address_in_net address net = elim (memcmp_equal (net.bits / 8) address net.address) [
  | none ↦ none
  | some false ↦ some false
  | some true ↦
      if net.bits % 8 == 0
      then some true
      else rest_in_net (net.bits % 8) (get_elem? address (net.bits / 8))
          (get_elem? net.address (net.bits / 8))
]
