-- ===== src/Iovec/Pages.antt =====
-- What `iovec_fixlast` of src/ot_iovec.c gives back.
use native.Mathlib.Nat.{div-add-mod, mod-lt, mul-le-mul_right}
use bt_server.Prelude.{
  ℕ, ◌+◌, ◌-◌, ◌*◌, ◌/◌, ◌≤◌, ◌<◌, ◌≡◌, ap, List, [], ◌∷◌, Option, none, some, arith, ◌==◌, ltb,
  Bool-cases, inl, inr,
}
use bt_server.Iovec.{Iovec, Unmapped, fix, iovec_fixlast, iovec_length}

module _ (page : ℕ) (positive : 0 < page) where
  -- The end of the pages that a number of bytes begins on.
  pages_end : (n : ℕ) → (n < (1 + n / page) * page) × ((1 + n / page) * page ≤ n + page)
  pages_end n =
      let whole = div-add-mod n page in let rest = mod-lt n positive in omega (arith, whole, rest)

  whole_pages : (k n : ℕ) → k ≤ n / page → k * page ≤ n
  whole_pages k n le = omega (arith, mul-le-mul_right page le, div-add-mod n page)

  abbrev pub given_back : List Unmapped → ℕ
  given_back [] = 0
  given_back ((start, n) ∷ calls) = n + given_back calls

  -- Every call gives back memory from behind the last byte up to the end of the vector.
  abbrev pub Behind : ℕ → Iovec → List Unmapped → Type 0
  Behind last_ptr i [] = Unit
  Behind last_ptr i ((start, n) ∷ calls) =
      (last_ptr < start) × (start + n ≡ i.iov_base + i.iov_len) × Behind last_ptr i calls

  abbrev pub FixedRight : ℕ → Iovec → List Iovec → Option (List Iovec × List Unmapped) → Type 0
  FixedRight last_ptr i v none = ⊥
  FixedRight last_ptr i v (some (w, calls)) =
      (iovec_length w + i.iov_base ≡ iovec_length v + last_ptr)
      × Behind last_ptr i calls
      × (i.iov_base + i.iov_len ≤ last_ptr + page + given_back calls)

  module _ (last_ptr : ℕ) (i : Iovec) (v : List Iovec) (from : i.iov_base ≤ last_ptr)
      (upto : last_ptr ≤ i.iov_base + i.iov_len) where
    abbrev new_alloc : ℕ
    new_alloc = last_ptr - i.iov_base

    not_more_pages : new_alloc / page ≤ i.iov_len / page
    not_more_pages = elim (Bool-cases (ltb (i.iov_len / page) (new_alloc / page))) [
      | inl more ↦
          let k = whole_pages (1 + i.iov_len / page) new_alloc (ground (arith, more)) in
          absurd (omega (arith, k, pages_end i.iov_len, upto))
      | inr fewer ↦ ground (arith, fewer)
    ]

    -- Where the last byte of a vector is inside it, and the vector is the last one, its length becomes
    -- that of the bytes in use: what is given back lies behind the last byte and ends with the vector,
    -- and of the vector no more than a page is kept behind the last byte.
    pub iovec_fixlast-FixedRight : FixedRight last_ptr i v (iovec_fixlast page last_ptr (i ∷ v))
    unfolding iovec_fixlast fix iovec_length
    iovec_fixlast-FixedRight =
        elim (Bool-cases ((1 + i.iov_len / page) == (1 + new_alloc / page))) [
          | inl same ↦
              let equal : 1 + i.iov_len / page ≡ 1 + new_alloc / page = ground (arith, same) in
              let ends = ap (λ k. k * page) equal in
              rw same (
                omega (arith, from),
                tt,
                omega (arith, ends, from, pages_end new_alloc, pages_end i.iov_len),
              )
          | inr fewer ↦
              let less : 1 + new_alloc / page ≤ i.iov_len / page =
                ground (arith, fewer, not_more_pages) in
              let k = whole_pages (1 + new_alloc / page) i.iov_len less in
              rw fewer (
                omega (arith, from),
                (omega (arith, from, pages_end new_alloc), omega (arith, k), tt),
                omega (arith, k, from, pages_end new_alloc),
              )
        ]
