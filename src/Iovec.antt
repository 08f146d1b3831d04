-- ===== src/Iovec.antt =====
-- src/ot_iovec.c: the vectors of memory that a long answer is written to, the last one given first. The
-- address that `mmap` returns, whether `realloc` succeeds, and the size of a page are arguments.
pub mod Pages
use bt_server.Prelude.{
  ℕ, zero, suc, ◌+◌, ◌-◌, ◌*◌, ◌/◌, List, [], ◌∷◌, ◌++◌, Bool, true, false, Option, none, some,
  ◌==◌, if◌then◌else◌,
}

-- `struct iovec`
pub record Iovec : Type 0 where
  pub iov_base : ℕ
  pub iov_len : ℕ

-- A call of `munmap`: the address and the length.
abbrev pub Unmapped : Type 0
Unmapped = ℕ × ℕ

-- `iovec_increase`: the vectors, and the new address, where it is not NULL.
unfoldable pub iovec_increase : Bool → ℕ → ℕ → List Iovec → List Iovec × Option ℕ
iovec_increase grant new_ptr new_alloc v =
    if grant
    then (if new_ptr == 0
        then (v, none)
        else (record { iov_base = new_ptr; iov_len = new_alloc } ∷ v, some new_ptr))
    else (v, none)

-- `iovec_free`: the calls of `munmap`, after which there are no vectors.
unfoldable pub iovec_free : List Iovec → List Unmapped
iovec_free [] = []
iovec_free (i ∷ v) = iovec_free v ++ ((i.iov_base, i.iov_len) ∷ [])

-- What `iovec_fixlast` does with the last vector.
unfoldable pub fix : ℕ → ℕ → Iovec → Iovec × List Unmapped
fix page_size last_ptr i =
    let new_alloc = last_ptr - i.iov_base in
    let old_pages = 1 + i.iov_len / page_size in
    let new_pages = 1 + new_alloc / page_size in
    (
      record i { iov_len = new_alloc },
      if old_pages == new_pages
          then []
          else (i.iov_base + new_pages * page_size, i.iov_len - new_pages * page_size) ∷ [],
    )

-- `iovec_fixlast`; `none` is the read in front of the first vector.
unfoldable pub iovec_fixlast : ℕ → ℕ → List Iovec → Option (List Iovec × List Unmapped)
iovec_fixlast page_size last_ptr [] = none
iovec_fixlast page_size last_ptr (i ∷ v) =
    some ((fix page_size last_ptr i).0 ∷ v, (fix page_size last_ptr i).1)

-- `iovec_length`
unfoldable pub iovec_length : List Iovec → ℕ
iovec_length [] = 0
iovec_length (i ∷ v) = i.iov_len + iovec_length v

-- The vectors in the end, the new address, and the calls of `munmap`.
abbrev pub Increased : Type 0
Increased = List Iovec × Option ℕ × List Unmapped

abbrev pub or_free : List Unmapped → List Iovec × Option ℕ → Increased
or_free calls (v, none) = ([], none, calls ++ iovec_free v)
or_free calls (v, some new_ptr) = (v, some new_ptr, calls)

abbrev pub increased_fixed : Bool → ℕ → ℕ → Option (List Iovec × List Unmapped) → Option Increased
increased_fixed grant new_ptr new_alloc none = none
increased_fixed grant new_ptr new_alloc (some (v, calls)) =
    some (or_free calls (iovec_increase grant new_ptr new_alloc v))

-- `iovec_fix_increase_or_free`
unfoldable pub iovec_fix_increase_or_free : ℕ → ℕ → Bool → ℕ → ℕ → List Iovec → Option Increased
iovec_fix_increase_or_free page_size last_ptr grant new_ptr new_alloc v =
    increased_fixed grant new_ptr new_alloc (iovec_fixlast page_size last_ptr v)
