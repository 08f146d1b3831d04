-- ===== src/Header/States.antt =====
-- The state of `header_complete` against the bytes that were read last.
use bt_server.Prelude.{
  ℕ, suc, ◌+◌, ◌*◌, ◌/◌, ◌≤◌, ◌≡◌, ◌∙◌, refl, ap, List, [], ◌∷◌, Bool, true, false, ◌&&◌, ◌||◌,
  arith, leb, ◌==◌, if◌then◌else◌, length, Bool-cases, inl, inr,
}
use bt_server.Header.{is_line_end, next_state, is_end, header_complete}
use bt_server.Header.Skipping.{test_all, search_end-test_all}

abbrev pub starts_with : List ℕ → List ℕ → Bool
starts_with [] s = true
starts_with (x ∷ xs) [] = false
starts_with (x ∷ xs) (c ∷ s) = (c == x) && starts_with xs s

-- The bytes read so far, the last one first, end with an empty line: "\n\n" or "\r\n\r\n".
abbrev pub ends_header : List ℕ → Bool
ends_header before =
    starts_with (10 ∷ 10 ∷ []) before || starts_with (10 ∷ 13 ∷ 10 ∷ 13 ∷ []) before

-- The number of bytes up to the first empty line, 0 where there is none.
unfoldable pub first_end : List ℕ → List ℕ → ℕ → ℕ
first_end before [] i = 0
first_end before (c ∷ s) i =
    if ends_header (c ∷ before) then i + 1 else first_end (c ∷ before) s (i + 1)

-- The two bits of a byte that ends a line.
abbrev code : ℕ → ℕ
code c = if c == 13 then 1 else 2

abbrev add_code : ℕ → ℕ → ℕ → ℕ
add_code c place rest = if is_line_end c then code c * place + rest else 0

abbrev last_1 : List ℕ → ℕ
last_1 [] = 0
last_1 (c ∷ s) = add_code c 1 0

abbrev last_2 : List ℕ → ℕ
last_2 [] = 0
last_2 (c ∷ s) = add_code c 4 (last_1 s)

abbrev last_3 : List ℕ → ℕ
last_3 [] = 0
last_3 (c ∷ s) = add_code c 16 (last_2 s)

abbrev last_4 : List ℕ → ℕ
last_4 [] = 0
last_4 (c ∷ s) = add_code c 64 (last_3 s)

add_code_quarter :
    (c place rest less : ℕ)
    → rest / 4 ≡ less
    → add_code c (4 * place) rest / 4 ≡ add_code c place less
add_code_quarter c place rest less e = elim (Bool-cases (is_line_end c)) [
  | inl line ↦ elim (Bool-cases (c == 13)) [
    | inl return ↦ rw (line, return) (omega (arith, e))
    | inr feed ↦ rw (line, feed) (omega (arith, e))
  ]
  | inr other ↦ rw other (omega arith)
]

last_1_quarter : (s : List ℕ) → last_1 s / 4 ≡ 0
last_1_quarter [] = omega arith
last_1_quarter (c ∷ s) = elim (Bool-cases (is_line_end c)) [
  | inl line ↦ elim (Bool-cases (c == 13)) [
    | inl return ↦ rw (line, return) (omega arith)
    | inr feed ↦ rw (line, feed) (omega arith)
  ]
  | inr other ↦ rw other (omega arith)
]

last_2_quarter : (s : List ℕ) → last_2 s / 4 ≡ last_1 s
last_2_quarter [] = omega arith
last_2_quarter (c ∷ s) = add_code_quarter c 1 (last_1 s) 0 (last_1_quarter s)

last_3_quarter : (s : List ℕ) → last_3 s / 4 ≡ last_2 s
last_3_quarter [] = omega arith
last_3_quarter (c ∷ s) = add_code_quarter c 4 (last_2 s) (last_1 s) (last_2_quarter s)

last_4_quarter : (s : List ℕ) → last_4 s / 4 ≡ last_3 s
last_4_quarter [] = omega arith
last_4_quarter (c ∷ s) = add_code_quarter c 16 (last_3 s) (last_2 s) (last_3_quarter s)

small_1 : (s : List ℕ) → last_1 s ≤ 2
small_1 [] = omega arith
small_1 (c ∷ s) = ground arith

small_2 : (s : List ℕ) → last_2 s ≤ 11
small_2 s = omega (arith, last_2_quarter s, small_1 s)

small_3 : (s : List ℕ) → last_3 s ≤ 47
small_3 s = omega (arith, last_3_quarter s, small_2 s)

is_1 : (s : List ℕ) → (last_1 s == 1) ≡ starts_with (13 ∷ []) s
is_1 [] = refl
is_1 (c ∷ s) = ground arith

is_9 : (s : List ℕ) → (last_2 s == 9) ≡ starts_with (10 ∷ 13 ∷ []) s
is_9 [] = refl
is_9 (c ∷ s) = ground (arith, is_1 s, small_1 s)

is_25 : (s : List ℕ) → (last_3 s == 25) ≡ starts_with (13 ∷ 10 ∷ 13 ∷ []) s
is_25 [] = refl
is_25 (c ∷ s) = ground (arith, is_9 s, small_2 s)

is_32 : (s : List ℕ) → leb 32 (last_3 s) ≡ starts_with (10 ∷ []) s
is_32 [] = refl
is_32 (c ∷ s) = ground (arith, small_2 s)

-- The state tells what the last bytes were.
is_end-ends_header :
    (c : ℕ) (before : List ℕ)
    → is_line_end c ≡ true
    → is_end (next_state (last_4 before) c) ≡ ends_header (c ∷ before)
is_end-ends_header c before line = elim (Bool-cases (c == 13)) [
  | inl return ↦
      let feed : (c == 10) ≡ false = ground (arith, return) in
      let n = last_3 before in
      let less : leb 160 (n + 64) ≡ false = ground (arith, small_3 before) in
      let differs : (n + 64 == 153) ≡ false = ground (arith, small_3 before) in
      rw (last_4_quarter before, return, feed, less, differs) refl
  | inr no_return ↦
      let feed : (c == 10) ≡ true = ground (arith, line, no_return) in
      let n = last_3 before in
      let two : leb 160 (n + 128) ≡ leb 32 n = ground arith in
      let four : (n + 128 == 153) ≡ (n == 25) = ground arith in
      rw (last_4_quarter before, no_return, feed, two, four, is_32 before, is_25 before) refl
]

state_after :
    (c : ℕ) (before : List ℕ)
    → is_line_end c ≡ true
    → next_state (last_4 before) c ≡ last_4 (c ∷ before)
state_after c before line = ground (arith, line, last_4_quarter before)

other_byte : (c : ℕ) (before : List ℕ) → is_line_end c ≡ false → ends_header (c ∷ before) ≡ false
other_byte c before other = ground (arith, other)

test_all-first_end :
    (before s : List ℕ) (i : ℕ) → test_all (last_4 before) s i ≡ first_end before s i
unfolding test_all first_end
test_all-first_end before [] i = refl
test_all-first_end before (c ∷ s) i = elim (Bool-cases (is_line_end c)) [
  | inl line ↦
      rw (line, is_end-ends_header c before line, state_after c before line)
        (ap (λ n. if ends_header (c ∷ before) then i + 1 else n)
          (test_all-first_end (c ∷ before) s (i + 1)))
  | inr other ↦
      let fresh : 0 ≡ last_4 (c ∷ before) = ground (arith, other) in
      rw (other, other_byte c before other)
        (ap (λ n. test_all n s (i + 1)) fresh ∙ test_all-first_end (c ∷ before) s (i + 1))
]

-- For every request, the search that tests every other byte and keeps a state of eight bits finds the
-- first empty line, with or without carriage returns: it answers with the number of bytes up to its end,
-- and with 0 where the request has none.
pub header_complete-first_end :
    (request : List ℕ) → header_complete request ≡ first_end [] request 0
unfolding header_complete
header_complete-first_end request =
    search_end-test_all (suc (length request)) request 0 (omega arith)
    ∙ test_all-first_end [] request 0
