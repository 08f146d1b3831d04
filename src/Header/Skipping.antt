-- ===== src/Header/Skipping.antt =====
-- The search that tests every other byte against one that tests all.
use bt_server.Prelude.{
  ℕ, zero, suc, ◌+◌, ◌≤◌, ◌<◌, ◌≡◌, ◌∙◌, refl, ap, sym, List, [], ◌∷◌, false, arith, ◌==◌,
  if◌then◌else◌, length, Bool-cases, inl, inr,
}
use bt_server.Header.{
  is_low, is_line_end, next_state, is_end, Run, ends_at, breaks, runs_out, run_of, after_run,
  search_end,
}

-- Every byte is tested, and another byte than those of an end of a line starts anew.
unfoldable pub test_all : ℕ → List ℕ → ℕ → ℕ
test_all state [] i = 0
test_all state (c ∷ s) i =
    if is_line_end c
    then (if is_end (next_state state c) then i + 1 else test_all (next_state state c) s (i + 1))
    else test_all 0 s (i + 1)

run_of-test_all :
    (state : ℕ) (s : List ℕ) (i : ℕ)
    → test_all state s i ≡ after_run (run_of state s i) (test_all 0)
unfolding test_all run_of
run_of-test_all state [] i = refl
run_of-test_all state (c ∷ s) i = elim (Bool-cases (is_line_end c)) [
  | inl line ↦ elim (Bool-cases (is_end (next_state state c))) [
    | inl end ↦ rw (line, end) refl
    | inr inside ↦ rw (line, inside) (run_of-test_all (next_state state c) s (i + 1))
  ]
  | inr other ↦ rw other refl
]

-- A run that breaks has taken a byte.
abbrev Shorter : ℕ → Run → Type 0
Shorter n (ends_at k) = Unit
Shorter n (breaks s i) = length s < n
Shorter n runs_out = Unit

run_of-Shorter : (state : ℕ) (s : List ℕ) (i n : ℕ) → length s ≤ n → Shorter n (run_of state s i)
unfolding run_of
run_of-Shorter state [] i n le = tt
run_of-Shorter state (c ∷ s) i n le = elim (Bool-cases (is_line_end c)) [
  | inl line ↦ elim (Bool-cases (is_end (next_state state c))) [
    | inl end ↦ rw (line, end) tt
    | inr inside ↦
        rw (line, inside) (run_of-Shorter (next_state state c) s (i + 1) n (omega (arith, le)))
  ]
  | inr other ↦ rw other (omega (arith, le))
]

after_run-same :
    (n : ℕ) (r : Run) (f g : List ℕ → ℕ → ℕ)
    → Shorter n r
    → ((s : List ℕ) (i : ℕ) → length s < n → f s i ≡ g s i)
    → after_run r f ≡ after_run r g
after_run-same n (ends_at k) f g short same = refl
after_run-same n (breaks s i) f g short same = same s i short
after_run-same n runs_out f g short same = refl

first_not_end : (c : ℕ) → is_end (next_state 0 c) ≡ false
first_not_end c = elim (Bool-cases (c == 13)) [
  | inl return ↦ rw return refl
  | inr feed ↦ rw feed refl
]

-- A byte in front of one that ends no line is no end of a header.
test_all-pair :
    (p c : ℕ) (s : List ℕ) (i : ℕ)
    → is_low c ≡ false
    → test_all 0 (p ∷ c ∷ s) i ≡ test_all 0 s (i + 2)
unfolding test_all
test_all-pair p c s i high =
    let other : is_line_end c ≡ false = ground (arith, high) in
    let place : test_all 0 s (i + 1 + 1) ≡ test_all 0 s (i + 2) =
      ap (λ k. test_all 0 s k) (omega arith) in
    elim (Bool-cases (is_line_end p)) [
      | inl line ↦ rw (line, first_not_end p, other) place
      | inr no_line ↦ rw (no_line, other) place
    ]

test_all-one : (p i : ℕ) → test_all 0 (p ∷ []) i ≡ 0
unfolding test_all
test_all-one p i = elim (Bool-cases (is_line_end p)) [
  | inl line ↦ rw (line, first_not_end p) refl
  | inr no_line ↦ rw no_line refl
]

pub search_end-test_all :
    (fuel : ℕ) (s : List ℕ) (i : ℕ) → length s < fuel → search_end fuel s i ≡ test_all 0 s i
unfolding search_end test_all
search_end-test_all zero s i less = absurd (omega (arith, less))
search_end-test_all (suc fuel) [] i less = refl
search_end-test_all (suc fuel) (p ∷ []) i less = sym (test_all-one p i)
search_end-test_all (suc fuel) (p ∷ c ∷ s) i less = elim (Bool-cases (is_low c)) [
  | inl low ↦ rw low (
      after_run-same fuel (run_of 0 (p ∷ c ∷ s) i) (search_end fuel) (test_all 0)
        (run_of-Shorter 0 (p ∷ c ∷ s) i fuel (omega (arith, less))) (search_end-test_all fuel)
      ∙ sym (run_of-test_all 0 (p ∷ c ∷ s) i))
  | inr high ↦
      rw high (
        search_end-test_all fuel s (i + 2) (omega (arith, less)) ∙ sym (test_all-pair p c s i high))
]
