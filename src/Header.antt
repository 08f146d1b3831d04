-- ===== src/Header.antt =====
-- `header_complete` of src/opentracker.c: how many bytes of a request the header has, where its end has
-- arrived. The rest of the request is a list, from the byte in front of the one that is tested.
pub mod Skipping
pub mod States
use bt_server.Prelude.{
  ℕ, zero, suc, ◌+◌, ◌*◌, ◌/◌, List, [], ◌∷◌, Bool, ◌||◌, ltb, leb, ◌==◌, if◌then◌else◌, length,
}

-- `request[i] <= 13` of a signed `char`
abbrev pub is_low : ℕ → Bool
is_low c = leb c 13 || leb 128 c

abbrev pub is_line_end : ℕ → Bool
is_line_end c = c == 13 || c == 10

-- `( state >> 2 ) | ( ( c << 6 ) & 0xc0 )`, of two bits that do not meet
abbrev pub next_state : ℕ → ℕ → ℕ
next_state state c = state / 4 + (if c == 13 then 0x40 else 0x80)

abbrev pub is_end : ℕ → Bool
is_end state = leb 0xa0 state || state == 0x99

-- What the inner loop ends with: the end of the header, another byte, or the end of the request.
pub data Run : Type 0 where
  ends_at : ℕ → Run
  breaks : List ℕ → ℕ → Run
  runs_out : Run

-- The inner loop.
unfoldable pub run_of : ℕ → List ℕ → ℕ → Run
run_of state [] i = runs_out
run_of state (c ∷ s) i =
    let rest = run_of (next_state state c) s (i + 1) in
    if is_line_end c
    then (if is_end (next_state state c) then ends_at (i + 1) else rest)
    else breaks s (i + 1)

abbrev pub after_run : Run → (List ℕ → ℕ → ℕ) → ℕ
after_run (ends_at n) f = n
after_run (breaks s i) f = f s i
after_run runs_out f = 0

-- The outer loop, which tests every other byte.
unfoldable pub search_end : ℕ → List ℕ → ℕ → ℕ
search_end zero s i = 0
search_end (suc fuel) [] i = 0
search_end (suc fuel) (p ∷ []) i = 0
search_end (suc fuel) (p ∷ c ∷ s) i =
    if is_low c
    then after_run (run_of 0 (p ∷ c ∷ s) i) (search_end fuel)
    else search_end fuel s (i + 2)

unfoldable pub header_complete : List ℕ → ℕ
header_complete request = search_end (suc (length request)) request 0
