-- ===== src/Http/Arguments.antt =====
-- The arguments of an announce: each case of the `switch` of `http_handle_announce` moves on in the
-- request and leaves arguments in range.
use Prim.Native.Nat.{bit_or}
use bt_server.Prelude.{
  ℕ, ◌+◌, ◌≤◌, ◌<◌, ◌≡◌, refl, List, Bool, true, false, some, arith, length, ◌==◌, if◌then◌else◌,
  ltb, not, ◌&&◌, ◌||◌,
}
use bt_server.Prelude.Bytes.{on_bytes, on_bytes_at, passes_below}
use bt_server.Prelude.Int.{ℤ, pos, negsuc}
use bt_server.Peers.{flag_seeding, flag_completed, flag_stopped}
use bt_server.Http.Queries.{Query, Stands}
use bt_server.Http.{check, scan_text, scan_number, error_400_param, error_400_compact}
use bt_server.Http.Announce.{
  Args, State, set_flag, take_port, take_left, take_numwant, take_compact, take_twenty,
  take_info_hash, take_peer_id, event_flag, to_port, to_numwant, is_zero, fits_port, is_none,
}
use bt_server.Http.Ends.{Ends, >>=-Ends, check-Ends, scan_text-Ends, scan_number-Ends}

pub record ArgsRight (a : Args) : Type 0 where
  pub flag_byte : a.flag < 256
  pub port_word : a.port < 0x1_0000
  pub few : a.numwant ≤ 200
  pub hash_twenty : (h : List ℕ) → a.hash ≡ some h → length h ≡ 20

flag_table :
    on_bytes (λ f.
      ltb (bit_or f flag_seeding) 256
      && ltb (bit_or f flag_completed) 256
      && ltb (bit_or f flag_stopped) 256
      && ltb (bit_or f 0) 256)
    ≡ true
unfolding passes_below
flag_table = refl

set_flag-ArgsRight :
    (f : ℕ) (a : Args) → bit_or a.flag f < 256 → ArgsRight a → ArgsRight (set_flag f a)
set_flag-ArgsRight f a h r = record {
  flag_byte = h;
  port_word = r.port_word;
  few = r.few;
  hash_twenty = r.hash_twenty;
}

pub event_flag-ArgsRight : (k : ℤ) (a : Args) → ArgsRight a → ArgsRight (set_flag (event_flag k) a)
event_flag-ArgsRight k a r =
    set_flag-ArgsRight (event_flag k) a (bounded k (on_bytes_at _ a.flag r.flag_byte flag_table)) r
  where
    bounded :
        (k : ℤ)
        → (ltb (bit_or a.flag flag_seeding) 256
            && ltb (bit_or a.flag flag_completed) 256
            && ltb (bit_or a.flag flag_stopped) 256
            && ltb (bit_or a.flag 0) 256)
          ≡ true
        → bit_or a.flag (event_flag k) < 256
    bounded (pos n) h = ground (arith, h)
    bounded (negsuc n) h = ground (arith, h)

module _ (q : Query) where
  -- Where a state stands in a string of length `n`.
  abbrev pub StateIn : ℕ → State → Type 0
  StateIn n (a, rest) = ArgsRight a × Stands q rest × (length rest ≤ n)

  -- The next position and 20 characters behind `s`.
  abbrev pub TwentyIn : List ℕ → List ℕ × List ℕ → Type 0
  TwentyIn s (rest, word) = Stands q rest × (length rest + 20 ≤ length s) × (length word ≡ 20)

  pub take_twenty-Ends : (s : List ℕ) → Stands q s → Ends q (TwentyIn s) (take_twenty s)
  unfolding take_twenty
  take_twenty-Ends s h = >>=-Ends q _ _ (scan_text s) _ (scan_text-Ends q s h) λ t k.
      >>=-Ends q _ _ (check (length t.1 == 20) error_400_param) _ (check-Ends q _ _)
        λ c e. (k.0, ground (arith, k.1, e), ground (arith, e))

  module _ (a : Args) (right : ArgsRight a) (s : List ℕ) (h : Stands q s)
      (reads : q.numbers ≡ true) where
    pub take_port-Ends : Ends q (StateIn (length s)) (take_port a s)
    unfolding take_port
    take_port-Ends = >>=-Ends q _ _ (scan_text s) _ (scan_text-Ends q s h) λ t k.
        >>=-Ends q _ _ (scan_number t.1) _ (scan_number-Ends q reads t.1) λ r u.
          >>=-Ends q _ _ (check (r.0 == 0) error_400_param) _ (check-Ends q _ _) λ c e.
            >>=-Ends q _ _ (check (fits_port r.1) error_400_param) _ (check-Ends q _ _) λ d f. (
              record {
                flag_byte = right.flag_byte;
                port_word = to_port-lt r.1;
                few = right.few;
                hash_twenty = right.hash_twenty;
              },
              k.0,
              omega (arith, k.1),
            )
      where
        to_port-lt : (n : ℤ) → to_port n < 0x1_0000
        to_port-lt (pos n) = omega arith
        to_port-lt (negsuc n) = omega arith

    pub take_left-Ends : Ends q (StateIn (length s)) (take_left a s)
    unfolding take_left
    take_left-Ends = >>=-Ends q _ _ (scan_text s) _ (scan_text-Ends q s h) λ t k.
        >>=-Ends q _ _ (scan_number t.1) _ (scan_number-Ends q reads t.1)
          λ r u. (flagged (not (r.0 == 0) || is_zero r.1), k.0, omega (arith, k.1))
      where
        seeding : bit_or a.flag flag_seeding < 256
        seeding = ground (arith, on_bytes_at _ a.flag right.flag_byte flag_table)

        flagged : (b : Bool) → ArgsRight (if b then set_flag flag_seeding a else a)
        flagged true = set_flag-ArgsRight flag_seeding a seeding right
        flagged false = right

    pub take_numwant-Ends : Ends q (StateIn (length s)) (take_numwant a s)
    unfolding take_numwant
    take_numwant-Ends = >>=-Ends q _ _ (scan_text s) _ (scan_text-Ends q s h) λ t k.
        >>=-Ends q _ _ (scan_number t.1) _ (scan_number-Ends q reads t.1) λ r u.
          >>=-Ends q _ _ (check (r.0 == 0) error_400_param) _ (check-Ends q _ _) λ c e. (
            record {
              flag_byte = right.flag_byte;
              port_word = right.port_word;
              few = to_numwant-le r.1;
              hash_twenty = right.hash_twenty;
            },
            k.0,
            omega (arith, k.1),
          )
      where
        to_numwant-le : (n : ℤ) → to_numwant n ≤ 200
        to_numwant-le (pos n) = ground arith
        to_numwant-le (negsuc n) = omega arith

    pub take_compact-Ends : Ends q (StateIn (length s)) (take_compact a s)
    unfolding take_compact
    take_compact-Ends = >>=-Ends q _ _ (scan_text s) _ (scan_text-Ends q s h) λ t k.
        >>=-Ends q _ _ (scan_number t.1) _ (scan_number-Ends q reads t.1) λ r u.
          >>=-Ends q _ _ (check (r.0 == 0) error_400_param) _ (check-Ends q _ _) λ c e.
            >>=-Ends q _ _ (check (not (is_zero r.1)) error_400_compact) _ (check-Ends q _ _)
              λ d f. (right, k.0, omega (arith, k.1))

    pub take_info_hash-Ends : Ends q (StateIn (length s)) (take_info_hash a s)
    unfolding take_info_hash
    take_info_hash-Ends =
        >>=-Ends q _ _ (check (is_none a.hash) error_400_param) _ (check-Ends q _ _) λ c e.
          >>=-Ends q _ _ (take_twenty s) _ (take_twenty-Ends s h) λ t k. (
            record {
              flag_byte = right.flag_byte;
              port_word = right.port_word;
              few = right.few;
              hash_twenty = λ w q. same_length t.1 w k.2 q;
            },
            k.0,
            omega (arith, k.1),
          )
      where
        same_length : (x w : List ℕ) → length x ≡ 20 → some x ≡ some w → length w ≡ 20
        same_length x w e q = cc

    pub take_peer_id-Ends : Ends q (StateIn (length s)) (take_peer_id a s)
    unfolding take_peer_id
    take_peer_id-Ends = >>=-Ends q _ _ (take_twenty s) _ (take_twenty-Ends s h) λ t k. (
      record {
        flag_byte = right.flag_byte;
        port_word = right.port_word;
        few = right.few;
        hash_twenty = right.hash_twenty;
      },
      k.0,
      omega (arith, k.1),
    )
