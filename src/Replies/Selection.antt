-- ===== src/Replies/Selection.antt =====
-- `return_peers_selection` of src/trackerlogic.c, and the part of `return_peers_for_torrent` that
-- chooses between it and `return_peers_all`. What `random` returns, by the peers that are left to
-- choose, is an argument.
use bt_server.Prelude.{
  ℕ, zero, suc, ◌+◌, ◌-◌, ◌*◌, ◌/◌, ◌%◌, ◌^◌, List, [], ◌∷◌, Bool, Option, none, some, ltb, leb,
  ◌==◌, if◌then◌else◌, length, get_elem?, drop,
}
use bt_server.Prelude.Partial.{◌>>=◌}
use bt_server.Vector.{Vector}
use bt_server.Peers.{Peer}
use bt_server.Clean.{PeerList}
use bt_server.Replies.{Reply, put_peer, with_size, return_peers_all}

-- `shifted_pc & MAXPRECBIT`
abbrev pub has_top_bit : ℕ → Bool
has_top_bit shifted_pc = shifted_pc / 2 ^ 29 % 2 == 1

-- `shifted_pc` and `shift` behind the loop that shifts; `none` where the fuel ends.
unfoldable pub shift_up : ℕ → ℕ → ℕ → Option (ℕ × ℕ)
shift_up zero shifted_pc shift = none
shift_up (suc fuel) shifted_pc shift =
    if has_top_bit shifted_pc
    then some (shifted_pc, shift)
    else shift_up fuel (shifted_pc * 2 % 2 ^ 32) (shift + 1)

-- `diff`, where `amount` peers are left behind this one.
unfoldable pub step_range : ℕ → ℕ → ℕ → ℕ
step_range shifted_step shift amount =
    ((amount + 1) * shifted_step % 2 ^ 64 / 2 ^ shift
      + (2 ^ 64 - amount * shifted_step % 2 ^ 64 / 2 ^ shift))
    % 2 ^ 32

-- A place in the buckets, and the peer there.
pub record Place : Type 0 where
  pub bucket_index : ℕ
  pub bucket_offset : ℕ
  pub peer : Peer

pub data Pass : Type 0 where
  stops : Place → Pass
  goes_on : ℕ → Pass
  outside : Pass

abbrev pub stop_at : ℕ → ℕ → Option Peer → Pass
stop_at bucket_index bucket_offset none = outside
stop_at bucket_index bucket_offset (some p) =
    stops (record { bucket_index = bucket_index; bucket_offset = bucket_offset; peer = p })

-- The loop over the buckets up to the last one, the number of the first one given.
unfoldable pub pass_buckets : ℕ → ℕ → List (Vector Peer) → Pass
pass_buckets bucket_index bucket_offset [] = goes_on bucket_offset
pass_buckets bucket_index bucket_offset (v ∷ vs) =
    if leb (length v.items) bucket_offset
    then pass_buckets (bucket_index + 1) (bucket_offset - length v.items) vs
    else stop_at bucket_index bucket_offset (get_elem? v.items bucket_offset)

-- The same from the first bucket on, again and again.
unfoldable pub pass_rounds : ℕ → List (Vector Peer) → Pass → Option Place
pass_rounds fuel lists (stops place) = some place
pass_rounds fuel lists outside = none
pass_rounds zero lists (goes_on bucket_offset) = none
pass_rounds (suc fuel) lists (goes_on bucket_offset) =
    pass_rounds fuel lists (pass_buckets 0 bucket_offset lists)

-- The loop over the buckets; its fuel is for a round that takes one from the offset.
unfoldable pub find_place : List (Vector Peer) → ℕ → ℕ → Option Place
find_place lists bucket_index bucket_offset =
    pass_rounds (bucket_offset + 1) lists
      (pass_buckets bucket_index bucket_offset (drop bucket_index lists))

module _ (random : ℕ → ℕ) (lists : List (Vector Peer)) where
  -- A remainder by 0 is `none`.
  abbrev pub advanced : ℕ → ℕ → ℕ → Option ℕ
  advanced amount bucket_offset diff =
      if diff == 0 then none else some ((bucket_offset + (1 + random amount % diff)) % 2 ^ 32)

  -- The loop over the peers to choose.
  unfoldable pub select_peers : ℕ → ℕ → ℕ → ℕ → ℕ → Reply → Option Reply
  select_peers shifted_step shift zero bucket_index bucket_offset r = some r
  select_peers shifted_step shift (suc amount) bucket_index bucket_offset r = do
    offset ← advanced amount bucket_offset (step_range shifted_step shift amount)
    place ← find_place lists bucket_index offset
    q ← put_peer place.peer r
    select_peers shifted_step shift amount place.bucket_index place.bucket_offset q

abbrev pub shifted : {R : Type 0} → Option (ℕ × ℕ) → (ℕ → ℕ → Option R) → Option R
shifted none f = none
shifted (some (shifted_pc, shift)) f = f shifted_pc shift

unfoldable pub return_peers_selection : (ℕ → ℕ) → PeerList → ℕ → List ℕ → Option (List ℕ × ℕ)
return_peers_selection random l amount cells = with_size amount (
    shifted (shift_up 33 (l.peer_count % 2 ^ 32) 0) (λ shifted_pc shift.
      select_peers random l.peers.lists (shifted_pc / amount % 2 ^ 32) shift amount 0
        (random amount % l.peer_count % 2 ^ 32)
        (record { cells = cells; front = 0; back = amount })))

-- `amount`, where it is more than there are peers.
abbrev pub amount_of : PeerList → ℕ → ℕ
amount_of l wanted = if ltb l.peer_count wanted then l.peer_count else wanted

-- The peers that `return_peers_for_torrent` writes.
unfoldable pub return_peers : (ℕ → ℕ) → PeerList → ℕ → List ℕ → Option (List ℕ × ℕ)
return_peers random l wanted cells =
    let amount = amount_of l wanted in
    if amount == 0
    then some (cells, 0)
    else if amount == l.peer_count
    then return_peers_all l cells
    else return_peers_selection random l amount cells
