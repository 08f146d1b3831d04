-- ===== src/Udp.antt =====
-- src/ot_udp.c: a packet of a UDP socket, up to the bytes of its reply. Parameters are
-- `rijndaelEncrypt128` under the round key, what `random` returns, and the packet. `ws->inbuf` is all of
-- the buffer: behind the bytes that were received stands what earlier packets left.
pub mod Serving
pub mod ConnectionId
use Prim.Native.Nat.{bit_or, bit_xor}
use bt_server.Prelude.{
  ℕ, zero, suc, ◌+◌, ◌-◌, ◌*◌, ◌^◌, List, [], ◌∷◌, ◌++◌, Bool, true, false, not, ◌&&◌, Option, none,
  some, ltb, leb, ◌==◌, if◌then◌else◌, take, drop,
}
use bt_server.Peers.{Peer, flag_seeding, flag_completed, flag_stopped, has_flag}
use bt_server.Clean.{PeerList}
use bt_server.Tracker.{
  Tracker, Env, Answer, add_peer_to_torrent, remove_peer_from_torrent, scrape_torrent,
}
use bt_server.Http.Handlers.{big_endian}

-- `g_hour_of_the_key` and `g_key_of_the_hour`
pub record Keys : Type 0 where
  pub hour : ℕ
  pub current : ℕ
  pub previous : ℕ

-- The first lines of `udp_make_connectionid`.
unfoldable pub renew_keys : ℕ → ℕ → Keys → Keys
renew_keys now fresh k =
    if ltb k.hour (now + 60)
    then record { hour = now; current = fresh; previous = k.current }
    else k

abbrev pub bytes_at : ℕ → ℕ → List ℕ → List ℕ
bytes_at offset n s = take n (drop offset s)

abbrev pub xor_bytes : List ℕ → List ℕ → List ℕ
xor_bytes [] bs = []
xor_bytes (a ∷ rest) [] = []
xor_bytes (a ∷ rest) (b ∷ bs) = bit_xor a b ∷ xor_bytes rest bs

abbrev pub same_bytes : List ℕ → List ℕ → Bool
same_bytes [] [] = true
same_bytes [] (b ∷ bs) = false
same_bytes (a ∷ rest) [] = false
same_bytes (a ∷ rest) (b ∷ bs) = (a == b) && same_bytes rest bs

-- What `udp_make_connectionid` makes of the cipher's 16 bytes.
unfoldable pub fold_crypt : List ℕ → List ℕ
fold_crypt crypt =
    xor_bytes (bytes_at 0 4 crypt) (bytes_at 4 4 crypt)
    ++ xor_bytes (bytes_at 8 4 crypt) (bytes_at 12 4 crypt)

-- What a packet is answered with: nothing where no byte came, nothing, a mismatch of the connection
-- id, a connection id, or what the tracker answers. The first four bytes of an answer name its kind, the
-- next four, kept here, are copied from the packet.
pub data Reply : Type 0 where
  no_packet ignored : Reply
  mismatched : List ℕ → Reply
  connected : List ℕ → List ℕ → Reply
  departed : List ℕ → PeerList → Reply
  announced : List ℕ → ℕ → Answer → Reply
  scraped : List ℕ → List (Option PeerList) → Reply

abbrev pub Handled : Type 0
Handled = Option (Tracker × Reply)

abbrev pub answer : {R : Type 0} → (R → Reply) → Option (Tracker × R) → Handled
answer f none = none
answer f (some (t, r)) = some (t, f r)

abbrev pub Scrapes : Type 0
Scrapes = Option (Tracker × List (Option PeerList))

abbrev pub add_scrape : Option PeerList → Scrapes → Scrapes
add_scrape l none = none
add_scrape l (some (t, ls)) = some (t, l ∷ ls)

abbrev pub next_scrape : (Tracker → Scrapes) → Option (Tracker × Option PeerList) → Scrapes
next_scrape f none = none
next_scrape f (some (t, l)) = add_scrape l (f t)

module _ (encrypt : List ℕ → List ℕ) where
  -- `udp_make_connectionid`: the 8 bytes of the id, and the keys. The code mixes the address and the key of
  -- the given age into `plain`, which it does not read, so the age is no argument here.
  unfoldable pub udp_make_connectionid : ℕ → ℕ → List ℕ → Keys → List ℕ × Keys
  udp_make_connectionid now fresh ip k = (fold_crypt (encrypt ip), renew_keys now fresh k)

-- `envs n` is what the n-th call of the tracker meets outside.
module _ (envs : ℕ → Env) (ip inbuf : List ℕ) (byte_count : ℕ) where
  -- A word of the packet, as `ntohl` gives it.
  abbrev pub word : ℕ → ℕ
  word offset = big_endian (bytes_at offset 4 inbuf) 0

  abbrev pub transaction : List ℕ
  transaction = bytes_at 12 4 inbuf

  unfoldable pub event_flags : ℕ
  event_flags =
      bit_or (if word 80 == 1 then flag_completed else if word 80 == 3 then flag_stopped else 0)
        (if big_endian (bytes_at 64 8 inbuf) 0 == 0 then flag_seeding else 0)

  -- `numwant`
  abbrev pub wanted : ℕ
  wanted = if ltb 200 (word 92) then 200 else word 92

  -- `ws->peer`: the last four bytes of the address, the port and the flags; its time is whatever it was.
  unfoldable pub packet_peer : Peer
  packet_peer = record {
    key = big_endian (bytes_at 12 4 ip) 0 * 2 ^ 16 + big_endian (bytes_at 96 2 inbuf) 0;
    flag = event_flags;
    time = (envs 0).stale_peer.time;
  }

  -- The action "announce".
  unfoldable pub announce_packet : Tracker → Handled
  announce_packet t =
      let hash = big_endian (bytes_at 16 20 inbuf) 0 in
      if ltb byte_count 98
      then some (t, ignored)
      else if has_flag packet_peer.flag flag_stopped
      then answer (departed transaction) (remove_peer_from_torrent (envs 0) packet_peer.key hash t)
      else answer (announced transaction wanted) (add_peer_to_torrent (envs 0) packet_peer hash t)

  -- The loop of the action "scrape".
  unfoldable pub scrape_loop : ℕ → ℕ → Tracker → Scrapes
  scrape_loop zero scrape_count t = none
  scrape_loop (suc fuel) scrape_count t =
      if ltb (scrape_count * 20) (byte_count - 16) && leb scrape_count 74
      then next_scrape (scrape_loop fuel (scrape_count + 1)) (
          scrape_torrent (envs scrape_count)
            (big_endian (bytes_at (16 + 20 * scrape_count) 20 inbuf) 0) t)
      else some (t, [])

  unfoldable pub scrape_packet : Tracker → Handled
  scrape_packet t = answer (scraped transaction) (scrape_loop 76 0 t)

  -- The action "connect".
  unfoldable pub connect_packet : List ℕ → Tracker → Handled
  connect_packet connid t =
      if (word 0 == 0x417) && (word 4 == 0x2710_1980)
      then some (t, connected transaction connid)
      else some (t, ignored)

  -- The `switch` over the action.
  unfoldable pub act : ℕ → List ℕ → Tracker → Handled
  act action connid t =
      if action == 0
      then connect_packet connid t
      else if action == 1
      then announce_packet t
      else scrape_packet t

  module _ (encrypt : List ℕ → List ℕ) (now : ℕ) (fresh : ℕ → ℕ) where
    abbrev pub with_id : ℕ → Tracker → List ℕ × Keys → Handled × Keys
    with_id action t (connid, k) = (act action connid t, k)

    -- The second try, with the key of the previous hour.
    abbrev pub retried : ℕ → Tracker → List ℕ × Keys → Handled × Keys
    retried action t (connid, k) =
        if same_bytes (bytes_at 0 8 inbuf) connid
        then with_id action t (connid, k)
        else (some (t, mismatched transaction), k)

    abbrev pub tried : ℕ → Tracker → List ℕ × Keys → Handled × Keys
    tried action t (connid, k) =
        if ltb 0 action && not (same_bytes (bytes_at 0 8 inbuf) connid)
        then retried action t (udp_make_connectionid encrypt now (fresh 1) ip k)
        else with_id action t (connid, k)

    -- `handle_udp6`
    unfoldable pub handle_udp6 : Keys → Tracker → Handled × Keys
    handle_udp6 k t =
        if byte_count == 0
        then (some (t, no_packet), k)
        else if ltb byte_count 16
        then (some (t, ignored), k)
        else if ltb 2 (word 8)
        then (some (t, ignored), k)
        else tried (word 8) t (udp_make_connectionid encrypt now (fresh 0) ip k)
