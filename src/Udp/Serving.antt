-- ===== src/Udp/Serving.antt =====
-- The packets of src/ot_udp.c, from the socket to the tracker.

use bt_server.Prelude.{
  ℕ, zero, suc, ◌+◌, ◌-◌, ◌*◌, ◌≤◌, ◌<◌, ◌≡◌, List, true, false, not, ◌&&◌, ◌==◌, Option, none,
  some, arith, inl, inr, ltb, leb, Bool-cases, length,
}
use bt_server.Peers.{has_flag, flag_stopped}
use bt_server.Clean.{PeerList, size_mod}
use bt_server.Tracker.{Tracker, Env}
use bt_server.Tracker.Invariant.{
  TrackerRight, Roomy, Serves, Steps, total, add_peer_to_torrent-Serves,
  remove_peer_from_torrent-Serves, scrape_torrent-Steps,
}
use bt_server.Http.Handlers.{big_endian}
use bt_server.Udp.{
  Keys, Reply, departed, announced, scraped, Handled, answer, Scrapes, add_scrape, next_scrape,
  word, transaction, wanted, event_flags, packet_peer, announce_packet, scrape_loop, scrape_packet,
  connect_packet, act, retried, tried, handle_udp6, same_bytes, bytes_at,
}

-- At most 75 torrents are scraped at once.
abbrev pub Fits : Reply → Type 0
Fits (scraped w ls) = length ls ≤ 75
Fits (announced w n a) = n ≤ 200
Fits r = Unit

-- A packet was served, and what it leaves is right.
abbrev pub Answered : Handled → Type 0
Answered none = ⊥
Answered (some (t, r)) = TrackerRight t × Fits r

answer-Answered :
    {R : Type 0} (f : R → Reply) (o : Option (Tracker × R))
    → ((r : R) → Fits (f r))
    → Serves o
    → Answered (answer f o)
answer-Answered f none fits h = h
answer-Answered f (some (t, r)) fits h = (h, fits r)

abbrev pub ScrapesRight : ℕ → Scrapes → Type 0
ScrapesRight n none = ⊥
ScrapesRight n (some (t, ls)) = TrackerRight t × (length ls ≤ n)

add_scrape-ScrapesRight :
    (n : ℕ) (l : Option PeerList) (o : Scrapes)
    → ScrapesRight n o
    → ScrapesRight (suc n) (add_scrape l o)
add_scrape-ScrapesRight n l none h = h
add_scrape-ScrapesRight n l (some (t, ls)) h = (h.0, omega (arith, h.1))

next_scrape-ScrapesRight :
    (n : ℕ) (f : Tracker → Scrapes) (t : Tracker) (o : Option (Tracker × Option PeerList))
    → ((u : Tracker) → TrackerRight u → total u ≤ total t + 1 → ScrapesRight n (f u))
    → Steps t o
    → ScrapesRight (suc n) (next_scrape f o)
next_scrape-ScrapesRight n f t none later h = h
next_scrape-ScrapesRight n f t (some (u, l)) later h =
    add_scrape-ScrapesRight n l (f u) (later u h.0 h.1)

scraped-Answered : (w : List ℕ) (o : Scrapes) → ScrapesRight 75 o → Answered (answer (scraped w) o)
scraped-Answered w none h = h
scraped-Answered w (some (t, ls)) h = h

module _ (envs : ℕ → Env) (ip inbuf : List ℕ) (byte_count : ℕ) where
  -- `scrape_count` and what is left of the fuel end at 76.
  scrape_loop-ScrapesRight :
      (n count : ℕ) (t : Tracker)
      → n + count ≡ 75
      → TrackerRight t
      → total t + n < size_mod
      → ScrapesRight n (scrape_loop envs ip inbuf byte_count (suc n) count t)
  unfolding scrape_loop
  scrape_loop-ScrapesRight zero count t sum right room =
      let stops : leb count 74 ≡ false = ground (arith, sum) in
      elim (Bool-cases (ltb (count * 20) (byte_count - 16))) [
        | inl more ↦ rw (more, stops, ScrapesRight) (right, omega arith)
        | inr enough ↦ rw (enough, ScrapesRight) (right, omega arith)
      ]
  scrape_loop-ScrapesRight (suc n) count t sum right room =
      let goes : leb count 74 ≡ true = ground (arith, sum) in
      elim (Bool-cases (ltb (count * 20) (byte_count - 16))) [
        | inl more ↦
            rw (more, goes, ScrapesRight)
              (next_scrape-ScrapesRight n (scrape_loop envs ip inbuf byte_count (suc n) (count + 1))
                t _
                (λ u r le.
                  scrape_loop-ScrapesRight n (count + 1) u (omega (arith, sum)) r
                    (omega (arith, room, le)))
                (scrape_torrent-Steps t right (envs count)
                  (big_endian (bytes_at (16 + 20 * count) 20 inbuf) 0) (omega (arith, room))))
        | inr enough ↦ rw (enough, ScrapesRight) (right, omega arith)
      ]

  event_flags-byte : event_flags envs ip inbuf byte_count < 256
  unfolding event_flags
  event_flags-byte = ground arith

  wanted-le : wanted envs ip inbuf byte_count ≤ 200
  wanted-le = ground arith

  packet_flag-byte : (packet_peer envs ip inbuf byte_count).flag < 256
  unfolding packet_peer
  packet_flag-byte = event_flags-byte

  abbrev transaction_bytes : List ℕ
  transaction_bytes = transaction envs ip inbuf byte_count

  module _ (t : Tracker) (right : TrackerRight t) (room : Roomy t) where
    announce_packet-Answered : Answered (announce_packet envs ip inbuf byte_count t)
    unfolding announce_packet
    announce_packet-Answered =
        let p = packet_peer envs ip inbuf byte_count in
        let hash = big_endian (bytes_at 16 20 inbuf) 0 in
        elim (Bool-cases (ltb byte_count 98)) [
          | inl short ↦ rw (short, Answered) (right, tt)
          | inr whole ↦ elim (Bool-cases (has_flag p.flag flag_stopped)) [
            | inl stops ↦
                rw (whole, stops, Answered)
                  (answer-Answered (departed transaction_bytes) _ (λ r. tt)
                    (remove_peer_from_torrent-Serves t right (envs 0) p.key hash room.torrent))
            | inr stays ↦
                rw (whole, stays, Answered)
                  (answer-Answered (announced transaction_bytes (wanted envs ip inbuf byte_count)) _
                    (λ r. wanted-le)
                    (add_peer_to_torrent-Serves t right (envs 0) p hash packet_flag-byte room))
          ]
        ]

    connect_packet-Answered :
        (connid : List ℕ) → Answered (connect_packet envs ip inbuf byte_count connid t)
    unfolding connect_packet
    connect_packet-Answered connid = ground (arith, right)

    act-Answered :
        (action : ℕ) (connid : List ℕ)
        → total t + 75 < size_mod
        → Answered (act envs ip inbuf byte_count action connid t)
    unfolding act scrape_packet
    act-Answered action connid many = elim (Bool-cases (action == 0)) [
      | inl connects ↦ rw (connects, Answered) (connect_packet-Answered connid)
      | inr further ↦ elim (Bool-cases (action == 1)) [
        | inl announces ↦ rw (further, announces, Answered) announce_packet-Answered
        | inr scrapes ↦
            rw (further, scrapes, Answered)
              (scraped-Answered transaction_bytes _
                (scrape_loop-ScrapesRight 75 0 t (omega arith) right many))
      ]
    ]

    module _ (encrypt : List ℕ → List ℕ) (now : ℕ) (fresh : ℕ → ℕ)
        (many : total t + 75 < size_mod) where
      retried-Answered :
          (action : ℕ) (m : List ℕ × Keys)
          → Answered (retried envs ip inbuf byte_count encrypt now fresh action t m).0
      retried-Answered action (connid, k) =
          elim (Bool-cases (same_bytes (bytes_at 0 8 inbuf) connid)) [
            | inl same ↦ rw (same, Answered) (act-Answered action connid many)
            | inr other ↦ rw (other, Answered) (right, tt)
          ]

      tried-Answered :
          (action : ℕ) (m : List ℕ × Keys)
          → Answered (tried envs ip inbuf byte_count encrypt now fresh action t m).0
      tried-Answered action (connid, k) =
          elim (Bool-cases (ltb 0 action && not (same_bytes (bytes_at 0 8 inbuf) connid))) [
            | inl other ↦ rw (other, Answered) (retried-Answered action _)
            | inr same ↦ rw (same, Answered) (act-Answered action connid many)
          ]

      -- In a right tracker with room in its counters, every packet over UDP is served, whatever it
      -- holds, and whatever the keys are: the loop over the torrents of a scrape ends after at most 75
      -- of them, an announce wants at most 200 peers, and the tracker stays right.
      pub handle_udp6-Answered :
          (k : Keys) → Answered (handle_udp6 envs ip inbuf byte_count encrypt now fresh k t).0
      unfolding handle_udp6
      handle_udp6-Answered k = elim (Bool-cases (byte_count == 0)) [
        | inl empty ↦ rw (empty, Answered) (right, tt)
        | inr some_bytes ↦ elim (Bool-cases (ltb byte_count 16)) [
          | inl short ↦ rw (some_bytes, short, Answered) (right, tt)
          | inr long ↦ elim (Bool-cases (ltb 2 (word envs ip inbuf byte_count 8))) [
            | inl strange ↦ rw (some_bytes, long, strange, Answered) (right, tt)
            | inr known ↦ rw (some_bytes, long, known, Answered) (tried-Answered _ _)
          ]
        ]
      ]
