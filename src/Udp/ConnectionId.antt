-- ===== src/Udp/ConnectionId.antt =====
-- The connection ids of src/ot_udp.c: which packets are let through to the tracker.
use bt_server.Prelude.{
  ℕ, ◌≤◌, ◌<◌, ◌≡◌, refl, List, true, false, some, arith, ltb, ◌==◌, inl, inr, Bool-cases,
  if◌then◌else◌,
}
use bt_server.Tracker.{Tracker, Env}
use bt_server.Udp.{
  Keys, mismatched, connected, word, transaction, act, handle_udp6, udp_make_connectionid,
  fold_crypt, same_bytes, bytes_at, connect_packet,
}

module _ (encrypt : List ℕ → List ℕ) (ip : List ℕ) where
  -- The id of an address.
  abbrev pub id_of : List ℕ
  id_of = fold_crypt (encrypt ip)

  module _ (envs : ℕ → Env) (inbuf : List ℕ) (byte_count : ℕ) (now : ℕ) (fresh : ℕ → ℕ)
      (k : Keys) where
    id_matches :
        (t : Tracker)
        → 16 ≤ byte_count
        → 0 < word envs ip inbuf byte_count 8
        → word envs ip inbuf byte_count 8 ≤ 2
        → same_bytes (bytes_at 0 8 inbuf) id_of ≡ true
        → (handle_udp6 envs ip inbuf byte_count encrypt now fresh k t).0
          ≡ act envs ip inbuf byte_count (word envs ip inbuf byte_count 8) id_of t
    unfolding handle_udp6 udp_make_connectionid
    id_matches t long acts few same =
        let has_bytes : (byte_count == 0) ≡ false = ground (arith, long) in
        let not_short : ltb byte_count 16 ≡ false = ground (arith, long) in
        let known : ltb 2 (word envs ip inbuf byte_count 8) ≡ false = ground (arith, few) in
        rw (has_bytes, not_short, known, same) (ground (arith, acts))

    id_differs :
        (t : Tracker)
        → 16 ≤ byte_count
        → 0 < word envs ip inbuf byte_count 8
        → word envs ip inbuf byte_count 8 ≤ 2
        → same_bytes (bytes_at 0 8 inbuf) id_of ≡ false
        → (handle_udp6 envs ip inbuf byte_count encrypt now fresh k t).0
          ≡ some (t, mismatched (transaction envs ip inbuf byte_count))
    unfolding handle_udp6 udp_make_connectionid
    id_differs t long acts few other =
        let has_bytes : (byte_count == 0) ≡ false = ground (arith, long) in
        let not_short : ltb byte_count 16 ≡ false = ground (arith, long) in
        let known : ltb 2 (word envs ip inbuf byte_count 8) ≡ false = ground (arith, few) in
        let is_request : ltb 0 (word envs ip inbuf byte_count 8) ≡ true = ground (arith, acts) in
        rw (has_bytes, not_short, known, is_request, other) refl

    connects :
        (t : Tracker)
        → 16 ≤ byte_count
        → word envs ip inbuf byte_count 8 ≡ 0
        → word envs ip inbuf byte_count 0 ≡ 0x417
        → word envs ip inbuf byte_count 4 ≡ 0x2710_1980
        → (handle_udp6 envs ip inbuf byte_count encrypt now fresh k t).0
          ≡ some (t, connected (transaction envs ip inbuf byte_count) id_of)
    unfolding handle_udp6 udp_make_connectionid act connect_packet
    connects t long action magic_0 magic_1 =
        let has_bytes : (byte_count == 0) ≡ false = ground (arith, long) in
        let not_short : ltb byte_count 16 ≡ false = ground (arith, long) in
        rw (has_bytes, not_short, action, magic_0, magic_1) refl

  -- Whatever the keys, the hours and the random numbers are, a connect of an address is answered with
  -- an id such that a later announce or scrape of this address, at any time, is let through to the
  -- tracker if it begins with this id, and else is answered with a mismatch and changes nothing: the
  -- hours do not end an id.
  pub connectionid_lifetime :
      (envs envs_later : ℕ → Env) (hello inbuf : List ℕ) (hello_count byte_count now later : ℕ)
      (fresh fresh_later : ℕ → ℕ) (k k_later : Keys) (t u : Tracker)
      → 16 ≤ hello_count
      → word envs ip hello hello_count 8 ≡ 0
      → word envs ip hello hello_count 0 ≡ 0x417
      → word envs ip hello hello_count 4 ≡ 0x2710_1980
      → 16 ≤ byte_count
      → 0 < word envs_later ip inbuf byte_count 8
      → word envs_later ip inbuf byte_count 8 ≤ 2
      → (connid : List ℕ) × ((handle_udp6 envs ip hello hello_count encrypt now fresh k t).0
          ≡ some (t, connected (transaction envs ip hello hello_count) connid))
        × ((handle_udp6 envs_later ip inbuf byte_count encrypt later fresh_later k_later u).0 ≡ (
            if same_bytes (bytes_at 0 8 inbuf) connid
            then act envs_later ip inbuf byte_count (word envs_later ip inbuf byte_count 8) connid u
            else some (u, mismatched (transaction envs_later ip inbuf byte_count))))
  connectionid_lifetime envs envs_later hello inbuf hello_count byte_count now later fresh
        fresh_later k k_later t u long action magic_0 magic_1 long_later acts few =
      (id_of, connects envs hello hello_count now fresh k t long action magic_0 magic_1, by_id)
    where
      by_id : (handle_udp6 envs_later ip inbuf byte_count encrypt later fresh_later k_later u).0 ≡ (
          if same_bytes (bytes_at 0 8 inbuf) id_of
          then act envs_later ip inbuf byte_count (word envs_later ip inbuf byte_count 8) id_of u
          else some (u, mismatched (transaction envs_later ip inbuf byte_count)))
      by_id = elim (Bool-cases (same_bytes (bytes_at 0 8 inbuf) id_of)) [
        | inl same ↦ rw same (
            id_matches envs_later inbuf byte_count later fresh_later k_later u long_later acts few
              same)
        | inr other ↦ rw other (
            id_differs envs_later inbuf byte_count later fresh_later k_later u long_later acts few
              other)
      ]
