-- ===== src/SavedState/RoundTrip.antt =====
-- `load_state` on what `fullscrape_make` has written with the mode TASK_FULLSCRAPE_TRACKERSTATE.
use bt_server.Prelude.Partial.{◌>>=◌, >>=-cong}
use bt_server.Prelude.{
  ℕ, zero, suc, ◌+◌, ◌-◌, ◌*◌, ◌^◌, ◌≤◌, ◌<◌, ◌≡◌, refl, sym, ap, ◌∙◌, List, [], ◌∷◌, ◌++◌, map,
  Bool, false, Option, some, arith, length, length-append, get_or, drop,
}
use bt_server.Prelude.All.{All}
use bt_server.Prelude.Append.{append_nil}
use bt_server.Prelude.Int.{pos_part}
use bt_server.Prelude.Decimal.{
  ascii_digit, value_from, is_digit, length-big_bytes, value_from-digits, IsFigure,
}
use mathlib.Core.Path.{subst}
use bt_server.Vector.{Vector}
use bt_server.Tracker.{Torrent, Tracker, Env, add_torrent_from_saved_state}
use bt_server.Fullscrape.{to_hex, hex_digits, info_hash, Memory, made, fullscrape_make}
use bt_server.Http.Stats.{task_fullscrape_trackerstate}
use bt_server.Fullscrape.Vectors.{MadeRight, fullscrape_make-MadeRight}
use bt_server.Fullscrape.Buckets.{text_of}
use bt_server.SavedState.{
  inbuf_size, line_of, in_buffer, scan_hash, scan_counts, restore, load_lines, load_state,
}
use bt_server.SavedState.Lines.{
  line_of-append, big_bytes-IsByte, big_endian-big_bytes, scan_hash-to_hex, scan_counts-numbers,
  buffered_line,
}
use bt_server.SavedState.Texts.{
  Savable, torrents_of, base_digits, down_digits, line_text, as_time_positive,
  trackerstate_entry_line, line_inside, hex_length, line_length, digits-Readable, lines_of,
  buckets_text-lines_of,
}

module _ (envs : ℕ → Env) where
  -- A torrent is entered with its hash, its minute and its downloads, and nothing else.
  abbrev pub restore_torrent : ℕ → Torrent → Tracker → Option Tracker
  restore_torrent n t s = do
    (u, x) ← add_torrent_from_saved_state (envs n) t.hash t.peer_list.base t.peer_list.down_count s
    some u

  abbrev pub restore_all : ℕ → List Torrent → Tracker → Option Tracker
  restore_all n [] s = some s
  restore_all n (t ∷ ts) s = do u ← restore_torrent n t s; restore_all (n + 1) ts u

module _ (scan_fromhex : ℕ → Option ℕ)
    (hex : (v : ℕ) → v < 16 → scan_fromhex (get_or hex_digits v 0) ≡ some v)
    (scan_ulonglong : List ℕ → ℕ × ℕ)
    (decimal : (ds : List ℕ) (c : ℕ) (rest : List ℕ)
      → 0 < length ds
      → All IsFigure ds
      → value_from 0 ds < 2 ^ 64
      → is_digit c ≡ false
      → scan_ulonglong (map ascii_digit ds ++ (c ∷ rest)) ≡ (length ds, value_from 0 ds))
    (envs : ℕ → Env) where
  -- The body of the loop over the lines.
  abbrev with_line : ℕ → ℕ → List ℕ → List ℕ → List ℕ × List ℕ → Tracker → Option Tracker
  with_line fuel n infohash inbuf line s =
      restore envs n (scan_hash scan_fromhex infohash (in_buffer line.0 inbuf))
        (scan_counts scan_ulonglong (in_buffer line.0 inbuf)) s
      >>= λ t.
          load_lines scan_fromhex scan_ulonglong envs fuel (n + 1)
            (scan_hash scan_fromhex infohash (in_buffer line.0 inbuf)) (in_buffer line.0 inbuf)
            line.1 t

  load_lines_step :
      (fuel n : ℕ) (infohash inbuf file : List ℕ) (s : Tracker)
      → 0 < length file
      → load_lines scan_fromhex scan_ulonglong envs (suc fuel) n infohash inbuf file s
        ≡ with_line fuel n infohash inbuf (line_of (inbuf_size - 1) file) s
  unfolding load_lines
  load_lines_step fuel n infohash inbuf [] s h = absurd (omega (arith, h))
  load_lines_step fuel n infohash inbuf (c ∷ file) s h = refl

  -- A line of a torrent restores it.
  with_line-restores :
      (t : Torrent) (fuel n : ℕ) (infohash inbuf rest : List ℕ) (s : Tracker)
      → length infohash ≡ 20
      → Savable t
      → with_line fuel n infohash inbuf (line_text t ++ (10 ∷ []), rest) s ≡ (
          restore_torrent envs n t s >>= λ u.
          load_lines scan_fromhex scan_ulonglong envs fuel
            (n + 1)
            (info_hash t)
            (in_buffer (line_text t ++ (10 ∷ [])) inbuf)
            rest
            u)
  with_line-restores t fuel n infohash inbuf rest s twenty saved =
      let tail = drop (length (line_text t ++ (10 ∷ [])) + 1) inbuf in
      let a = map ascii_digit (base_digits t) in
      let d = map ascii_digit (down_digits t) in
      let form = buffered_line (to_hex (info_hash t)) a d (0 ∷ tail) in
      let counts =
        subst
          (λ w.
            scan_counts scan_ulonglong w
            ≡ some (value_from 0 (base_digits t), value_from 0 (down_digits t)))
          (sym form)
          (scan_counts-numbers scan_ulonglong decimal (to_hex (info_hash t)) (base_digits t)
            (down_digits t) (0 ∷ tail) (hex_length t)
            (digits-Readable (pos_part t.peer_list.base) saved.2)
            (digits-Readable t.peer_list.down_count saved.3)) in
      let hash =
        subst (λ w. scan_hash scan_fromhex infohash w ≡ info_hash t) (sym form)
          (scan_hash-to_hex scan_fromhex hex infohash (info_hash t)
            (58 ∷ (a ++ (58 ∷ (d ++ (10 ∷ 0 ∷ tail)))))
            (omega (arith, twenty, length-big_bytes 20 t.hash)) (big_bytes-IsByte 20 t.hash)) in
      rw
        (
          hash,
          counts,
          value_from-digits 20 (pos_part t.peer_list.base) (omega (arith, saved.2)),
          value_from-digits 20 t.peer_list.down_count (omega (arith, saved.3)),
          big_endian-big_bytes 20 t.hash saved.0,
          as_time_positive t.peer_list.base saved.1 saved.2,
        )
        refl

  load_lines-lines_of :
      (ts : List Torrent) (fuel n : ℕ) (infohash inbuf : List ℕ) (s : Tracker)
      → length infohash ≡ 20
      → All Savable ts
      → length (lines_of ts) < fuel
      → load_lines scan_fromhex scan_ulonglong envs fuel n infohash inbuf (lines_of ts) s
        ≡ restore_all envs n ts s
  unfolding load_lines
  load_lines-lines_of ts zero n infohash inbuf s twenty saved enough =
      absurd (omega (arith, enough))
  load_lines-lines_of [] (suc fuel) n infohash inbuf s twenty saved enough = refl
  load_lines-lines_of (t ∷ ts) (suc fuel) n infohash inbuf s twenty saved enough =
      let rest = lines_of ts in
      let e = trackerstate_entry_line t rest saved.0 in
      let size : length (lines_of (t ∷ ts)) ≡ length (line_text t) + suc (length rest) =
        ap (λ w. length w) e ∙ length-append (line_text t) (10 ∷ rest) in
      ap (λ w. load_lines scan_fromhex scan_ulonglong envs (suc fuel) n infohash inbuf w s) e
      ∙ load_lines_step fuel n infohash inbuf (line_text t ++ (10 ∷ rest)) s
          (omega (arith, length-append (line_text t) (10 ∷ rest)))
      ∙ ap (λ l. with_line fuel n infohash inbuf l s)
          (line_of-append 511 (line_text t) rest (line_length t).0 (line_inside t))
      ∙ with_line-restores t fuel n infohash inbuf rest s twenty saved.0
      ∙ >>=-cong (restore_torrent envs n t s) _ _ (λ u.
        load_lines-lines_of ts fuel (n + 1) (info_hash t) _ u (length-big_bytes 20 t.hash) saved.1
          (omega (arith, size, enough, (line_length t).1)))

  -- A full scrape for the state of the tracker that came to its end, of torrents whose numbers have 63
  -- bits, loads as it was saved: every torrent of every bucket is entered again, in order, with its
  -- hash, its minute and its downloads.
  pub load_state-fullscrape_make :
      (fmt_urlencoded : List ℕ → List ℕ)
      → ((s : List ℕ) → length (fmt_urlencoded s) ≤ 3 * length s)
      → (alloc : ℕ → Memory) (running : ℕ → Bool) (buckets : List (Vector Torrent))
        (vs : List (List ℕ))
      → fullscrape_make fmt_urlencoded alloc task_fullscrape_trackerstate running buckets ≡ made vs
      → All Savable (torrents_of buckets)
      → (infohash inbuf : List ℕ) (s : Tracker) → length infohash ≡ 20
      → load_state scan_fromhex scan_ulonglong envs infohash inbuf (text_of vs) s
        ≡ restore_all envs 0 (torrents_of buckets) s
  unfolding load_state
  load_state-fullscrape_make fmt_urlencoded three alloc running buckets vs whole saved infohash
        inbuf s twenty =
      let right =
        subst
          (λ m. MadeRight fmt_urlencoded alloc task_fullscrape_trackerstate running 0 buckets [] m)
          whole
          (fullscrape_make-MadeRight fmt_urlencoded alloc three task_fullscrape_trackerstate running
            buckets) in
      let text : text_of vs ≡ lines_of (torrents_of buckets) =
        right.0 ∙ append_nil _ ∙ buckets_text-lines_of fmt_urlencoded buckets in
      ap (λ w. load_state scan_fromhex scan_ulonglong envs infohash inbuf w s) text
      ∙ load_lines-lines_of (torrents_of buckets) (suc (length (lines_of (torrents_of buckets)))) 0
          infohash inbuf s twenty saved (omega arith)
