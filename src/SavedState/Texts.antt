-- ===== src/SavedState/Texts.antt =====
-- The lines that `fullscrape_make` writes with the mode TASK_FULLSCRAPE_TRACKERSTATE.
use bt_server.Prelude.{
  ℕ, ◌^◌, ◌≤◌, ◌<◌, ◌≡◌, refl, sym, ap, ◌∙◌, List, [], ◌∷◌, ◌++◌, map, arith, length, length-append,
  length-map,
}
use bt_server.Prelude.All.{All}
use bt_server.Prelude.Append.{append_assoc}
use bt_server.Prelude.Int.{ℤ, pos, negsuc, pos_part, neg_part}
use bt_server.Prelude.Decimal.{
  digits, ascii_digit, zd_small, value_from, length-big_bytes, value_from-digits, IsFigure,
  digits-IsFigure, digits_nonempty, length-digits,
}
use bt_server.Vector.{Vector}
use bt_server.Tracker.{Torrent}
use bt_server.Fullscrape.{to_hex, info_hash, as_size, trackerstate_entry, entry}
use bt_server.Http.Stats.{task_fullscrape_trackerstate}
use bt_server.Fullscrape.Entries.{length-to_hex}
use bt_server.Fullscrape.Buckets.{bucket_text, buckets_text}
use bt_server.SavedState.{as_time}
use bt_server.SavedState.Lines.{IsInLine, All-append, to_hex_inside, ascii_inside, joined_line}

-- What a line can hold of a torrent: the numbers are those that `%zd` prints without a sign.
abbrev pub Savable : Torrent → Type 0
Savable t =
    (t.hash < 256 ^ 20)
    × (neg_part t.peer_list.base ≡ 0)
    × (pos_part t.peer_list.base < 2 ^ 63)
    × (t.peer_list.down_count < 2 ^ 63)

abbrev pub torrents_of : List (Vector Torrent) → List Torrent
torrents_of [] = []
torrents_of (v ∷ vs) = v.items ++ torrents_of vs

abbrev pub base_digits : Torrent → List ℕ
base_digits t = digits 20 (pos_part t.peer_list.base)

abbrev pub down_digits : Torrent → List ℕ
down_digits t = digits 20 t.peer_list.down_count

-- A line without its end.
abbrev pub line_text : Torrent → List ℕ
line_text t =
    to_hex (info_hash t)
    ++ (58 ∷ (map ascii_digit (base_digits t) ++ (58 ∷ map ascii_digit (down_digits t))))

as_size_positive : (b : ℤ) → neg_part b ≡ 0 → as_size b ≡ pos_part b
as_size_positive (pos n) h = refl
as_size_positive (negsuc n) h = absurd (omega (arith, h))

pub as_time_positive : (b : ℤ) → neg_part b ≡ 0 → pos_part b < 2 ^ 63 → as_time (pos_part b) ≡ b
as_time_positive (pos n) h small = ground (arith, small)
as_time_positive (negsuc n) h small = absurd (omega (arith, h))

pub trackerstate_entry_line :
    (t : Torrent) (rest : List ℕ)
    → Savable t
    → trackerstate_entry t ++ rest ≡ line_text t ++ (10 ∷ rest)
unfolding trackerstate_entry
trackerstate_entry_line t rest saved =
    rw
      (
        as_size_positive t.peer_list.base saved.1,
        zd_small (pos_part t.peer_list.base) saved.2,
        zd_small t.peer_list.down_count saved.3,
      )
      (joined_line (to_hex (info_hash t)) (map ascii_digit (base_digits t))
        (map ascii_digit (down_digits t)) rest)

pub line_inside : (t : Torrent) → All IsInLine (line_text t)
line_inside t = All-append IsInLine (to_hex (info_hash t)) _ (to_hex_inside (info_hash t)) (
  refl,
  All-append IsInLine (map ascii_digit (base_digits t)) _ (ascii_inside (base_digits t))
      (refl, ascii_inside (down_digits t)),
)

pub hex_length : (t : Torrent) → length (to_hex (info_hash t)) ≡ 40
hex_length t = omega (arith, length-to_hex (info_hash t), length-big_bytes 20 t.hash)

pub line_length : (t : Torrent) → (length (line_text t) < 511) × (40 ≤ length (line_text t))
line_length t =
    let tail = 58 ∷ map ascii_digit (down_digits t) in
    let base = map ascii_digit (base_digits t) in
    omega (
      arith,
      length-append (to_hex (info_hash t)) (58 ∷ (base ++ tail)),
      hex_length t,
      length-append base tail,
      length-map (base_digits t) ascii_digit,
      length-map (down_digits t) ascii_digit,
      length-digits 20 (pos_part t.peer_list.base),
      length-digits 20 t.peer_list.down_count,
    )

abbrev pub Readable : List ℕ → Type 0
Readable ds = (0 < length ds) × All IsFigure ds × (value_from 0 ds < 2 ^ 64)

pub digits-Readable : (n : ℕ) → n < 2 ^ 63 → Readable (digits 20 n)
digits-Readable n small = (
  digits_nonempty 19 n,
  digits-IsFigure 20 n,
  omega (arith, value_from-digits 20 n (omega (arith, small)), small),
)

-- The text of torrents in the mode TASK_FULLSCRAPE_TRACKERSTATE.
abbrev pub lines_of : List Torrent → List ℕ
lines_of [] = []
lines_of (t ∷ ts) = trackerstate_entry t ++ lines_of ts

lines_of-append : (ts us : List Torrent) → lines_of (ts ++ us) ≡ lines_of ts ++ lines_of us
lines_of-append [] us = refl
lines_of-append (t ∷ ts) us =
    ap (λ w. trackerstate_entry t ++ w) (lines_of-append ts us)
    ∙ sym (append_assoc (trackerstate_entry t) (lines_of ts) (lines_of us))

module _ (fmt_urlencoded : List ℕ → List ℕ) where
  bucket_text-lines_of :
      (ts : List Torrent) → bucket_text fmt_urlencoded task_fullscrape_trackerstate ts ≡ lines_of ts
  unfolding entry
  bucket_text-lines_of [] = refl
  bucket_text-lines_of (t ∷ ts) = ap (λ w. trackerstate_entry t ++ w) (bucket_text-lines_of ts)

  pub buckets_text-lines_of :
      (vs : List (Vector Torrent))
      → buckets_text fmt_urlencoded task_fullscrape_trackerstate vs ≡ lines_of (torrents_of vs)
  buckets_text-lines_of [] = refl
  buckets_text-lines_of (v ∷ vs) =
      rw (bucket_text-lines_of v.items, buckets_text-lines_of vs)
        (sym (lines_of-append v.items (torrents_of vs)))
