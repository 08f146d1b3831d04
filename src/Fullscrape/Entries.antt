-- ===== src/Fullscrape/Entries.antt =====
-- The length of what `fullscrape_make` writes for a torrent.
use bt_server.Prelude.{
  ℕ, ◌+◌, ◌*◌, ◌≤◌, ◌≡◌, List, [], ◌∷◌, ◌++◌, Bool, true, false, arith, length, length-append, ◌==◌,
  if◌then◌else◌,
}
use bt_server.Prelude.Decimal.{length-zd, big_bytes, length-big_bytes}
use bt_server.Tracker.{Torrent}
use bt_server.Fullscrape.{
  to_hex, info_hash, fullscrape_entry, ascii_entry, ascii_plus_entry, binary_entry,
  urlencoded_entry, trackerstate_entry, entry,
}

pub length-to_hex : (s : List ℕ) → length (to_hex s) ≡ 2 * length s
unfolding to_hex
length-to_hex [] = omega arith
length-to_hex (b ∷ bs) = omega (arith, length-to_hex bs)

pub bytes_append : (xs ys : List ℕ) → length (xs ++ ys) ≡ length xs + length ys
bytes_append xs ys = length-append xs ys

ruleset lengths = (arith, bytes_append, length-zd, length-big_bytes, length-to_hex)

fullscrape_entry_within : (t : Torrent) → length (fullscrape_entry t) ≤ 255
unfolding fullscrape_entry big_bytes
fullscrape_entry_within t = omega lengths

ascii_entry_within : (t : Torrent) → length (ascii_entry t) ≤ 255
unfolding ascii_entry
ascii_entry_within t = omega lengths

ascii_plus_entry_within : (t : Torrent) → length (ascii_plus_entry t) ≤ 255
unfolding ascii_plus_entry
ascii_plus_entry_within t = omega lengths

binary_entry_within : (t : Torrent) → length (binary_entry t) ≤ 255
unfolding binary_entry
binary_entry_within t = omega lengths

trackerstate_entry_within : (t : Torrent) → length (trackerstate_entry t) ≤ 255
unfolding trackerstate_entry
trackerstate_entry_within t = omega lengths

if_within :
    (n : ℕ) (xs ys : List ℕ) (b : Bool)
    → length xs ≤ n
    → length ys ≤ n
    → length (if b then xs else ys) ≤ n
if_within n xs ys true h k = h
if_within n xs ys false h k = k

module _ (fmt_urlencoded : List ℕ → List ℕ)
    (three : (s : List ℕ) → length (fmt_urlencoded s) ≤ 3 * length s) where
  urlencoded_entry_within : (t : Torrent) → length (urlencoded_entry fmt_urlencoded t) ≤ 255
  unfolding urlencoded_entry
  urlencoded_entry_within t = omega (lengths, three (info_hash t))

  pub entry_within : (task : ℕ) (t : Torrent) → length (entry fmt_urlencoded task t) ≤ 255
  unfolding entry
  entry_within task t = if_within 255 _ _ (task == 0x202) (ascii_entry_within t) (
      if_within 255 _ _ (task == 0x203) (ascii_plus_entry_within t) (
        if_within 255 _ _ (task == 0x201) (binary_entry_within t) (
          if_within 255 _ _ (task == 0x204) (urlencoded_entry_within t) (
            if_within 255 _ _ (task == 0x205) (trackerstate_entry_within t)
              (fullscrape_entry_within t)))))
