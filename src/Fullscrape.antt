-- ===== src/Fullscrape.antt =====
-- src/ot_fullscrape.c: the texts of all torrents, written to vectors of memory. Built without
-- WANT_COMPRESSION_GZIP. A vector is the bytes that were written to it, so that the pointer `r` is their
-- number, and a write that leaves the vector is `overrun`. How each request for memory ends, by the
-- number of the vectors there are, is an argument, as is `fmt_urlencoded` of libowfat.

pub mod Entries
pub mod Buckets
pub mod Vectors
pub mod Finishing
use Prim.Native.Nat.{bit_and}
use bt_server.Prelude.{
  ℕ, zero, suc, ◌+◌, ◌-◌, ◌*◌, ◌/◌, ◌%◌, ◌^◌, List, [], ◌∷◌, ◌++◌, Bool, true, false, ltb, leb,
  ◌==◌, if◌then◌else◌, length, get_or,
}
use bt_server.Prelude.Int.{ℤ, pos, negsuc}
use bt_server.Prelude.Decimal.{zd, big_bytes}
use bt_server.Vector.{Vector}
use bt_server.Clean.{sub_size}
use bt_server.Http.Stats.{task_fullscrape, task_fullscrape_trackerstate}
use bt_server.Tracker.{Torrent}

-- OT_SCRAPE_CHUNK_SIZE
abbrev pub scrape_chunk_size : ℕ
scrape_chunk_size = 512 * 1024

-- OT_SCRAPE_MAXENTRYLEN
abbrev pub scrape_max_entry_len : ℕ
scrape_max_entry_len = 256

-- The characters of a string.
abbrev pub hex_digits : List ℕ
hex_digits = 48 ∷ 49 ∷ 50 ∷ 51 ∷ 52 ∷ 53 ∷ 54 ∷ 55 ∷ 56 ∷ 57 ∷ 65 ∷ 66 ∷ 67 ∷ 68 ∷ 69 ∷ 70 ∷ []

unfoldable pub to_hex : List ℕ → List ℕ
to_hex [] = []
to_hex (b ∷ bs) = get_or hex_digits (b / 16) 0 ∷ get_or hex_digits (b % 16) 0 ∷ to_hex bs

-- The modes, of `ot_tasktype`.
abbrev pub task_task_mask : ℕ
task_task_mask = 0x0fff

-- A `time_t` as the number of its 64 bits.
abbrev pub as_size : ℤ → ℕ
as_size (pos n) = n
as_size (negsuc n) = 2 ^ 64 - 1 - n

-- "d8:completei"
abbrev pub complete_word : List ℕ
complete_word = 100 ∷ 56 ∷ 58 ∷ 99 ∷ 111 ∷ 109 ∷ 112 ∷ 108 ∷ 101 ∷ 116 ∷ 101 ∷ 105 ∷ []

-- "e10:downloadedi"
abbrev pub downloaded_word : List ℕ
downloaded_word =
    101 ∷ 49 ∷ 48 ∷ 58 ∷ 100 ∷ 111 ∷ 119 ∷ 110 ∷ 108 ∷ 111 ∷ 97 ∷ 100 ∷ 101 ∷ 100 ∷ 105 ∷ []

-- "e10:incompletei"
abbrev pub incomplete_word : List ℕ
incomplete_word =
    101 ∷ 49 ∷ 48 ∷ 58 ∷ 105 ∷ 110 ∷ 99 ∷ 111 ∷ 109 ∷ 112 ∷ 108 ∷ 101 ∷ 116 ∷ 101 ∷ 105 ∷ []

-- "d5:filesd"
abbrev pub files_word : List ℕ
files_word = 100 ∷ 53 ∷ 58 ∷ 102 ∷ 105 ∷ 108 ∷ 101 ∷ 115 ∷ 100 ∷ []

abbrev pub info_hash : Torrent → List ℕ
info_hash t = big_bytes 20 t.hash

-- `peer_list->peer_count-peer_list->seed_count`
abbrev pub leecher_count : Torrent → ℕ
leecher_count t = sub_size t.peer_list.peer_count t.peer_list.seed_count

abbrev pub colon : List ℕ → List ℕ
colon s = 58 ∷ s

-- `htonl( (uint32_t) n )`
abbrev pub net32 : ℕ → List ℕ
net32 n = big_bytes 4 (n % 2 ^ 32)

abbrev pub newline : List ℕ
newline = 10 ∷ []

unfoldable pub fullscrape_entry : Torrent → List ℕ
fullscrape_entry t =
    (50 ∷ 48 ∷ 58 ∷ info_hash t)
    ++ (complete_word
        ++ (zd t.peer_list.seed_count
            ++ (downloaded_word
                ++ (zd t.peer_list.down_count
                    ++ (incomplete_word ++ (zd (leecher_count t) ++ (101 ∷ 101 ∷ [])))))))

unfoldable pub ascii_entry : Torrent → List ℕ
ascii_entry t =
    to_hex (info_hash t)
    ++ colon (zd t.peer_list.seed_count ++ colon (zd (leecher_count t) ++ newline))

unfoldable pub ascii_plus_entry : Torrent → List ℕ
ascii_plus_entry t =
    to_hex (info_hash t)
    ++ colon (
        zd t.peer_list.seed_count
        ++ colon (zd (leecher_count t) ++ colon (zd t.peer_list.down_count ++ newline)))

unfoldable pub binary_entry : Torrent → List ℕ
binary_entry t = info_hash t ++ (net32 t.peer_list.seed_count ++ net32 (leecher_count t))

unfoldable pub trackerstate_entry : Torrent → List ℕ
trackerstate_entry t =
    to_hex (info_hash t)
    ++ colon (zd (as_size t.peer_list.base) ++ colon (zd t.peer_list.down_count ++ newline))

-- The full vectors, the last first, and the bytes of the vector that is being written.
pub record Output : Type 0 where
  pub full : List (List ℕ)
  pub current : List ℕ

-- How `iovec_increase` ends: with a new vector; with NULL, where `realloc` has no room for its entry; or
-- where `mmap` fails with a vector at MAP_FAILED, which is not NULL.
pub data Memory : Type 0 where
  mapped no_entry map_failed : Memory

-- `freed`: there is no entry, and the vectors are given back. `unmapped`: the writing goes on at the
-- address MAP_FAILED, -1.
pub data Written : Type 0 where
  written : Output → Written
  freed unmapped overrun : Written

abbrev pub and_then : Written → (Output → Written) → Written
and_then (written o) f = f o
and_then freed f = freed
and_then unmapped f = unmapped
and_then overrun f = overrun

-- Bytes with the 0 that `sprintf` puts behind them.
unfoldable pub put : List ℕ → Output → Written
put s o =
    if leb (length o.current + length s + 1) scrape_chunk_size
    then written (record o { current = o.current ++ s })
    else overrun

-- What `fullscrape_make` leaves: the vectors, no vectors, or those at the end of the program, whose
-- last one is not cut to its bytes. `bad_address`: it has gone on to write at the address -1.
pub data Made : Type 0 where
  made : List (List ℕ) → Made
  stopped : List (List ℕ) → Made
  no_vectors bad_address out_of_bounds : Made

abbrev pub cut_off : Output → Made
cut_off o = stopped (o.current ∷ o.full)

abbrev pub when_written : Written → (Output → Made) → Made
when_written (written o) f = f o
when_written freed f = no_vectors
when_written unmapped f = bad_address
when_written overrun f = out_of_bounds

abbrev pub scrape_footer : ℕ → List ℕ
scrape_footer task = if task == task_fullscrape then 101 ∷ 101 ∷ [] else []

abbrev pub scrape_header : ℕ → List ℕ
scrape_header task = if task == task_fullscrape then files_word else []

module _ (fmt_urlencoded : List ℕ → List ℕ) where
  unfoldable pub urlencoded_entry : Torrent → List ℕ
  urlencoded_entry t =
      fmt_urlencoded (info_hash t)
      ++ colon (zd t.peer_list.seed_count ++ colon (zd (leecher_count t) ++ newline))

  -- The `switch` over the mode, whose default is the first case.
  unfoldable pub entry : ℕ → Torrent → List ℕ
  entry task t =
      if task == 0x202
      then ascii_entry t
      else if task == 0x203
      then ascii_plus_entry t
      else if task == 0x201
      then binary_entry t
      else if task == 0x204
      then urlencoded_entry t
      else if task == task_fullscrape_trackerstate
      then trackerstate_entry t
      else fullscrape_entry t

-- `iovec_fixlast` cuts the last vector to its bytes.
unfoldable pub finish_scrape : ℕ → Output → Made
finish_scrape task o = when_written (put (scrape_footer task) o) (λ p. made (p.current ∷ p.full))

abbrev pub grown : Memory → Output → Written
grown mapped o = written (record { full = o.current ∷ o.full; current = [] })
grown no_entry o = freed
grown map_failed o = unmapped

-- What the first vector leads to.
abbrev pub opened : Memory → Made → Made
opened mapped m = m
opened no_entry m = no_vectors
opened map_failed m = bad_address

module _ (alloc : ℕ → Memory) where
  -- `fullscrape_increase`
  unfoldable pub fullscrape_increase : Output → Written
  fullscrape_increase o = grown (alloc (length o.full + 1)) o

  -- The loop while less than an entry is left. The fuel is that for its test after one round.
  unfoldable pub grow_while_full : ℕ → Output → Written
  grow_while_full zero o = overrun
  grow_while_full (suc fuel) o =
      if leb (scrape_chunk_size - scrape_max_entry_len) (length o.current)
      then and_then (fullscrape_increase o) (grow_while_full fuel)
      else written o

module _ (fmt_urlencoded : List ℕ → List ℕ) (alloc : ℕ → Memory) where
  unfoldable pub scrape_bucket : ℕ → List Torrent → Output → Written
  scrape_bucket task [] o = written o
  scrape_bucket task (t ∷ ts) o =
      and_then (and_then (put (entry fmt_urlencoded task t) o) (grow_while_full alloc 2))
        (scrape_bucket task ts)

  -- The loop over the buckets, the number of the first one given; `running b` is
  -- `g_opentracker_running` after the bucket `b`.
  unfoldable pub scrape_buckets : ℕ → (ℕ → Bool) → ℕ → List (Vector Torrent) → Output → Made
  scrape_buckets task running b [] o = finish_scrape task o
  scrape_buckets task running b (v ∷ vs) o =
      when_written (scrape_bucket task v.items o)
        (λ p. if running b then scrape_buckets task running (b + 1) vs p else cut_off p)

  unfoldable pub fullscrape_make : ℕ → (ℕ → Bool) → List (Vector Torrent) → Made
  fullscrape_make mode running buckets =
      let task = bit_and mode task_task_mask in
      opened (alloc 0) (
        when_written (put (scrape_header task) (record { full = []; current = [] }))
          (scrape_buckets task running 0 buckets))
