-- ===== src/Fullscrape/Finishing.antt =====
-- A full scrape comes to its end where memory is there and the program runs.
use bt_server.Prelude.{ℕ, ◌+◌, ◌*◌, ◌≤◌, ◌≡◌, refl, List, ◌++◌, Bool, true, false, length}
use Prim.Native.Nat.{bit_and}
use bt_server.Vector.{Vector}
use bt_server.Tracker.{Torrent}
use bt_server.Fullscrape.{
  Made, made, stopped, no_vectors, bad_address, out_of_bounds, Memory, mapped, no_entry, map_failed,
  scrape_header, scrape_footer, fullscrape_make, task_task_mask,
}
use bt_server.Fullscrape.Vectors.{MadeRight, fullscrape_make-MadeRight}
use bt_server.Fullscrape.Buckets.{buckets_text, text_of}

not_both : (b : Bool) → b ≡ true → b ≡ false → ⊥
not_both true yes_true no_false = cc
not_both false yes_true no_false = cc

not_refused : (m : Memory) → m ≡ mapped → m ≡ no_entry → ⊥
not_refused m h k = cc

not_failed : (m : Memory) → m ≡ mapped → m ≡ map_failed → ⊥
not_failed m h k = cc

module _ (fmt_urlencoded : List ℕ → List ℕ) (alloc : ℕ → Memory) where
  -- The whole text, in vectors that are handed over.
  abbrev pub Finished : ℕ → List (Vector Torrent) → Made → Type 0
  Finished task buckets m =
      (vs : List (List ℕ)) × (m ≡ made vs)
      × (text_of vs
          ≡ scrape_header task ++ (buckets_text fmt_urlencoded task buckets ++ scrape_footer task))

  finished :
      (task : ℕ) (running : ℕ → Bool) (buckets : List (Vector Torrent)) (m : Made)
      → ((n : ℕ) → alloc n ≡ mapped)
      → ((b : ℕ) → running b ≡ true)
      → MadeRight fmt_urlencoded alloc task running 0 buckets (scrape_header task) m
      → Finished task buckets m
  finished task running buckets (made vs) granted runs right = (vs, refl, right.0)
  finished task running buckets (stopped vs) granted runs ((k, off, e), fits) =
      absurd (not_both (running (0 + k)) (runs (0 + k)) off)
  finished task running buckets no_vectors granted runs (n, refused) =
      absurd (not_refused (alloc n) (granted n) refused)
  finished task running buckets bad_address granted runs (n, fails) =
      absurd (not_failed (alloc n) (granted n) fails)
  finished task running buckets out_of_bounds granted runs right = absurd right

  -- Where every request for memory is granted and the program goes on running, a full scrape of any
  -- mode and any torrents comes to its end and hands over vectors with the whole text.
  pub fullscrape_make-finishes :
      ((s : List ℕ) → length (fmt_urlencoded s) ≤ 3 * length s)
      → (mode : ℕ) (running : ℕ → Bool) (buckets : List (Vector Torrent))
      → ((n : ℕ) → alloc n ≡ mapped)
      → ((b : ℕ) → running b ≡ true)
      → Finished
          (bit_and mode task_task_mask)
          buckets
          (fullscrape_make fmt_urlencoded alloc mode running buckets)
  fullscrape_make-finishes three mode running buckets granted runs =
      finished (bit_and mode task_task_mask) running buckets _ granted runs
        (fullscrape_make-MadeRight fmt_urlencoded alloc three mode running buckets)
