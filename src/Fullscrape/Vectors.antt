-- ===== src/Fullscrape/Vectors.antt =====
-- The vectors that `fullscrape_make` leaves, against the text of all torrents.
use Prim.Native.Nat.{bit_and}
use bt_server.Prelude.{
  ℕ, suc, ◌+◌, ◌*◌, ◌≤◌, ◌≡◌, sym, ap, ◌∙◌, List, [], ◌∷◌, ◌++◌, Bool, true, false, arith, ◌==◌,
  leb, length, length-append, take, Bool-cases, inl, inr,
}
use bt_server.Prelude.All.{All}
use bt_server.Prelude.Append.{append_assoc, append_nil}
use mathlib.Core.Path.{subst}
use bt_server.Vector.{Vector}
use bt_server.Tracker.{Torrent}
use bt_server.Fullscrape.{
  Output, Written, written, freed, unmapped, overrun, put, Made, made, stopped, no_vectors,
  bad_address, out_of_bounds, Memory, no_entry, map_failed, cut_off, when_written, scrape_footer,
  scrape_header, finish_scrape, scrape_buckets, fullscrape_make, scrape_chunk_size, task_task_mask,
}
use bt_server.Http.Stats.{task_fullscrape}
use bt_server.Fullscrape.Buckets.{
  text_of, bytes_of, Fits, IsReady, bucket_text, buckets_text, WrittenRight,
  scrape_bucket-WrittenRight, Memory-cases,
}

module _ (fmt_urlencoded : List ℕ → List ℕ) where
  module _ (alloc : ℕ → Memory) where
    -- The vectors hold the text of all buckets between header and footer, each no more than it has room
    -- for. At the end of the program they hold the buckets up to that one.
    abbrev pub MadeRight : ℕ → (ℕ → Bool) → ℕ → List (Vector Torrent) → List ℕ → Made → Type 0
    MadeRight task running b buckets before (made vs) =
        (text_of vs ≡ before ++ (buckets_text fmt_urlencoded task buckets ++ scrape_footer task))
        × All Fits vs
    MadeRight task running b buckets before (stopped vs) =
        ((k : ℕ) × (running (b + k) ≡ false)
          × (text_of vs ≡ before ++ buckets_text fmt_urlencoded task (take (suc k) buckets)))
        × All Fits vs
    MadeRight task running b buckets before no_vectors = (n : ℕ) × (alloc n ≡ no_entry)
    MadeRight task running b buckets before bad_address = (n : ℕ) × (alloc n ≡ map_failed)
    MadeRight task running b buckets before out_of_bounds = ⊥

    module _ (three : (s : List ℕ) → length (fmt_urlencoded s) ≤ 3 * length s) where
      scrape_footer_within : (task : ℕ) → length (scrape_footer task) ≤ 2
      scrape_footer_within task = elim (Bool-cases (task == task_fullscrape)) [
        | inl full ↦ rw full (omega arith)
        | inr other ↦ rw other (omega arith)
      ]

      scrape_header_within : (task : ℕ) → length (scrape_header task) ≤ 9
      scrape_header_within task = elim (Bool-cases (task == task_fullscrape)) [
        | inl full ↦ rw full (omega arith)
        | inr other ↦ rw other (omega arith)
      ]

      finish_scrape-MadeRight :
          (task : ℕ) (running : ℕ → Bool) (b : ℕ) (o : Output)
          → IsReady o
          → MadeRight task running b [] (bytes_of o) (finish_scrape task o)
      unfolding finish_scrape put
      finish_scrape-MadeRight task running b o ready =
          let short = scrape_footer_within task in
          let room : leb (length o.current + length (scrape_footer task) + 1) scrape_chunk_size
              ≡ true =
            ground (arith, ready.0, short) in
          rw room (
            sym (append_assoc (text_of o.full) o.current (scrape_footer task)),
            (omega (arith, length-append o.current (scrape_footer task), short, ready.0), ready.1),
          )

      -- A bucket's text stands before that of the buckets behind it.
      one_bucket-MadeRight :
          (task : ℕ) (running : ℕ → Bool) (b : ℕ) (v : Vector Torrent) (vs : List (Vector Torrent))
          (before : List ℕ) (m : Made)
          → MadeRight task running (b + 1) vs (before ++ bucket_text fmt_urlencoded task v.items) m
          → MadeRight task running b (v ∷ vs) before m
      one_bucket-MadeRight task running b v vs before (made ws) h = (
        h.0
            ∙ append_assoc before (bucket_text fmt_urlencoded task v.items) _
            ∙ ap (λ w. before ++ w)
                (sym (
                  append_assoc (bucket_text fmt_urlencoded task v.items)
                    (buckets_text fmt_urlencoded task vs) (scrape_footer task))),
        h.1,
      )
      one_bucket-MadeRight task running b v vs before (stopped ws) ((k, off, e), fits) = (
        (
          suc k,
          subst (λ n. running n ≡ false) (omega arith) off,
          e ∙ append_assoc before (bucket_text fmt_urlencoded task v.items) _,
        ),
        fits,
      )
      one_bucket-MadeRight task running b v vs before no_vectors h = h
      one_bucket-MadeRight task running b v vs before bad_address h = h
      one_bucket-MadeRight task running b v vs before out_of_bounds h = h

      cut_off-MadeRight :
          (task : ℕ) (running : ℕ → Bool) (b : ℕ) (v : Vector Torrent) (vs : List (Vector Torrent))
          (before : List ℕ) (o : Output)
          → running b ≡ false
          → bytes_of o ≡ before ++ bucket_text fmt_urlencoded task v.items
          → IsReady o
          → MadeRight task running b (v ∷ vs) before (cut_off o)
      cut_off-MadeRight task running b v vs before o off e ready = (
        (
          0,
          subst (λ n. running n ≡ false) (omega arith) off,
          e ∙ ap (λ w. before ++ w) (sym (append_nil (bucket_text fmt_urlencoded task v.items))),
        ),
        (omega (arith, ready.0), ready.1),
      )

      when_written-MadeRight :
          (task : ℕ) (running : ℕ → Bool) (b : ℕ) (vs : List (Vector Torrent))
          (before whole : List ℕ) (w : Written) (f : Output → Made)
          → WrittenRight fmt_urlencoded alloc whole w
          → ((o : Output)
              → bytes_of o ≡ whole
              → IsReady o
              → MadeRight task running b vs before (f o))
          → MadeRight task running b vs before (when_written w f)
      when_written-MadeRight task running b vs before whole (written o) f right next =
          next o right.0 right.1
      when_written-MadeRight task running b vs before whole freed f right next = right
      when_written-MadeRight task running b vs before whole unmapped f right next = right
      when_written-MadeRight task running b vs before whole overrun f right next = absurd right

      scrape_buckets-MadeRight :
          (task : ℕ) (running : ℕ → Bool) (b : ℕ) (vs : List (Vector Torrent)) (o : Output)
          → IsReady o
          → MadeRight task running b vs
              (bytes_of o)
              (scrape_buckets fmt_urlencoded alloc task running b vs o)
      unfolding scrape_buckets
      scrape_buckets-MadeRight task running b [] o ready =
          finish_scrape-MadeRight task running b o ready
      scrape_buckets-MadeRight task running b (v ∷ vs) o ready =
          when_written-MadeRight task running b (v ∷ vs) (bytes_of o)
            (bytes_of o ++ bucket_text fmt_urlencoded task v.items) _ _
            (scrape_bucket-WrittenRight fmt_urlencoded alloc three task v.items o ready)
            (λ p e more. elim (Bool-cases (running b)) [
              | inl on ↦ rw on (
                  one_bucket-MadeRight task running b v vs (bytes_of o) _ (
                    subst
                      (λ w.
                        MadeRight task running (b + 1) vs w
                          (scrape_buckets fmt_urlencoded alloc task running (b + 1) vs p))
                      e (scrape_buckets-MadeRight task running (b + 1) vs p more)))
              | inr off ↦ rw off (cut_off-MadeRight task running b v vs (bytes_of o) p off e more)
            ])

      -- Where `fmt_urlencoded` writes at most three characters for one, a full scrape of any mode and any
      -- torrents never writes behind the end of a vector. It ends in one of four ways: with vectors that
      -- hold the text of all torrents between header and footer; where the program ends behind
      -- a bucket, with the text up to that bucket; without vectors, only where a `realloc` of their
      -- entries failed; or, only where an `mmap` failed, with a vector at the address -1, since
      -- MAP_FAILED is not NULL.
      pub fullscrape_make-MadeRight :
          (mode : ℕ) (running : ℕ → Bool) (buckets : List (Vector Torrent))
          → MadeRight
              (bit_and mode task_task_mask)
              running
              0
              buckets
              (scrape_header (bit_and mode task_task_mask))
              (fullscrape_make fmt_urlencoded alloc mode running buckets)
      unfolding fullscrape_make put
      fullscrape_make-MadeRight mode running buckets =
          let task = bit_and mode task_task_mask in
          let short = scrape_header_within task in
          let room : leb (0 + length (scrape_header task) + 1) scrape_chunk_size ≡ true =
            ground (arith, short) in
          elim (Memory-cases (alloc 0)) [
            | inl there ↦
                rw (there, room)
                  (scrape_buckets-MadeRight task running 0 buckets
                    (record { full = []; current = scrape_header task }) (omega (arith, short), tt))
            | inr (inl refused) ↦ rw refused (0, refused)
            | inr (inr fails) ↦ rw fails (0, fails)
          ]
