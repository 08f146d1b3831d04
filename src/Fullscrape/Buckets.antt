-- ===== src/Fullscrape/Buckets.antt =====
-- What `fullscrape_make` writes of a bucket of torrents, and that every entry has room.

use bt_server.Prelude.{
  ℕ, ◌+◌, ◌-◌, ◌*◌, ◌≤◌, ◌<◌, ◌≡◌, refl, ◌⊎◌, sym, ◌∙◌, List, [], ◌∷◌, ◌++◌, true, arith, leb,
  length, length-append, Bool-cases, inl, inr,
}
use bt_server.Prelude.All.{All}
use bt_server.Prelude.Append.{append_assoc, append_nil}
use mathlib.Core.Path.{subst}
use bt_server.Vector.{Vector}
use bt_server.Tracker.{Torrent}
use bt_server.Fullscrape.{
  entry, Output, Written, written, freed, unmapped, overrun, and_then, put, fullscrape_increase,
  Memory, mapped, no_entry, map_failed, grow_while_full, scrape_bucket, scrape_chunk_size,
  scrape_max_entry_len,
}
use bt_server.Fullscrape.Entries.{entry_within}

pub Memory-cases : (m : Memory) → (m ≡ mapped) ⊎ ((m ≡ no_entry) ⊎ (m ≡ map_failed))
Memory-cases mapped = inl refl
Memory-cases no_entry = inr (inl refl)
Memory-cases map_failed = inr (inr refl)

-- What stands in vectors of which the last is given first.
abbrev pub text_of : List (List ℕ) → List ℕ
text_of [] = []
text_of (v ∷ vs) = text_of vs ++ v

abbrev pub bytes_of : Output → List ℕ
bytes_of o = text_of (o.current ∷ o.full)

abbrev pub Fits : List ℕ → Type 0
Fits v = length v ≤ scrape_chunk_size

-- What holds between two entries: there is room for one more.
abbrev pub IsReady : Output → Type 0
IsReady o = (length o.current < scrape_chunk_size - scrape_max_entry_len) × All Fits o.full

module _ (fmt_urlencoded : List ℕ → List ℕ) where
  abbrev pub bucket_text : ℕ → List Torrent → List ℕ
  bucket_text task [] = []
  bucket_text task (t ∷ ts) = entry fmt_urlencoded task t ++ bucket_text task ts

  abbrev pub buckets_text : ℕ → List (Vector Torrent) → List ℕ
  buckets_text task [] = []
  buckets_text task (v ∷ vs) = bucket_text task v.items ++ buckets_text task vs

  module _ (alloc : ℕ → Memory) where
    -- Writing comes to this text, or a `realloc` or an `mmap` failed.
    abbrev pub WrittenRight : List ℕ → Written → Type 0
    WrittenRight whole (written o) = (bytes_of o ≡ whole) × IsReady o
    WrittenRight whole freed = (n : ℕ) × (alloc n ≡ no_entry)
    WrittenRight whole unmapped = (n : ℕ) × (alloc n ≡ map_failed)
    WrittenRight whole overrun = ⊥

    module _ (three : (s : List ℕ) → length (fmt_urlencoded s) ≤ 3 * length s) where
      grow_while_full-WrittenRight :
          (o : Output) (s : List ℕ)
          → length s ≤ 255
          → IsReady o
          → WrittenRight
              (bytes_of o ++ s)
              (grow_while_full alloc 2 (record o { current = o.current ++ s }))
      unfolding grow_while_full fullscrape_increase
      grow_while_full-WrittenRight o s short ready =
          elim (Bool-cases
            (leb (scrape_chunk_size - scrape_max_entry_len) (length (o.current ++ s)))) [
              | inl end ↦ elim (Memory-cases (alloc (length o.full + 1))) [
                | inl there ↦
                    rw (end, there)
                      (
                        append_nil _ ∙ sym (append_assoc (text_of o.full) o.current s),
                        (
                          omega arith,
                          (omega (arith, length-append o.current s, short, ready.0), ready.1),
                        ),
                      )
                | inr (inl refused) ↦ rw (end, refused) (length o.full + 1, refused)
                | inr (inr fails) ↦ rw (end, fails) (length o.full + 1, fails)
              ]
              | inr room ↦
                  rw room (
                    sym (append_assoc (text_of o.full) o.current s),
                    (ground (arith, room), ready.1),
                  )
            ]

      next_put-WrittenRight :
          (task : ℕ) (t : Torrent) (o : Output)
          → IsReady o
          → WrittenRight
              (bytes_of o ++ entry fmt_urlencoded task t)
              (and_then (put (entry fmt_urlencoded task t) o) (grow_while_full alloc 2))
      unfolding put
      next_put-WrittenRight task t o ready =
          let short = entry_within fmt_urlencoded three task t in
          let room : leb (length o.current + length (entry fmt_urlencoded task t) + 1)
                scrape_chunk_size
              ≡ true =
            ground (arith, ready.0, short) in
          rw room (grow_while_full-WrittenRight o (entry fmt_urlencoded task t) short ready)

      and_then-WrittenRight :
          (before s : List ℕ) (w : Written) (f : Output → Written)
          → WrittenRight before w
          → ((o : Output) → IsReady o → WrittenRight (bytes_of o ++ s) (f o))
          → WrittenRight (before ++ s) (and_then w f)
      and_then-WrittenRight before s (written o) f right next =
          subst (λ w. WrittenRight (w ++ s) (f o)) right.0 (next o right.1)
      and_then-WrittenRight before s freed f right next = right
      and_then-WrittenRight before s unmapped f right next = right
      and_then-WrittenRight before s overrun f right next = right

      pub scrape_bucket-WrittenRight :
          (task : ℕ) (ts : List Torrent) (o : Output)
          → IsReady o
          → WrittenRight
              (bytes_of o ++ bucket_text task ts)
              (scrape_bucket fmt_urlencoded alloc task ts o)
      unfolding scrape_bucket
      scrape_bucket-WrittenRight task [] o ready = (sym (append_nil (bytes_of o)), ready)
      scrape_bucket-WrittenRight task (t ∷ ts) o ready =
          subst (λ w. WrittenRight w (scrape_bucket fmt_urlencoded alloc task (t ∷ ts) o))
            (append_assoc (bytes_of o) (entry fmt_urlencoded task t) (bucket_text task ts))
            (and_then-WrittenRight (bytes_of o ++ entry fmt_urlencoded task t) (bucket_text task ts)
              _ _ (next_put-WrittenRight task t o ready) (scrape_bucket-WrittenRight task ts))
