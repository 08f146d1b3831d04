-- ===== src/Examples/Fullscrape.antt =====
-- A full scrape of one torrent.
use bt_server.Prelude.{ℕ, ◌*◌, ◌≤◌, ◌≡◌, refl, List, [], ◌∷◌, true, arith, length}
use bt_server.Http.{codes}
use bt_server.Vector.{Vector}
use bt_server.Tracker.{Torrent}
use bt_server.Prelude.Decimal.{zd, digits, big_bytes}
use bt_server.Fullscrape.{
  made, mapped, fullscrape_make, scrape_buckets, scrape_bucket, grow_while_full, put, finish_scrape,
  entry, ascii_entry, to_hex, trackerstate_entry,
}
use bt_server.Http.Stats.{task_fullscrape_trackerstate}
use bt_server.Fullscrape.Vectors.{MadeRight, fullscrape_make-MadeRight}
use bt_server.Fullscrape.Finishing.{Finished, fullscrape_make-finishes}
use bt_server.Examples.Data.{two_peer_list}

abbrev pub a_torrent : Torrent
a_torrent = record { hash = 0x0123456789abcdef0123456789abcdef01234567; peer_list = two_peer_list }

abbrev pub one_bucket : List (Vector Torrent)
one_bucket = record { items = a_torrent ∷ []; space = 1 } ∷ []

-- Instead of `fmt_urlencoded`, a function that writes no character twice.
abbrev pub plain : List ℕ → List ℕ
plain s = s

pub plain_three : (s : List ℕ) → length (plain s) ≤ 3 * length s
plain_three s = omega arith

fullscrape_make-MadeRight_example :
    MadeRight plain
      (λ n. mapped)
      0x200
      (λ b. true)
      0
      one_bucket
      (codes "d5:filesd")
      (fullscrape_make plain (λ n. mapped) 0x200 (λ b. true) one_bucket)
fullscrape_make-MadeRight_example =
    fullscrape_make-MadeRight plain (λ n. mapped) plain_three 0x200 (λ b. true) one_bucket

fullscrape_make-finishes_example :
    Finished plain
      (λ n. mapped)
      0x202
      one_bucket
      (fullscrape_make plain (λ n. mapped) 0x202 (λ b. true) one_bucket)
fullscrape_make-finishes_example =
    fullscrape_make-finishes plain (λ n. mapped) plain_three 0x202 (λ b. true) one_bucket
      (λ n. refl) (λ b. refl)

-- "tpb" in ASCII
ascii_run :
    fullscrape_make plain (λ n. mapped) 0x202 (λ b. true) one_bucket
    ≡ made (codes "0123456789ABCDEF0123456789ABCDEF01234567:1:1\n" ∷ [])
unfolding fullscrape_make scrape_buckets scrape_bucket grow_while_full put finish_scrape entry
    ascii_entry to_hex zd digits big_bytes
ascii_run = refl

-- The pages of the state of the tracker.
pub state_run :
    fullscrape_make plain (λ n. mapped) task_fullscrape_trackerstate (λ b. true) one_bucket
    ≡ made (codes "0123456789ABCDEF0123456789ABCDEF01234567:100:0\n" ∷ [])
unfolding fullscrape_make scrape_buckets scrape_bucket grow_while_full put finish_scrape entry
    trackerstate_entry to_hex zd digits big_bytes
state_run = refl
