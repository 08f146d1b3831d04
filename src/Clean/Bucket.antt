-- ===== src/Clean/Bucket.antt =====
-- `clean_single_bucket` keeps exactly the peers whose age stays below the timeout.
use bt_server.Prelude.{◌+◌, ◌≡◌, refl, List, [], ◌∷◌, arith, if◌then◌else◌}
use bt_server.Prelude.Int.{ℤ}
use bt_server.Peers.{Peer}
use bt_server.Peers.Weight.{sum_over, one, seed}
use bt_server.Clean.{stays, aged, Cleaned, clean_copy, clean_single_bucket}

-- The peers that stay, with their new age, in their order.
unfoldable pub survivors : ℤ → List Peer → List Peer
survivors timedout [] = []
survivors timedout (p ∷ ps) =
    if stays timedout p then aged timedout p ∷ survivors timedout ps else survivors timedout ps

pub record CleanedRight (timedout : ℤ) (ps : List Peer) (c : Cleaned) : Type 0 where
  pub kept_survivors : c.kept ≡ survivors timedout ps
  pub peers_add_up : sum_over one c.kept + c.removed ≡ sum_over one ps
  pub seeders_add_up : sum_over seed c.kept + c.removed_seeders ≡ sum_over seed ps

clean_copy-CleanedRight :
    (timedout : ℤ) (ps : List Peer) → CleanedRight timedout ps (clean_copy timedout ps)
unfolding clean_copy survivors sum_over aged
clean_copy-CleanedRight timedout [] = record {
  kept_survivors = refl;
  peers_add_up = refl;
  seeders_add_up = refl;
}
clean_copy-CleanedRight timedout (p ∷ ps) = ground (arith, clean_copy-CleanedRight timedout ps)

-- The two loops together keep exactly the peers whose age stays below the timeout, in their order and
-- with their new age, and count every removed peer and every removed seeder.
pub clean_single_bucket-CleanedRight :
    (timedout : ℤ) (ps : List Peer) → CleanedRight timedout ps (clean_single_bucket timedout ps)
unfolding clean_single_bucket survivors sum_over aged
clean_single_bucket-CleanedRight timedout [] = record {
  kept_survivors = refl;
  peers_add_up = refl;
  seeders_add_up = refl;
}
clean_single_bucket-CleanedRight timedout (p ∷ ps) =
    ground (
      arith,
      clean_copy-CleanedRight timedout (p ∷ ps),
      clean_single_bucket-CleanedRight timedout ps,
    )
