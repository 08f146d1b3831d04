-- ===== src/Peers/Redistribute/Census.antt =====
-- No peer is lost or made up when the buckets change.
use bt_server.Prelude.{
  ℕ, zero, suc, ◌+◌, ◌<◌, ◌≡◌, refl, List, [], ◌∷◌, ◌++◌, map, Bool, true, false, not, ◌&&◌, Option,
  none, some, arith, ◌==◌, if◌then◌else◌, length, get_elem?, ap, length-map, length-set, ◌∙◌,
  replicate, length-replicate,
}
use bt_server.Vector.{Vector}
use bt_server.Peers.{Peer, PeerStore, hash_peer}
use bt_server.Peers.Weight.{sum_over, sum_over-set, vector_weight, weight}
use bt_server.Peers.Census.{IsShaped, get_elem?-total}
use bt_server.Peers.Redistribute.{
  Grants, num_buckets_new, all_granted, Moved, moved, refused, bad_write, append_peer, dest,
  put_moved, then_move, move_peer, move_peers, move_lists, insert_by_key, qsort, sort_vector,
  num_buckets_old, link, empty_buckets, redistribute,
}

dest-lt : (n : ℕ) (p : Peer) → 0 < n → dest n p < n
unfolding hash_peer
dest-lt n p h = ground arith

sum_over-append :
    (w : Peer → ℕ) (xs : List Peer) (p : Peer) → sum_over w (xs ++ (p ∷ [])) ≡ sum_over w xs + w p
unfolding sum_over
sum_over-append w [] p = omega arith
sum_over-append w (x ∷ xs) p = omega (arith, sum_over-append w xs p)

-- A move that is not refused writes inside the new buckets and adds the weight `extra`.
abbrev pub MovedCensus : List (Vector Peer) → (Peer → ℕ) → ℕ → Moved → Type 0
MovedCensus lists w extra (moved l) =
    (length l ≡ length lists)
    × (sum_over (vector_weight w) l ≡ sum_over (vector_weight w) lists + extra)
MovedCensus lists w extra refused = Unit
MovedCensus lists w extra bad_write = ⊥

-- The appended peer stands at the end, where memory was granted or not needed.
abbrev Appended : Peer → Vector Peer → Option (Vector Peer) → Type 0
Appended p v none = Unit
Appended p v (some u) = u.items ≡ v.items ++ (p ∷ [])

append_peer-Appended :
    (granted : Bool) (p : Peer) (v : Vector Peer) → Appended p v (append_peer granted p v)
unfolding append_peer
append_peer-Appended granted p v = ground arith

module _ (w : Peer → ℕ) where
  put_moved-MovedCensus :
      (lists : List (Vector Peer)) (b : ℕ) (p : Peer) (v : Vector Peer) (o : Option (Vector Peer))
      → get_elem? lists b ≡ some v
      → Appended p v o
      → MovedCensus lists w (w p) (put_moved lists b o)
  put_moved-MovedCensus lists b p v none e h = tt
  put_moved-MovedCensus lists b p v (some u) e h = (
    length-set lists b u,
    ground (
      arith,
      sum_over-set (vector_weight w) lists b v u e,
      ap (sum_over w) h,
      sum_over-append w v.items p,
    ),
  )

  module _ (n : ℕ) (n_pos : 0 < n) where
    move_peer-put :
        (granted : Bool) (lists : List (Vector Peer)) (p : Peer) (v : Vector Peer)
        → get_elem? lists (dest n p) ≡ some v
        → move_peer n granted lists p ≡ put_moved lists (dest n p) (append_peer granted p v)
    unfolding move_peer
    move_peer-put granted lists p v e = ground arith

    move_peer-MovedCensus :
        (granted : Bool) (lists : List (Vector Peer)) (p : Peer)
        → length lists ≡ n
        → MovedCensus lists w (w p) (move_peer n granted lists p)
    move_peer-MovedCensus granted lists p h =
        let (v, e) = get_elem?-total lists (dest n p) (omega (arith, dest-lt n p n_pos)) in
        rw (move_peer-put granted lists p v e) (
          put_moved-MovedCensus lists (dest n p) p v (append_peer granted p v) e
            (append_peer-Appended granted p v))

    MovedCensus-trans :
        (lists l : List (Vector Peer)) (a b : ℕ) (m : Moved)
        → MovedCensus lists w a (moved l)
        → MovedCensus l w b m
        → MovedCensus lists w (a + b) m
    MovedCensus-trans lists l a b (moved k) h q = omega arith
    MovedCensus-trans lists l a b refused h q = tt
    MovedCensus-trans lists l a b bad_write h q = q

    then_move-MovedCensus :
        (lists : List (Vector Peer)) (a b : ℕ) (m : Moved) (k : List (Vector Peer) → Moved)
        → MovedCensus lists w a m
        → ((l : List (Vector Peer)) → length l ≡ length lists → MovedCensus l w b (k l))
        → MovedCensus lists w (a + b) (then_move m k)
    then_move-MovedCensus lists a b (moved l) k h q =
        MovedCensus-trans lists l a b (k l) h (q l h.0)
    then_move-MovedCensus lists a b refused k h q = tt
    then_move-MovedCensus lists a b bad_write k h q = h

    move_peers-MovedCensus :
        (grow : ℕ → Bool) (count : ℕ) (ps : List Peer) (lists : List (Vector Peer))
        → length lists ≡ n
        → MovedCensus lists w (sum_over w ps) (move_peers n grow lists count ps)
    unfolding move_peers sum_over
    move_peers-MovedCensus grow count [] lists h = omega arith
    move_peers-MovedCensus grow count (p ∷ ps) lists h =
        then_move-MovedCensus lists (w p) (sum_over w ps) (move_peer n (grow count) lists p)
          (λ l. move_peers n grow l (count + 1) ps) (move_peer-MovedCensus (grow count) lists p h)
          (λ l e. move_peers-MovedCensus grow (count + 1) ps l (e ∙ h))

    move_lists-MovedCensus :
        (grow : ℕ → Bool) (count : ℕ) (vs : List (Vector Peer)) (lists : List (Vector Peer))
        → length lists ≡ n
        → MovedCensus lists w (sum_over (vector_weight w) vs) (move_lists n grow lists count vs)
    unfolding move_lists sum_over
    move_lists-MovedCensus grow count [] lists h = omega arith
    move_lists-MovedCensus grow count (v ∷ vs) lists h =
        then_move-MovedCensus lists (vector_weight w v) (sum_over (vector_weight w) vs)
          (move_peers n grow lists count v.items)
          (λ l. move_lists n grow l (count + length v.items) vs)
          (move_peers-MovedCensus grow count v.items lists h)
          (λ l e. move_lists-MovedCensus grow (count + length v.items) vs l (e ∙ h))

  insert_by_key-sum :
      (p : Peer) (qs : List Peer) → sum_over w (insert_by_key p qs) ≡ w p + sum_over w qs
  unfolding insert_by_key sum_over
  insert_by_key-sum p [] = refl
  insert_by_key-sum p (q ∷ qs) = ground (arith, insert_by_key-sum p qs)

  qsort-sum : (ps : List Peer) → sum_over w (qsort ps) ≡ sum_over w ps
  unfolding qsort sum_over
  qsort-sum [] = refl
  qsort-sum (p ∷ ps) = omega (arith, insert_by_key-sum p (qsort ps), qsort-sum ps)

  sort_all-sum :
      (vs : List (Vector Peer))
      → sum_over (vector_weight w) (map sort_vector vs) ≡ sum_over (vector_weight w) vs
  unfolding sum_over
  sort_all-sum [] = refl
  sort_all-sum (v ∷ vs) = omega (arith, qsort-sum v.items, sort_all-sum vs)

  empty_buckets-sum :
      (n : ℕ) (v : Vector Peer) → v.items ≡ [] → sum_over (vector_weight w) (replicate n v) ≡ 0
  unfolding sum_over
  empty_buckets-sum zero v e = refl
  empty_buckets-sum (suc n) v e = omega (arith, ap (sum_over w) e, empty_buckets-sum n v e)

num_buckets_new-pos : (count old : ℕ) → 0 < old → 0 < num_buckets_new count old
unfolding num_buckets_new
num_buckets_new-pos count old h = ground arith

num_buckets_old-pos : (s : PeerStore) → IsShaped s → 0 < num_buckets_old s
num_buckets_old-pos s h = ground (arith, h.some_list)

-- The census of the store after a redistribution: the same under the weight `w`, in as many lists as
-- the number of buckets says.
abbrev pub Redistributed : PeerStore → (Peer → ℕ) → Option PeerStore → Type 0
Redistributed s w none = ⊥
Redistributed s w (some t) = IsShaped t × (weight w t ≡ weight w s)

link-Redistributed :
    (n : ℕ) (s : PeerStore) (w : Peer → ℕ) (lists : List (Vector Peer)) (m : Moved)
    → IsShaped s
    → 0 < n
    → length lists ≡ n
    → sum_over (vector_weight w) lists ≡ 0
    → MovedCensus lists w (weight w s) m
    → Redistributed s w (link n s m)
link-Redistributed n s w lists (moved l) sh h len z c = (
  record {
    some_list = omega (arith, length-map l sort_vector);
    single = λ e. ground (arith, length-map l sort_vector);
  },
  omega (arith, sort_all-sum w l),
)
link-Redistributed n s w lists refused sh h len z c = (sh, refl)
link-Redistributed n s w lists bad_write sh h len z c = c

Redistributed-if :
    (s : PeerStore) (w : Peer → ℕ) (b : Bool) (x y : Option PeerStore)
    → Redistributed s w x
    → Redistributed s w y
    → Redistributed s w (if b then x else y)
Redistributed-if s w true x y p q = p
Redistributed-if s w false x y p q = q

-- From a store of a proper shape the redistribution never writes outside the new buckets, and
-- whatever memory is refused it keeps every peer, as often, under every weight.
pub redistribute-Redistributed :
    (g : Grants) (count : ℕ) (s : PeerStore) (w : Peer → ℕ)
    → IsShaped s
    → Redistributed s w (redistribute g count s)
unfolding redistribute
redistribute-Redistributed g count s w h =
    let n = num_buckets_new count (num_buckets_old s) in
    let pos = num_buckets_new-pos count (num_buckets_old s) (num_buckets_old-pos s h) in
    let fresh = empty_buckets n count in
    let all = move_lists-MovedCensus w n pos g.grow 0 s.lists fresh (length-replicate n _) in
    let last =
      link-Redistributed n s w fresh (move_lists n g.grow fresh 0 s.lists) h pos
        (length-replicate n _) (empty_buckets-sum w n _ refl) all in
    Redistributed-if s w (n == num_buckets_old s) _ _ (h, refl)
      (Redistributed-if s w (not (g.new_list && all_granted n g.bucket)) _ _ (h, refl) last)
