-- ===== src/Clean/Counters.antt =====
-- The counters of a peer list stay equal to what the list holds when a torrent is cleaned.
use bt_server.Prelude.{
  ℕ, ◌+◌, ◌-◌, ◌≤◌, ◌<◌, ◌≡◌, refl, List, [], ◌∷◌, Bool, true, false, Option, none, some, arith,
  ltb, ◌||◌, ◌==◌, if◌then◌else◌, length, Bool-cases, inl, inr, ap,
}
use bt_server.Prelude.Int.{ℤ, pos, ◌-ℤ◌, ltb_ℤ}
use bt_server.Vector.{Vector}
use bt_server.Vector.Shrink.{fixup_peers_kept}
use bt_server.Peers.{Peer, PeerStore}
use bt_server.Peers.Weight.{sum_over, one, seed, weight, vector_weight}
use bt_server.Peers.Census.{IsShaped}
use bt_server.Peers.Redistribute.{Grants, redistribute}
use bt_server.Peers.Redistribute.Census.{Redistributed, redistribute-Redistributed}
use bt_server.Clean.{
  PeerList, Cleaned, clean_single_bucket, Swept, sweep, shrunk, swept_list, with_store, regrouped,
  finish, clean_single_torrent, size_mod, sub_size, is_zero_ℤ, peer_timeout, torrent_timeout,
  bucket_mincount,
}
use bt_server.Clean.Bucket.{clean_single_bucket-CleanedRight}

-- The counters say what the list holds.
pub record CountsRight (l : PeerList) : Type 0 where
  pub shaped : IsShaped l.peers
  pub peers_right : l.peer_count ≡ weight one l.peers
  pub seeds_right : l.seed_count ≡ weight seed l.peers
  pub small : weight one l.peers < size_mod

seed-le-one : (ps : List Peer) → sum_over seed ps ≤ sum_over one ps
unfolding sum_over
seed-le-one [] = omega arith
seed-le-one (p ∷ ps) = ground (arith, seed-le-one ps)

seeds_le :
    (vs : List (Vector Peer)) → sum_over (vector_weight seed) vs ≤ sum_over (vector_weight one) vs
unfolding sum_over
seeds_le [] = omega arith
seeds_le (v ∷ vs) = omega (arith, seed-le-one v.items, seeds_le vs)

pub seeds_le_peers : (s : PeerStore) → weight seed s ≤ weight one s
seeds_le_peers s = seeds_le s.lists

pub sub_size_lem : (a b : ℕ) → b ≤ a → a < size_mod → sub_size a b ≡ a - b
sub_size_lem a b h k = omega arith

shrunk-kept : (v : Vector Peer) (c : Cleaned) → (shrunk v c).items ≡ c.kept
shrunk-kept v c = ground (arith, fixup_peers_kept (record v { items = c.kept }))

record SweptRight (vs : List (Vector Peer)) (s : Swept) : Type 0 where
  as_many : length s.lists ≡ length vs
  peers_right :
      sum_over (vector_weight one) s.lists + s.peers_gone ≡ sum_over (vector_weight one) vs
  seeders_right :
      sum_over (vector_weight seed) s.lists + s.seeders_gone ≡ sum_over (vector_weight seed) vs

sweep-SweptRight : (timedout : ℤ) (vs : List (Vector Peer)) → SweptRight vs (sweep timedout vs)
unfolding sweep sum_over
sweep-SweptRight timedout [] = record { as_many = refl; peers_right = refl; seeders_right = refl }
sweep-SweptRight timedout (v ∷ vs) =
    let c = clean_single_bucket timedout v.items in
    let r = clean_single_bucket-CleanedRight timedout v.items in
    let rest = sweep-SweptRight timedout vs in
    record {
      as_many = omega (arith, rest.as_many);
      peers_right =
          omega (arith, ap (sum_over one) (shrunk-kept v c), r.peers_add_up, rest.peers_right);
      seeders_right =
          omega (arith, ap (sum_over seed) (shrunk-kept v c), r.seeders_add_up, rest.seeders_right);
    }

swept_list-CountsRight :
    (timedout : ℤ) (l : PeerList) → CountsRight l → CountsRight (swept_list timedout l)
swept_list-CountsRight timedout l v =
    let s = sweep-SweptRight timedout l.peers.lists in
    record {
      shaped = record {
        some_list = omega (arith, s.as_many, v.shaped.some_list);
        single = λ e. omega (arith, s.as_many, v.shaped.single e);
      };
      peers_right = omega (arith, s.peers_right, v.peers_right, v.small);
      seeds_right = omega (arith, s.seeders_right, v.seeds_right, v.small, seeds_le_peers l.peers);
      small = omega (arith, s.peers_right, v.small);
    }

-- The counters of `l'` are right, and it has no more peers than `l`.
abbrev pub Trimmed : PeerList → PeerList → Type 0
Trimmed l l' = CountsRight l' × (weight one l'.peers ≤ weight one l.peers)

swept_list-Trimmed :
    (timedout : ℤ) (l : PeerList) → CountsRight l → Trimmed l (swept_list timedout l)
swept_list-Trimmed timedout l v = (
  swept_list-CountsRight timedout l v,
  omega (arith, (sweep-SweptRight timedout l.peers.lists).peers_right),
)

-- What holds of an optional peer list: it is there, and it satisfies `P`.
abbrev pub Holds : {A : Type 0} → (A → Type 0) → Option A → Type 0
Holds P none = ⊥
Holds P (some a) = P a

with_store-Trimmed :
    (l : PeerList) (o : Option PeerStore)
    → CountsRight l
    → Redistributed l.peers one o
    → Redistributed l.peers seed o
    → Holds (Trimmed l) (with_store l o)
with_store-Trimmed l none v p q = p
with_store-Trimmed l (some t) v p q = (
  record {
    shaped = p.0;
    peers_right = omega (arith, v.peers_right, p.1);
    seeds_right = omega (arith, v.seeds_right, q.1);
    small = omega (arith, v.small, p.1);
  },
  omega (arith, p.1),
)

regrouped-Trimmed : (g : Grants) (l : PeerList) → CountsRight l → Holds (Trimmed l) (regrouped g l)
regrouped-Trimmed g l v =
    elim (Bool-cases (ltb bucket_mincount l.peer_count || l.peers.has_buckets)) [
      | inl e ↦
          rw (e, Holds)
            (with_store-Trimmed l (redistribute g l.peer_count l.peers) v
              (redistribute-Redistributed g l.peer_count l.peers one v.shaped)
              (redistribute-Redistributed g l.peer_count l.peers seed v.shaped))
      | inr e ↦ rw (e, Holds) (v, omega arith)
    ]

-- What `clean_single_torrent` answers, with its list.
abbrev pub Answers : (Bool → PeerList → Type 0) → Option (Bool × PeerList) → Type 0
Answers P none = ⊥
Answers P (some (b, l)) = P b l

finish-Answers :
    (now : ℕ) (l m : PeerList) (o : Option PeerList)
    → weight one m.peers ≤ weight one l.peers
    → Holds (Trimmed m) o
    → Answers (λ b l'. Trimmed l l') (finish now o)
finish-Answers now l m none k h = h
finish-Answers now l m (some l') k (v, h) = (
  record {
    shaped = v.shaped;
    peers_right = v.peers_right;
    seeds_right = v.seeds_right;
    small = v.small;
  },
  omega (arith, h, k),
)

Answers-if :
    (P : Bool → PeerList → Type 0) (b : Bool) (x y : Option (Bool × PeerList))
    → Answers P x
    → Answers P y
    → Answers P (if b then x else y)
Answers-if P true x y p q = p
Answers-if P false x y p q = q

-- Where the counters of a list are right, cleaning it ends with an answer, never makes peers, and
-- keeps the counters equal to what the list holds, whatever its age and whatever memory is refused.
pub clean_single_torrent-Trimmed :
    (g : Grants) (now : ℕ) (l : PeerList)
    → CountsRight l
    → Answers (λ b l'. Trimmed l l') (clean_single_torrent g now l)
unfolding clean_single_torrent
clean_single_torrent-Trimmed g now l v =
    let P : Bool → PeerList → Type 0 = λ b l'. Trimmed l l' in
    let age = pos now -ℤ l.base in
    let same : Trimmed l l = (v, omega arith) in
    let swept = λ (t : ℤ). swept_list-Trimmed t l v in
    let cleaned = λ (t : ℤ).
      finish-Answers now l (swept_list t l) (regrouped g (swept_list t l)) (swept t).1
        (regrouped-Trimmed g (swept_list t l) (swept t).0) in
    Answers-if P (is_zero_ℤ age) _ _ same (
      Answers-if P (ltb_ℤ (pos torrent_timeout) age) _ _ same (
        Answers-if P (ltb_ℤ (pos peer_timeout) age) _ _
          (Answers-if P (l.peer_count == 0) _ _ same (cleaned (pos peer_timeout))) (cleaned age)))
