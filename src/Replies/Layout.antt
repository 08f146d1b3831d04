-- ===== src/Replies/Layout.antt =====
-- One run over peers fills as many free cells exactly, without a gap or an overlap.
use bt_server.Prelude.Append.{append_assoc}
use bt_server.Prelude.{
  ℕ, suc, ◌+◌, ◌≤◌, ◌≡◌, refl, sym, ap, ◌∙◌, List, [], ◌∷◌, ◌++◌, true, false, Option, none, some,
  arith, length, set, length-append, Bool-cases, inl, inr, if◌then◌else◌,
}
use mathlib.Core.Path.{subst}
use bt_server.Peers.{Peer, is_seeding}
use bt_server.Replies.{Reply, put_peer, put_peers}

-- The compared bytes of the peers that are not seeding, in their order.
unfoldable pub leechers : List Peer → List ℕ
leechers [] = []
leechers (p ∷ ps) = let rest = leechers ps in if is_seeding p then rest else p.key ∷ rest

-- Those of the seeding peers, the last one first.
unfoldable pub seeders_backwards : List Peer → List ℕ
seeders_backwards [] = []
seeders_backwards (p ∷ ps) =
    let rest = seeders_backwards ps in if is_seeding p then rest ++ (p.key ∷ []) else rest

append_one : (a : List ℕ) (x : ℕ) (b : List ℕ) → (a ++ (x ∷ [])) ++ b ≡ a ++ (x ∷ b)
append_one [] x b = refl
append_one (y ∷ a) x b = ap (λ r. y ∷ r) (append_one a x b)

set-append : (a : List ℕ) (x y : ℕ) (b : List ℕ) → set (a ++ (x ∷ b)) (length a) y ≡ a ++ (y ∷ b)
set-append [] x y b = refl
set-append (z ∷ a) x y b = ap (λ r. z ∷ r) (set-append a x y b)

-- The last member of a list apart.
last_apart :
    (x : ℕ) (m : List ℕ)
    → (front : List ℕ) × (y : ℕ) × (x ∷ m ≡ front ++ (y ∷ [])) × (length front ≡ length m)
last_apart x [] = ([], x, refl, refl)
last_apart x (z ∷ m) =
    let (front, y, e, n) = last_apart z m in (x ∷ front, y, ap (λ r. x ∷ r) e, ap suc n)

put_peer-leecher :
    (p : Peer) (r : Reply)
    → is_seeding p ≡ false
    → r.front + 1 ≤ length r.cells
    → put_peer p r ≡ some (record r { cells = set r.cells r.front p.key; front = r.front + 1 })
unfolding put_peer
put_peer-leecher p r s h = ground arith

put_peer-seeder :
    (p : Peer) (r : Reply) (i : ℕ)
    → is_seeding p ≡ true
    → r.back ≡ suc i
    → r.back ≤ length r.cells
    → put_peer p r ≡ some (record r { cells = set r.cells i p.key; back = i })
unfolding put_peer
put_peer-seeder p r i s e h = ground arith

-- A reply whose free cells are `m`, between what is written in front and behind.
pub record Free (a m b : List ℕ) (r : Reply) : Type 0 where
  pub cells_are : r.cells ≡ a ++ (m ++ b)
  pub front_is : r.front ≡ length a
  pub back_is : r.back ≡ length a + length m

-- What the peers leave of exactly as many free cells.
abbrev pub Lays : List ℕ → List ℕ → List Peer → Option Reply → Type 0
Lays a b ps none = ⊥
Lays a b ps (some r) = r.cells ≡ a ++ (leechers ps ++ (seeders_backwards ps ++ b))

put_peers-cons :
    (p : Peer) (ps : List Peer) (r q : Reply)
    → put_peer p r ≡ some q
    → put_peers (p ∷ ps) r ≡ put_peers ps q
unfolding put_peers
put_peers-cons p ps r q e = ground arith

leecher-Lays :
    (a b : List ℕ) (p : Peer) (ps : List Peer) (o : Option Reply)
    → is_seeding p ≡ false
    → Lays (a ++ (p.key ∷ [])) b ps o
    → Lays a b (p ∷ ps) o
unfolding leechers seeders_backwards
leecher-Lays a b p ps none s h = h
leecher-Lays a b p ps (some r) s h =
    rw s (h ∙ append_one a p.key (leechers ps ++ (seeders_backwards ps ++ b)))

seeder-Lays :
    (a b : List ℕ) (p : Peer) (ps : List Peer) (o : Option Reply)
    → is_seeding p ≡ true
    → Lays a (p.key ∷ b) ps o
    → Lays a b (p ∷ ps) o
unfolding leechers seeders_backwards
seeder-Lays a b p ps none s h = h
seeder-Lays a b p ps (some r) s h =
    rw s (h ∙ ap (λ t. a ++ (leechers ps ++ t)) (sym (append_one (seeders_backwards ps) p.key b)))

-- A write into the first free cell.
front-Free :
    (a m b : List ℕ) (x key : ℕ) (r : Reply)
    → Free a (x ∷ m) b r
    → Free (a ++ (key ∷ [])) m b (record r { cells = set r.cells r.front key; front = r.front + 1 })
front-Free a m b x key r f = record {
  cells_are =
      rw (f.cells_are, f.front_is) (set-append a x key (m ++ b) ∙ sym (append_one a key (m ++ b)));
  front_is = omega (arith, f.front_is, length-append a (key ∷ []));
  back_is = omega (arith, f.back_is, length-append a (key ∷ []));
}

-- A write into the last free cell.
back-Free :
    (a front b : List ℕ) (y key : ℕ) (r : Reply)
    → Free a (front ++ (y ∷ [])) b r
    → Free a front (key ∷ b) (record r {
      cells = set r.cells (length a + length front) key;
      back = length a + length front;
    })
back-Free a front b y key r f = record {
  cells_are =
      rw
        (
          f.cells_are,
          append_one front y b,
          sym (append_assoc a front (y ∷ b)),
          sym (length-append a front),
        )
        (set-append (a ++ front) y key b ∙ append_assoc a front (key ∷ b));
  front_is = f.front_is;
  back_is = refl;
}

Free-room : (a m b : List ℕ) (r : Reply) → Free a m b r → length a + length m ≤ length r.cells
Free-room a m b r f = rw f.cells_are (omega (arith, length-append a (m ++ b), length-append m b))

pub put_peers-Lays :
    (ps : List Peer) (a m b : List ℕ) (r : Reply)
    → length m ≡ length ps
    → Free a m b r
    → Lays a b ps (put_peers ps r)
unfolding put_peers leechers seeders_backwards
put_peers-Lays [] a [] b r n f = f.cells_are
put_peers-Lays [] a (x ∷ m) b r n f = absurd (omega arith)
put_peers-Lays (p ∷ ps) a [] b r n f = absurd (omega arith)
put_peers-Lays (p ∷ ps) a (x ∷ m) b r n f = elim (Bool-cases (is_seeding p)) [
  | inl s ↦
      let (front, y, e, k) = last_apart x m in
      let f' = subst (λ l. Free a l b r) e f in
      let q : Reply = record r {
        cells = set r.cells (length a + length front) p.key;
        back = length a + length front;
      } in
      let step =
        put_peer-seeder p r (length a + length front) s (omega (arith, f.back_is, k))
          (omega (arith, f.back_is, Free-room a (x ∷ m) b r f)) in
      rw (put_peers-cons p ps r q step) (
        seeder-Lays a b p ps (put_peers ps q) s (
          put_peers-Lays ps a front (p.key ∷ b) q (omega (arith, n, k))
            (back-Free a front b y p.key r f')))
  | inr s ↦
      let q : Reply = record r { cells = set r.cells r.front p.key; front = r.front + 1 } in
      let step = put_peer-leecher p r s (omega (arith, f.front_is, Free-room a (x ∷ m) b r f)) in
      rw (put_peers-cons p ps r q step) (
        leecher-Lays a b p ps (put_peers ps q) s (
          put_peers-Lays ps (a ++ (p.key ∷ [])) m b q (omega (arith, n))
            (front-Free a m b x p.key r f)))
]
