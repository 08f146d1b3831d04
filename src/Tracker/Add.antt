-- ===== src/Tracker/Add.antt =====
-- The bodies that may enter a new torrent keep their bucket right.
use bt_server.Prelude.{
  ℕ, ◌<◌, ◌≡◌, refl, sym, ap, ◌∙◌, Bool, Option, none, some, arith, length, get_elem?, length-set,
  Bool-cases, inl, inr,
}
use mathlib.Core.Path.{subst}
use bt_server.Prelude.Int.{ℤ, pos}
use bt_server.Prelude.All.{All, All-get_elem?}
use bt_server.Vector.{Vector, Slot, found, opened, null, fault, find_or_insert, remove_member}
use bt_server.Vector.Sorted.{IsChain→IsAscending, keys_of}
use bt_server.Vector.Insert.{Stores, find_or_insert-Stores, Points, find_or_insert-Points}
use bt_server.Peers.{Peer}
use bt_server.Peers.Weight.{sum_over}
use bt_server.Clean.{PeerList}
use bt_server.Clean.Counters.{CountsRight, Trimmed, Answers, clean_single_torrent-Trimmed}
use bt_server.Announce.{Announced, stored, no_memory, bad}
use bt_server.Announce.Counters.{HasRoom, Stored, announce-CountsRight}
use bt_server.Tracker.{
  Torrent, hash_of, bucket_index, Env, write_torrent, empty_list, nothing, not_authorized, entered,
  enter, enter_cleaned, unchanged, add_at, add_body, restore_at, restore_body,
}
use bt_server.Tracker.Bodies.{
  TorrentRight, BucketRight, CountedBy, Changes, put-BucketRight, kept-Changes, closed-BucketRight,
}

empty_list-CountsRight : CountsRight empty_list
unfolding sum_over
empty_list-CountsRight = record {
  shaped = record { some_list = omega arith; single = λ e. refl };
  peers_right = refl;
  seeds_right = refl;
  small = omega arith;
}

empty_list-HasRoom : HasRoom empty_list
unfolding sum_over
empty_list-HasRoom = omega arith

-- One more peer fits into every list of the vector.
abbrev pub RoomIn : Vector Torrent → Type 0
RoomIn v = All (λ t. HasRoom t.peer_list) v.items

-- Only the new content of the slot is missing: whatever torrent with the hash is written there, the
-- bucket is right and the reported change is right.
abbrev pub Ready : ℕ → Vector Torrent → Vector Torrent → ℕ → ℤ → ℕ → Type 0
Ready b v w i delta hash =
    (l : PeerList)
    → CountsRight l
    → let u = write_torrent w i (record { hash = hash; peer_list = l }) in
      BucketRight b u × CountedBy v u delta

module _ (b : ℕ) (v : Vector Torrent) (right : BucketRight b v) (e : Env) where
  entered-Changes :
      (w : Vector Torrent) (i : ℕ) (delta : ℤ) (hash : ℕ) (l : PeerList) (a : Announced)
      → Ready b v w i delta hash
      → CountsRight l
      → Stored CountsRight a
      → Changes b v (entered e w i delta hash l a)
  entered-Changes w i delta hash l (stored l' es) r h s = r l' s
  entered-Changes w i delta hash l no_memory r h s =
      r (record l { base = pos (e.now) })
        (record {
          shaped = h.shaped;
          peers_right = h.peers_right;
          seeds_right = h.seeds_right;
          small = h.small;
        })
  entered-Changes w i delta hash l bad r h s = s

  enter-Changes :
      (p : Peer) (w : Vector Torrent) (i : ℕ) (delta : ℤ) (hash : ℕ) (l : PeerList)
      → p.flag < 256
      → Ready b v w i delta hash
      → CountsRight l
      → HasRoom l
      → Changes b v (enter e p w i delta hash l)
  enter-Changes p w i delta hash l f r h room =
      entered-Changes w i delta hash l _ r h
        (announce-CountsRight e.peer_alloc e.stale_peer e.now p l h room f)

  enter_cleaned-Changes :
      (p : Peer) (w : Vector Torrent) (i hash : ℕ) (l : PeerList) (o : Option (Bool × PeerList))
      → p.flag < 256
      → Ready b v w i (pos 0) hash
      → HasRoom l
      → Answers (λ d l'. Trimmed l l') o
      → Changes b v (enter_cleaned e p w i hash o)
  enter_cleaned-Changes p w i hash l none f r room h = h
  enter_cleaned-Changes p w i hash l (some (d, l')) f r room h =
      enter-Changes p w i (pos 0) hash l' f r h.0 (omega (arith, h.1))

  module _ (hash : ℕ) (here : bucket_index hash ≡ b) where
    opened-Ready :
        (stale : Torrent) (w : Vector Torrent) (i : ℕ)
        → ((x : Torrent) → x.hash ≡ hash → Stores hash_of v x e.torrent_alloc (opened w i))
        → Ready b v w i (pos 1) hash
    opened-Ready stale w i s l h =
        let t : Torrent = record { hash = hash; peer_list = l } in
        let (lt, put, len, fit) = s t refl in
        (
          put-BucketRight b v right t (write_torrent w i t) put
              (omega (arith, length-set w.items i t, fit right.fits)) (h, here),
          omega (arith, length-set w.items i t),
        )

    found-Ready :
        (w : Vector Torrent) (i : ℕ)
        → ((x : Torrent) → x.hash ≡ hash → Stores hash_of v x e.torrent_alloc (found w i))
        → Ready b v w i (pos 0) hash
    found-Ready w i s l h =
        let t : Torrent = record { hash = hash; peer_list = l } in
        let (same, lt, put, len) = s t refl in
        (
          put-BucketRight b v right t (write_torrent w i t) put
              (omega (
                arith,
                length-set w.items i t,
                ap length (ap (λ (u : Vector Torrent). u.items) same),
                ap (λ (u : Vector Torrent). u.space) same,
                right.fits,
              ))
              (h, here),
          omega (
            arith,
            length-set w.items i t,
            ap length (ap (λ (u : Vector Torrent). u.items) same),
          ),
        )

    stores :
        (x : Torrent)
        → x.hash ≡ hash
        → Stores hash_of v x e.torrent_alloc
            (find_or_insert hash_of e.torrent_alloc e.stale_torrent v hash)
    stores x k = rw (← k) (
        find_or_insert-Stores hash_of e.torrent_alloc e.stale_torrent x v
          (IsChain→IsAscending (keys_of hash_of v.items) right.ordered))

    -- Where the new peer list is refused, the slot is closed again.
    closed_again :
        (w : Vector Torrent) (i : ℕ)
        → ((x : Torrent) → x.hash ≡ hash → Stores hash_of v x e.torrent_alloc (opened w i))
        → Points hash_of v e.stale_torrent hash (opened w i)
        → BucketRight b (remove_member w i) × CountedBy v (remove_member w i) (pos 0)
    closed_again w i s q =
        let (lt, put, len, fits) = s (record { hash = hash; peer_list = empty_list }) refl in
        closed-BucketRight b v right e.stale_torrent w i q.0 q.1 len (fits right.fits)

    add_at-Changes :
        (p : Peer) (o : Slot Torrent)
        → p.flag < 256
        → RoomIn v
        → ((x : Torrent) → x.hash ≡ hash → Stores hash_of v x e.torrent_alloc o)
        → Points hash_of v e.stale_torrent hash o
        → Changes b v (add_at e p hash v o)
    add_at-Changes p (found w i) f room s (same, (t, seen, k)) =
        let seen' : get_elem? w.items i ≡ some t =
          ap (λ (u : Vector Torrent). get_elem? u.items i) same ∙ seen in
        let h = All-get_elem? (TorrentRight b) v.items i t right.torrents seen in
        let r = All-get_elem? (λ u. HasRoom u.peer_list) v.items i t room seen in
        rw (seen', Changes)
          (enter_cleaned-Changes p w i hash t.peer_list _ f (found-Ready w i s) r
            (clean_single_torrent-Trimmed e.grants e.now t.peer_list h.0))
    add_at-Changes p (opened w i) f room s q = elim (Bool-cases e.list_alloc) [
      | inl yes_list ↦
          rw (yes_list, Changes)
            (enter-Changes p w i (pos 1) hash empty_list f (opened-Ready e.stale_torrent w i s)
              empty_list-CountsRight empty_list-HasRoom)
      | inr no_list ↦ rw (no_list, Changes) (closed_again w i s q)
    ]
    add_at-Changes p null f room s q = kept-Changes b v right nothing
    add_at-Changes p fault f room s q = q

    pub add_body-Changes : (p : Peer) → p.flag < 256 → RoomIn v → Changes b v (add_body e p hash v)
    unfolding add_body
    add_body-Changes p f room = elim (Bool-cases (e.hash_is_valid hash)) [
      | inl valid ↦
          rw (valid, Changes)
            (add_at-Changes p _ f room stores
              (find_or_insert-Points hash_of e.torrent_alloc e.stale_torrent v hash))
      | inr invalid ↦ rw (invalid, Changes) (kept-Changes b v right not_authorized)
    ]

    restored_list-CountsRight :
        (base : ℤ) (down_count : ℕ)
        → CountsRight (record empty_list { base = base; down_count = down_count })
    restored_list-CountsRight base down_count = record {
      shaped = empty_list-CountsRight.shaped;
      peers_right = empty_list-CountsRight.peers_right;
      seeds_right = empty_list-CountsRight.seeds_right;
      small = empty_list-CountsRight.small;
    }

    restore_at-Changes :
        (base : ℤ) (down_count : ℕ) (o : Slot Torrent)
        → ((x : Torrent) → x.hash ≡ hash → Stores hash_of v x e.torrent_alloc o)
        → Points hash_of v e.stale_torrent hash o
        → Changes b v (restore_at e hash base down_count v o)
    restore_at-Changes base down_count (found w i) s q =
        subst (λ u. Changes b v (unchanged e u tt)) (sym q.0) (kept-Changes b v right tt)
    restore_at-Changes base down_count (opened w i) s q = elim (Bool-cases e.list_alloc) [
      | inl yes_list ↦
          rw (yes_list, Changes)
            (opened-Ready e.stale_torrent w i s
              (record empty_list { base = base; down_count = down_count })
              (restored_list-CountsRight base down_count))
      | inr no_list ↦ rw (no_list, Changes) (closed_again w i s q)
    ]
    restore_at-Changes base down_count null s q = kept-Changes b v right tt
    restore_at-Changes base down_count fault s q = q

    pub restore_body-Changes :
        (base : ℤ) (down_count : ℕ) → Changes b v (restore_body e hash base down_count v)
    unfolding restore_body
    restore_body-Changes base down_count = elim (Bool-cases (e.hash_is_valid hash)) [
      | inl valid ↦
          rw (valid, Changes)
            (restore_at-Changes base down_count _ stores
              (find_or_insert-Points hash_of e.torrent_alloc e.stale_torrent v hash))
      | inr invalid ↦ rw (invalid, Changes) (kept-Changes b v right tt)
    ]
