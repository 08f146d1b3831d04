-- ===== src/Server/Framing.antt =====
-- The turns of a client against the messages in the stream of its bytes.
use bt_server.Prelude.Append.{append_assoc}
use bt_server.Prelude.{
  ℕ, ◌-◌, ◌≤◌, ◌<◌, ◌≡◌, refl, sym, ap, ◌∙◌, List, [], ◌++◌, Bool, true, false, Option, none, some,
  arith, ltb, ◌==◌, inl, inr, length, length-append, Bool-cases, if◌then◌else◌,
}
use mathlib.Core.Path.{subst}
use bt_server.Server.{
  Client, Received, bytes, closed, again, broken, message_size, packet_len, client_buf, Turn,
  processed, finish, data_received, read_data, start_data, add_head, head_received, client_ready,
  started, more_data,
}
use bt_server.Server.Messages.{
  Consumes, refuses, fails, handles, RightWith, Reading, IsRight, has_head, has_no_head, pending,
}

module _ {S P : Type 0} (recv : ℕ → S → Received × S) (process_msg : P → List ℕ → List ℕ → P × Bool)
    (to_come : S → List ℕ) where
  -- A socket hands out the bytes that are to come, in order and no more than are asked for.
  abbrev pub Delivers : ℕ → S → Received × S → Type 0
  Delivers n s (bytes b, t) = (length b ≤ n) × (to_come s ≡ b ++ to_come t)
  Delivers n s (again, t) = to_come t ≡ to_come s
  Delivers n s (closed, t) = ⊥
  Delivers n s (broken, t) = ⊥

  -- A turn takes messages off the front of what is to come, as they are to be processed.
  abbrev pub Follows : P → List ℕ → Turn S P → Type 0
  Follows p whole (none, t, q) = Consumes process_msg p whole q none
  Follows p whole (some d, t, q) =
      IsRight d
      × ((r : P) (left : Option (List ℕ))
          → Consumes process_msg q (pending d ++ to_come t) r left
          → Consumes process_msg p whole r left)

  module _ (delivers : (n : ℕ) (s : S) → Delivers n s (recv n s)) where
    abbrev all_granted : ℕ → Bool
    all_granted n = true

    processed-Follows :
        (p : P) (s : S) (packet body : List ℕ) (m : P × Bool)
        → process_msg p packet body ≡ m
        → length packet ≡ packet_len
        → length body ≡ message_size packet
        → message_size packet < client_buf
        → Follows p (packet ++ (body ++ to_come s)) (processed recv process_msg all_granted s m)
    processed-Follows p s packet body (q, true) e h l small =
        fails p q packet body (to_come s) h l small e
    processed-Follows p s packet body (q, false) e h l small =
        ((omega arith, refl), λ r left k. handles p q r packet body (to_come s) left h l small e k)

    finish-Follows :
        (c : Client) (p : P) (s : S)
        → Reading c
        → c.has_read_head ≡ true
        → Follows p (pending c ++ to_come s) (finish recv process_msg all_granted c s p)
    unfolding finish
    finish-Follows c p s right head = elim (Bool-cases (length c.data_buf == c.data_size)) [
      | inl whole ↦
          let l : length c.data_buf ≡ c.data_size = ground (arith, whole) in
          let m = process_msg p c.packet c.data_buf in
          let k =
            processed-Follows p s c.packet c.data_buf m refl right.0 (l ∙ right.2)
              (omega (arith, right.2, right.3)) in
          rw whole (
            subst (λ w. Follows p w (processed recv process_msg all_granted s m))
              (sym (append_assoc c.packet c.data_buf (to_come s))) k)
      | inr part ↦
          let no_more : ltb c.data_size (length c.data_buf) ≡ false = ground (arith, right.1) in
          rw (part, no_more)
            (
              has_head c head (right.0, ground (arith, part, right.1), right.2, right.3),
              λ r left k. k,
            )
    ]

    -- Bytes that are added to the data are taken from what is to come.
    add_data :
        (packet body b : List ℕ) (s t : S)
        → to_come s ≡ b ++ to_come t
        → (packet ++ (body ++ b)) ++ to_come t ≡ (packet ++ body) ++ to_come s
    add_data packet body b s t e =
        append_assoc packet (body ++ b) (to_come t)
        ∙ ap (λ w. packet ++ w) (append_assoc body b (to_come t) ∙ ap (λ w. body ++ w) (sym e))
        ∙ sym (append_assoc packet body (to_come s))

    data_received-Follows :
        (c : Client) (p : P) (s : S) (m : Received × S)
        → Reading c
        → c.has_read_head ≡ true
        → length c.data_buf < c.data_size
        → Delivers (c.data_size - length c.data_buf) s m
        → Follows p (pending c ++ to_come s) (data_received recv process_msg all_granted c p m)
    data_received-Follows c p s (bytes b, t) right head lt d =
        subst (λ w. Follows p w (finish recv process_msg all_granted (more_data c b) t p))
          (add_data c.packet c.data_buf b s t d.1)
          (finish-Follows (more_data c b) p t
            (right.0, omega (arith, length-append c.data_buf b, d.0, right.1), right.2, right.3)
            head)
    data_received-Follows c p s (closed, t) right head lt d = absurd d
    data_received-Follows c p s (again, t) right head lt d = (
      has_head c head (right.0, lt, right.2, right.3),
      λ r left k. subst (λ w. Consumes process_msg p (pending c ++ w) r left) d k,
    )
    data_received-Follows c p s (broken, t) right head lt d = absurd d

    read_data-Follows :
        (c : Client) (p : P) (s : S)
        → Reading c
        → c.has_read_head ≡ true
        → Follows p (pending c ++ to_come s) (read_data recv process_msg all_granted c s p)
    unfolding read_data
    read_data-Follows c p s right head = elim (Bool-cases (ltb (length c.data_buf) c.data_size)) [
      | inl more ↦ rw more (
          data_received-Follows c p s (recv (c.data_size - length c.data_buf) s) right head
            (ground (arith, more)) (delivers (c.data_size - length c.data_buf) s))
      | inr all ↦ rw all (finish-Follows c p s right head)
    ]

    start_data-Follows :
        (packet : List ℕ) (p : P) (s : S)
        → length packet ≡ packet_len
        → Follows p (packet ++ to_come s) (start_data recv process_msg all_granted packet s p)
    unfolding start_data
    start_data-Follows packet p s h = elim (Bool-cases (ltb (message_size packet) client_buf)) [
      | inl small ↦ rw small (
          subst (λ w. Follows p w (read_data recv process_msg all_granted (started packet) s p))
            (append_assoc packet [] (to_come s))
            (read_data-Follows (started packet) p s (h, omega arith, refl, ground (arith, small))
              refl))
      | inr large ↦ rw large (refuses p packet (to_come s) h (ground (arith, large)))
    ]

    no_data : (packet body rest : List ℕ) → body ≡ [] → (packet ++ body) ++ rest ≡ packet ++ rest
    no_data packet body rest empty =
        append_assoc packet body rest ∙ ap (λ d. packet ++ (d ++ rest)) empty

    add_head-Follows :
        (c : Client) (packet : List ℕ) (p : P) (s : S)
        → length packet ≤ packet_len
        → c.has_read_head ≡ false
        → c.data_buf ≡ []
        → Follows p (packet ++ to_come s) (add_head recv process_msg all_granted c packet s p)
    unfolding add_head
    add_head-Follows c packet p s le head empty = elim (Bool-cases (length packet == packet_len)) [
      | inl whole ↦ rw whole (start_data-Follows packet p s (ground (arith, whole)))
      | inr part ↦ rw part (
        has_no_head (record c { packet = packet }) head (ground (arith, part, le), empty),
        λ r left k.
            subst (λ w. Consumes process_msg p w r left)
              (no_data packet c.data_buf (to_come s) empty) k,
      )
    ]

    head_received-Follows :
        (c : Client) (p : P) (s : S) (m : Received × S)
        → RightWith false c.packet c.data_size c.data_buf
        → c.has_read_head ≡ false
        → Delivers (packet_len - length c.packet) s m
        → Follows p (pending c ++ to_come s) (head_received recv process_msg all_granted c p m)
    head_received-Follows c p s (bytes b, t) right head d =
        subst (λ w. Follows p w (add_head recv process_msg all_granted c (c.packet ++ b) t p))
          (append_assoc c.packet b (to_come t)
            ∙ ap (λ w. c.packet ++ w) (sym d.1)
            ∙ sym (no_data c.packet c.data_buf (to_come s) right.1))
          (add_head-Follows c (c.packet ++ b) p t
            (omega (arith, length-append c.packet b, d.0, right.0)) head right.1)
    head_received-Follows c p s (closed, t) right head d = absurd d
    head_received-Follows c p s (again, t) right head d = (
      has_no_head c head right,
      λ r left k. subst (λ w. Consumes process_msg p (pending c ++ w) r left) d k,
    )
    head_received-Follows c p s (broken, t) right head d = absurd d

    -- What `client_ready` makes of a value of `has_read_head`.
    abbrev ByHead : Client → P → S → Bool → Type 0
    ByHead c p s head = Follows p (pending c ++ to_come s) (
        if head
        then read_data recv process_msg all_granted c s p
        else head_received recv process_msg all_granted c p (recv (packet_len - length c.packet) s))

    pub client_ready-Follows :
        (c : Client) (p : P) (s : S)
        → IsRight c
        → Follows p (pending c ++ to_come s) (client_ready recv process_msg all_granted c s p)
    unfolding client_ready
    client_ready-Follows c p s right = elim (Bool-cases c.has_read_head) [
      | inl head ↦
          let r = subst (λ b. RightWith b c.packet c.data_size c.data_buf) head right in
          subst (ByHead c p s) (sym head)
            (read_data-Follows c p s (r.0, omega (arith, r.1), r.2, r.3) head)
      | inr head ↦
          let r = subst (λ b. RightWith b c.packet c.data_size c.data_buf) head right in
          subst (ByHead c p s) (sym head) (
            head_received-Follows c p s (recv (packet_len - length c.packet) s) r head
              (delivers (packet_len - length c.packet) s))
    ]
