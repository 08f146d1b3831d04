-- ===== src/Server/Stream.antt =====
-- A connection that is served again and again processes the messages of its stream, however the bytes
-- arrive.
use bt_server.Prelude.Append.{append_nil}
use bt_server.Prelude.{
  ℕ, zero, suc, ◌<◌, ◌≡◌, refl, sym, ap, ◌∙◌, List, [], ◌++◌, Bool, true, false, Option, none, some,
  arith, length,
}
use mathlib.Core.Path.{subst}
use bt_server.Server.{Client, fresh_client, Received, Turn, packet_len, client_ready}
use bt_server.Server.Framing.{Delivers, Follows, client_ready-Follows}
use bt_server.Server.Messages.{
  Consumes, waits_for_head, waits_for_data, RightWith, IsRight, pending,
}

-- So many turns of a connection.
module _ {S P : Type 0} (recv : ℕ → S → Received × S) (process_msg : P → List ℕ → List ℕ → P × Bool)
    (alloc : ℕ → Bool) where
  abbrev pub again_ready : (Client → S → P → Turn S P) → Turn S P → Turn S P
  again_ready f (none, s, p) = (none, s, p)
  again_ready f (some c, s, p) = f c s p

  unfoldable pub serve : ℕ → Client → S → P → Turn S P
  serve zero c s p = (some c, s, p)
  serve (suc n) c s p = again_ready (serve n) (client_ready recv process_msg alloc c s p)

module _ {S P : Type 0} (recv : ℕ → S → Received × S) (process_msg : P → List ℕ → List ℕ → P × Bool)
    (to_come : S → List ℕ)
    (delivers : (n : ℕ) (s : S) → Delivers recv process_msg to_come n s (recv n s)) where
  abbrev granted : ℕ → Bool
  granted n = true

  abbrev Done : P → List ℕ → Turn S P → Type 0
  Done p whole turn = Follows recv process_msg to_come p whole turn

  again_ready-Follows :
      (n : ℕ) (p : P) (whole : List ℕ) (turn : Turn S P)
      → ((d : Client) (t : S) (q : P)
          → IsRight d
          → Done q (pending d ++ to_come t) (serve recv process_msg granted n d t q))
      → Done p whole turn
      → Done p whole (again_ready recv process_msg granted (serve recv process_msg granted n) turn)
  again_ready-Follows n p whole (none, t, q) later h = h
  again_ready-Follows n p whole (some d, t, q) later h =
      after (serve recv process_msg granted n d t q) (later d t q h.0)
    where
      after : (turn : Turn S P) → Done q (pending d ++ to_come t) turn → Done p whole turn
      after (none, u, r) k = h.1 r none k
      after (some e, u, r) k = (k.0, λ x left w. h.1 x left (k.1 x left w))

  serve-Follows :
      (n : ℕ) (c : Client) (s : S) (p : P)
      → IsRight c
      → Done p (pending c ++ to_come s) (serve recv process_msg granted n c s p)
  unfolding serve
  serve-Follows zero c s p right = (right, λ r left k. k)
  serve-Follows (suc n) c s p right =
      again_ready-Follows n p (pending c ++ to_come s) _ (serve-Follows n)
        (client_ready-Follows recv process_msg to_come delivers c p s right)

  -- Between two turns no whole message is pending.
  pending-waits :
      (b : Bool) (packet : List ℕ) (size : ℕ) (body : List ℕ) (p : P)
      → RightWith b packet size body
      → Consumes process_msg p (packet ++ body) p (some (packet ++ body))
  pending-waits false packet size body p h =
      waits_for_head p (packet ++ body) (
        subst (λ w. length w < packet_len) (sym (ap (λ d. packet ++ d) h.1 ∙ append_nil packet))
          h.0)
  pending-waits true packet size body p h =
      waits_for_data p packet body h.0 (omega (arith, h.1, h.2)) (omega (arith, h.2))

  -- Everything has been read, unless the connection was closed.
  abbrev pub Drained : Option Client → S → Type 0
  Drained none t = Unit
  Drained (some d) t = to_come t ≡ []

  abbrev pub left_of : Option Client → Option (List ℕ)
  left_of none = none
  left_of (some d) = some (pending d)

  left_over-Consumes :
      (p q : P) (whole : List ℕ) (o : Option Client) (t : S)
      → Drained o t
      → Done p whole (o, t, q)
      → Consumes process_msg p whole q (left_of o)
  left_over-Consumes p q whole none t drained h = h
  left_over-Consumes p q whole (some d) t drained h = h.1 q (some (pending d)) (
      subst (λ w. Consumes process_msg q w q (some (pending d)))
        (sym (ap (λ w. pending d ++ w) drained ∙ append_nil (pending d)))
        (pending-waits d.has_read_head d.packet d.data_size d.data_buf q h.0))

  -- Where a socket hands out its bytes in order, in pieces of any sizes and with any pauses, and memory is
  -- granted, a new client that has been served until all its bytes are read, or it was closed, has had
  -- exactly the messages of its stream processed, in order: up to the first that is too large or that
  -- fails, after which it is closed, or else all, and what is left is no whole message.
  pub serve-Consumes :
      (n : ℕ) (s t : S) (p q : P) (o : Option Client)
      → serve recv process_msg granted n fresh_client s p ≡ (o, t, q)
      → Drained o t
      → Consumes process_msg p (to_come s) q (left_of o)
  serve-Consumes n s t p q o e drained =
      left_over-Consumes p q (to_come s) o t drained
        (subst (Done p (to_come s)) e (serve-Follows n fresh_client s p (omega arith, refl)))
