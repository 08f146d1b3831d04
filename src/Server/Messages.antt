-- ===== src/Server/Messages.antt =====
-- The stream of messages of a connection, and what holds of a client that reads it.

use bt_server.Prelude.{
  ℕ, ◌≤◌, ◌<◌, ◌≡◌, sym, List, [], ◌++◌, Bool, true, false, Option, none, some, length,
}
use mathlib.Core.Path.{subst}
use bt_server.Server.{Client, message_size, packet_len, client_buf}

module _ {P : Type 0} (process_msg : P → List ℕ → List ℕ → P × Bool) where
  -- What is done with a stream: every message in it is processed in order, until one is too large or
  -- fails, or what is left is no whole message.
  pub data Consumes : P → List ℕ → P → Option (List ℕ) → Type 0 where
    waits_for_head : (p : P) (s : List ℕ) → length s < packet_len → Consumes p s p (some s)
    waits_for_data :
        (p : P) (packet part : List ℕ)
        → length packet ≡ packet_len
        → length part < message_size packet
        → message_size packet < client_buf
        → Consumes p (packet ++ part) p (some (packet ++ part))
    refuses :
        (p : P) (packet rest : List ℕ)
        → length packet ≡ packet_len
        → client_buf ≤ message_size packet
        → Consumes p (packet ++ rest) p none
    fails :
        (p q : P) (packet body rest : List ℕ)
        → length packet ≡ packet_len
        → length body ≡ message_size packet
        → message_size packet < client_buf
        → process_msg p packet body ≡ (q, true)
        → Consumes p (packet ++ (body ++ rest)) q none
    handles :
        (p q r : P) (packet body rest : List ℕ) (left : Option (List ℕ))
        → length packet ≡ packet_len
        → length body ≡ message_size packet
        → message_size packet < client_buf
        → process_msg p packet body ≡ (q, false)
        → Consumes q rest r left
        → Consumes p (packet ++ (body ++ rest)) r left

abbrev pub RightWith : Bool → List ℕ → ℕ → List ℕ → Type 0
RightWith false packet size data_buf = (length packet < packet_len) × (data_buf ≡ [])
RightWith true packet size data_buf =
    (length packet ≡ packet_len)
    × (length data_buf < size)
    × (size ≡ message_size packet)
    × (size < client_buf)

-- The same in the middle of a turn.
abbrev pub Reading : Client → Type 0
Reading c =
    (length c.packet ≡ packet_len)
    × (length c.data_buf ≤ c.data_size)
    × (c.data_size ≡ message_size c.packet)
    × (c.data_size < client_buf)

-- What holds of a client between two turns.
abbrev pub IsRight : Client → Type 0
IsRight c = RightWith c.has_read_head c.packet c.data_size c.data_buf

pub has_head :
    (c : Client)
    → c.has_read_head ≡ true
    → RightWith true c.packet c.data_size c.data_buf
    → IsRight c
has_head c head right = subst (λ b. RightWith b c.packet c.data_size c.data_buf) (sym head) right

pub has_no_head :
    (c : Client)
    → c.has_read_head ≡ false
    → RightWith false c.packet c.data_size c.data_buf
    → IsRight c
has_no_head c head right = subst (λ b. RightWith b c.packet c.data_size c.data_buf) (sym head) right

-- The bytes that have been read of the next message.
abbrev pub pending : Client → List ℕ
pending c = c.packet ++ c.data_buf
