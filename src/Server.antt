-- ===== src/Server.antt =====
-- The server of src/main.c that takes commands of the torrent client, with the packets of src/socket.c.
-- Numbers in a packet are read and written as on a little-endian machine. What a socket delivers, and
-- whether memory is there, are arguments.
pub mod Answers
pub mod Commands
pub mod Answering
pub mod Framing
pub mod Messages
pub mod Table
pub mod Stream
use bt_server.Prelude.{
  ℕ, zero, suc, ◌+◌, ◌-◌, ◌*◌, ◌/◌, ◌%◌, ◌^◌, List, [], ◌∷◌, ◌++◌, Bool, true, false, Option, none,
  some, ltb, ◌==◌, if◌then◌else◌, length, take, drop,
}

abbrev pub little_endian : List ℕ → ℕ
little_endian [] = 0
little_endian (b ∷ bs) = b + 256 * little_endian bs

-- A number as so many bytes, the least first.
abbrev pub le_bytes : ℕ → ℕ → List ℕ
le_bytes zero n = []
le_bytes (suc k) n = n % 256 ∷ le_bytes k (n / 256)

abbrev pub field : ℕ → ℕ → List ℕ → ℕ
field offset n packet = little_endian (take n (drop offset packet))

-- PACKET_LEN
abbrev pub packet_len : ℕ
packet_len = 24

-- CLIENT_BUF
abbrev pub client_buf : ℕ
client_buf = 1024 * 1024

-- `read_packet_order` keeps the lower half of its number.
unfoldable pub read_packet_order : List ℕ → ℕ
read_packet_order packet = field 4 4 packet % 2 ^ 16

unfoldable pub read_packet_size : List ℕ → ℕ
read_packet_size packet = field 12 4 packet

unfoldable pub read_packet_token : List ℕ → ℕ
read_packet_token packet = field 20 2 packet

-- `set_packet_head` on a packet of 24 bytes, of which it keeps `tokenLength`.
unfoldable pub set_packet_head : List ℕ → ℕ → ℕ → Bool → List ℕ
set_packet_head packet cmd data_size req_flag =
    le_bytes 2 1
    ++ (le_bytes 2 0
        ++ (le_bytes 4 cmd
            ++ (le_bytes 4 0
                ++ (le_bytes 4 data_size
                    ++ ((1 ∷ 0 ∷ 2 ∷ (if req_flag then 2 else 1) ∷ [])
                        ++ (take 2 (drop 20 packet) ++ le_bytes 2 0))))))

-- `struct client`: `pos` is the length of the one of `packet` and `data_buf` that is being filled.
pub record Client : Type 0 where
  pub has_read_head : Bool
  pub packet : List ℕ
  pub data_size : ℕ
  pub data_buf : List ℕ

-- What `accept` is followed by, and what a message that was handled leaves.
abbrev pub fresh_client : Client
fresh_client = record { has_read_head = false; packet = []; data_size = packet_len; data_buf = [] }

-- What `recv` returns: some bytes, 0, EINTR or EAGAIN, or another error.
pub data Received : Type 0 where
  bytes : List ℕ → Received
  closed again broken : Received

-- `data_size` of a message, an `int` as the number of its 32 bits.
unfoldable pub message_size : List ℕ → ℕ
message_size packet = (read_packet_size packet + read_packet_token packet) % 2 ^ 32

-- A client whose packet is whole.
abbrev pub started : List ℕ → Client
started packet = record {
  has_read_head = true;
  packet = packet;
  data_size = message_size packet;
  data_buf = [];
}

abbrev pub more_data : Client → List ℕ → Client
more_data c b = record c { data_buf = c.data_buf ++ b }

-- A connection after a turn: the client, where it was not closed, the socket and what `process_msg`
-- works on.
abbrev pub Turn : Type 0 → Type 0 → Type 0
Turn S P = Option Client × S × P

module _ {S P : Type 0} (recv : ℕ → S → Received × S) (process_msg : P → List ℕ → List ℕ → P × Bool)
    (alloc : ℕ → Bool) where
  abbrev pub processed : S → P × Bool → Turn S P
  processed s (p, true) = (none, s, p)
  processed s (p, false) = (some fresh_client, s, p)

  -- From the test of `pos` against `data_size` on.
  unfoldable pub finish : Client → S → P → Turn S P
  finish c s p =
      if length c.data_buf == c.data_size
      then processed s (process_msg p c.packet c.data_buf)
      else if ltb c.data_size (length c.data_buf)
      then (none, s, p)
      else (some c, s, p)

  -- A read of 0 bytes adds nothing to `pos`.
  abbrev pub data_received : Client → P → Received × S → Turn S P
  data_received c p (bytes b, s) = finish (more_data c b) s p
  data_received c p (closed, s) = finish c s p
  data_received c p (again, s) = (some c, s, p)
  data_received c p (broken, s) = (none, s, p)

  unfoldable pub read_data : Client → S → P → Turn S P
  read_data c s p =
      if ltb (length c.data_buf) c.data_size
      then data_received c p (recv (c.data_size - length c.data_buf) s)
      else finish c s p

  -- From there on where the packet is whole.
  unfoldable pub start_data : List ℕ → S → P → Turn S P
  start_data packet s p =
      if ltb (message_size packet) client_buf
      then (if alloc (message_size packet + 1)
          then read_data (started packet) s p
          else (none, s, p))
      else (none, s, p)

  unfoldable pub add_head : Client → List ℕ → S → P → Turn S P
  add_head c packet s p =
      if length packet == packet_len
      then start_data packet s p
      else (some (record c { packet = packet }), s, p)

  abbrev pub head_received : Client → P → Received × S → Turn S P
  head_received c p (bytes b, s) = add_head c (c.packet ++ b) s p
  head_received c p (closed, s) = (none, s, p)
  head_received c p (again, s) = (some c, s, p)
  head_received c p (broken, s) = (none, s, p)

  -- The turn of a client whose socket can be read.
  unfoldable pub client_ready : Client → S → P → Turn S P
  client_ready c s p =
      if c.has_read_head
      then read_data c s p
      else head_received c p (recv (packet_len - length c.packet) s)

-- The loop that puts an accepted client in the table, and where it stops: its `break` stands behind the
-- test and not in it.
abbrev pub enter_client : {C : Type 0} → C → List (Option C) → List (Option C) × ℕ
enter_client c [] = ([], 0)
enter_client c (none ∷ slots) = (some c ∷ slots, 0)
enter_client c (some d ∷ slots) = (some d ∷ slots, 0)
