-- ===== src/Server/Answers.antt =====
-- The answers of src/main.c: `set_packet_head` and `send_packet` of src/socket.c against what a reader of
-- packets expects.
use bt_server.Prelude.{
  ℕ, ◌+◌, ◌%◌, ◌^◌, ◌≡◌, refl, sym, ap, ◌∙◌, List, [], ◌∷◌, ◌++◌, Bool, true, ◌&&◌, arith, ltb,
  if◌then◌else◌, length, length-append, length-take, length-drop, take, drop, Bool-cases, inl, inr,
}
use bt_server.Server.{
  little_endian, le_bytes, packet_len, read_packet_order, read_packet_size, read_packet_token,
  set_packet_head, message_size,
}

-- DATA_SIZE
abbrev pub data_size_limit : ℕ
data_size_limit = 1452

-- `data_size`, an `int`, as the number of its 32 bits. From 2 ^ 31 on it is negative.
abbrev pub data_size_of : List ℕ → ℕ
data_size_of data_buf = length data_buf % 2 ^ 32

-- Whether data of this size is sent: a negative one passes the first test of the code, not the second.
abbrev pub is_sent : ℕ → Bool
is_sent size = ltb size data_size_limit && ltb 0 size

-- What `send_packet` sends over an open connection: the packet, no token, since no client has one, and
-- the data.
unfoldable pub send_packet : List ℕ → List ℕ → List ℕ
send_packet packet data_buf =
    packet
    ++ (if is_sent (data_size_of data_buf) then take (data_size_of data_buf) data_buf else [])

-- What `send_code` and its kin send for a text.
unfoldable pub send_text : List ℕ → List ℕ → List ℕ
send_text packet text =
    send_packet (set_packet_head packet (read_packet_order packet) (length text) true) text

little_endian-le_bytes : (n : ℕ) → little_endian (le_bytes 4 n) ≡ n % 2 ^ 32
little_endian-le_bytes n = omega arith

two_bytes : (xs : List ℕ) → length xs ≡ 2 → (a : ℕ) × (b : ℕ) × (xs ≡ a ∷ b ∷ [])
two_bytes [] h = absurd (omega arith)
two_bytes (a ∷ []) h = absurd (omega arith)
two_bytes (a ∷ b ∷ []) h = (a, b, refl)
two_bytes (a ∷ b ∷ c ∷ xs) h = absurd (omega arith)

module _ (packet : List ℕ) (cmd size : ℕ) (req_flag : Bool)
    (whole : length packet ≡ packet_len) where
  token_bytes : (a : ℕ) × (b : ℕ) × (take 2 (drop 20 packet) ≡ a ∷ b ∷ [])
  token_bytes =
      two_bytes (take 2 (drop 20 packet))
        (omega (arith, length-take 2 (drop 20 packet), length-drop 20 packet, whole))

  -- The fields of a head that was set are read back, and the length of the token is as before.
  pub set_packet_head-fields :
      (length (set_packet_head packet cmd size req_flag) ≡ packet_len)
      × (read_packet_order (set_packet_head packet cmd size req_flag) ≡ cmd % 2 ^ 16)
      × (read_packet_size (set_packet_head packet cmd size req_flag) ≡ size % 2 ^ 32)
      × (read_packet_token (set_packet_head packet cmd size req_flag) ≡ read_packet_token packet)
  unfolding set_packet_head read_packet_order read_packet_size read_packet_token
  set_packet_head-fields =
      let (a, b, e) = token_bytes in
      rw e (refl, omega (arith, little_endian-le_bytes cmd), little_endian-le_bytes size, refl)

take-append : (xs ys : List ℕ) → take (length xs) (xs ++ ys) ≡ xs
take-append [] ys = refl
take-append (x ∷ xs) ys = ap (λ r. x ∷ r) (take-append xs ys)

-- How many bytes of a text are sent.
abbrev pub sent_of : List ℕ → ℕ
sent_of text = if is_sent (data_size_of text) then data_size_of text else 0

module _ (packet text : List ℕ) (whole : length packet ≡ packet_len) where
  abbrev head : List ℕ
  head = set_packet_head packet (read_packet_order packet) (length text) true

  fields :
      (length head ≡ packet_len)
      × (read_packet_order head ≡ read_packet_order packet % 2 ^ 16)
      × (read_packet_size head ≡ length text % 2 ^ 32)
      × (read_packet_token head ≡ read_packet_token packet)
  fields = set_packet_head-fields packet (read_packet_order packet) (length text) true whole

  length-send_text : length (send_text packet text) ≡ packet_len + sent_of text
  unfolding send_text send_packet
  length-send_text = elim (Bool-cases (is_sent (data_size_of text))) [
    | inl goes ↦
        let sent = take (data_size_of text) text in
        rw goes
          (omega (arith, length-append head sent, length-take (data_size_of text) text, fields.0))
    | inr stays ↦ rw stays (omega (arith, length-append head [], fields.0))
  ]

  take-send_text : take packet_len (send_text packet text) ≡ head
  unfolding send_text send_packet
  take-send_text =
      ap (λ n. take n (send_text packet text)) (sym fields.0)
      ∙ take-append head (if is_sent (data_size_of text) then take (data_size_of text) text else [])

  -- An answer to a packet of 24 bytes begins with a packet that announces so many bytes behind it as the
  -- text has, and besides those of a token, so many as the packet that is answered announced; but the token
  -- is never sent, and of a text only as many bytes as an `int` holds of its size, and none where these
  -- are 1452 or more.
  pub send_text-announces :
      (length (send_text packet text) ≡ packet_len + sent_of text)
      × (message_size (take packet_len (send_text packet text))
          ≡ (length text % 2 ^ 32 + read_packet_token packet) % 2 ^ 32)
  unfolding message_size
  send_text-announces =
      (length-send_text, rw take-send_text (ap (λ n. n % 2 ^ 32) (cc (fields.2, fields.3))))
