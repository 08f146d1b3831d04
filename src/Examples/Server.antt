-- ===== src/Examples/Server.antt =====
-- A connection that sends one message, a byte at a time, and answers to it.
use bt_server.Prelude.{
  ℕ, zero, suc, ◌+◌, ◌%◌, ◌^◌, ◌≤◌, ◌≡◌, refl, List, [], ◌∷◌, ◌++◌, Bool, true, false, none, some,
  arith, length, take,
}
use bt_server.Http.{codes}
use bt_server.Server.{
  fresh_client, Received, bytes, again, packet_len, read_packet_order, read_packet_size,
  read_packet_token, message_size, client_ready, read_data, start_data, add_head, finish,
}
use bt_server.Server.Framing.{Delivers}
use bt_server.Server.Messages.{Consumes}
use bt_server.Server.Stream.{serve, serve-Consumes}
use bt_server.Server.Answers.{send_text, sent_of, send_text-announces}
use bt_server.Server.Table.{accepted, turned, table_run, open_clients, no_clients, table_run-one}
use bt_server.Server.Commands.{Node, Item, text, answered, task, matches_number, process_msg}

abbrev one_byte : ℕ → List ℕ → Received × List ℕ
one_byte n [] = (again, [])
one_byte zero (x ∷ xs) = (bytes [], x ∷ xs)
one_byte (suc n) (x ∷ xs) = (bytes (x ∷ []), xs)

abbrev counted : ℕ → List ℕ → List ℕ → ℕ × Bool
counted p packet body = (p + 1, false)

one_byte-Delivers : (n : ℕ) (s : List ℕ) → Delivers one_byte counted (λ t. t) n s (one_byte n s)
one_byte-Delivers n [] = refl
one_byte-Delivers zero (x ∷ xs) = (omega arith, refl)
one_byte-Delivers (suc n) (x ∷ xs) = (omega arith, refl)

-- ADD_TASK with two bytes
abbrev a_packet : List ℕ
a_packet =
    1 ∷ 0 ∷ 0 ∷ 0 ∷ 0xd3 ∷ 7 ∷ 0 ∷ 0 ∷ 0 ∷ 0 ∷ 0 ∷ 0 ∷ 2 ∷ 0 ∷ 0 ∷ 0 ∷ 1 ∷ 0 ∷ 2 ∷ 1 ∷ 0 ∷ 0 ∷ 0 ∷ 0
    ∷ []

abbrev a_stream : List ℕ
a_stream = a_packet ++ (123 ∷ 125 ∷ [])

serve-Consumes_example : Consumes counted 0 a_stream 1 (some [])
unfolding serve client_ready read_data start_data add_head finish message_size read_packet_size
    read_packet_token
serve-Consumes_example =
    serve-Consumes one_byte counted (λ t. t) one_byte-Delivers 30 a_stream [] 0 1
      (some fresh_client) refl refl

send_text-announces_example :
    (length (send_text a_packet (codes "ok")) ≡ packet_len + sent_of (codes "ok"))
    × (message_size (take packet_len (send_text a_packet (codes "ok")))
        ≡ (length (codes "ok") % 2 ^ 32 + read_packet_token a_packet) % 2 ^ 32)
send_text-announces_example = send_text-announces a_packet (codes "ok") refl

table_run-one_example :
    open_clients (table_run (accepted 4 ∷ accepted 5 ∷ turned none ∷ []) (no_clients ℕ 1024)) ≤ 1
table_run-one_example = table_run-one ℕ 1024 (accepted 4 ∷ accepted 5 ∷ turned none ∷ [])

abbrev a_node : Node
a_node = record { tracker = []; run_flag = false }

-- Two strings, in place of the items of every object.
abbrev a_doc : List ℕ → List ℕ → Item
a_doc d k = text (codes "a.torrent")

-- A task that is added, and texts with and without a number.
commands_run :
    (process_msg
        (λ s. some s)
        (λ d k. text (codes "1.2.3.4"))
        (λ t p. 7)
        (λ f t u. true)
        false
        a_node
        a_packet
        []
      ≡ answered a_node (task 7))
    × (matches_number (codes " -12") ≡ true)
    × (matches_number (codes "x12") ≡ false)
unfolding process_msg matches_number read_packet_order
commands_run = (refl, refl, refl)
