-- ===== src/Examples/Udp.antt =====
-- Packets over UDP.
use bt_server.Prelude.{
  ℕ, ◌≡◌, refl, true, List, [], ◌∷◌, ◌++◌, some, arith, replicate, if◌then◌else◌,
}
use bt_server.Tracker.{mutex_init}
use bt_server.Tracker.History.{mutex_init-TrackerRight, mutex_init-Roomy, mutex_init-total}
use bt_server.Http.Handlers.{big_endian}
use bt_server.Udp.{
  Keys, connected, mismatched, word, transaction, act, same_bytes, bytes_at, fold_crypt,
  handle_udp6,
}
use bt_server.Udp.Serving.{Answered, handle_udp6-Answered}
use bt_server.Udp.ConnectionId.{connectionid_lifetime}
use bt_server.Examples.Data.{env}

-- 127.0.0.1
abbrev localhost : List ℕ
localhost = replicate 10 0 ++ (255 ∷ 255 ∷ 127 ∷ 0 ∷ 0 ∷ 1 ∷ [])

-- A cipher for the tests.
abbrev turned : List ℕ → List ℕ
turned ip = bytes_at 12 4 ip ++ bytes_at 0 12 ip

abbrev hello : List ℕ
hello =
    0 ∷ 0 ∷ 4 ∷ 0x17 ∷ 0x27 ∷ 0x10 ∷ 0x19 ∷ 0x80 ∷ 0 ∷ 0 ∷ 0 ∷ 0 ∷ 1 ∷ 2 ∷ 3 ∷ 4 ∷ replicate 84 0

-- A scrape of one torrent with the id of `turned`.
abbrev scrape : List ℕ
scrape = 127 ∷ 0 ∷ 0 ∷ 1 ∷ 0 ∷ 0 ∷ 255 ∷ 255 ∷ 0 ∷ 0 ∷ 0 ∷ 2 ∷ 5 ∷ 6 ∷ 7 ∷ 8 ∷ replicate 84 0

abbrev keys : Keys
keys = record { hour = 3; current = 17; previous = 4 }

abbrev new_keys : Keys
new_keys = record { hour = 900; current = 23; previous = 23 }

scrape_is_let_through : same_bytes (bytes_at 0 8 scrape) (fold_crypt (turned localhost)) ≡ true
unfolding fold_crypt
scrape_is_let_through = refl

handle_udp6-Answered_example :
    Answered (handle_udp6 (λ n. env) localhost scrape 36 turned 7 (λ n. n) keys mutex_init).0
handle_udp6-Answered_example =
    handle_udp6-Answered (λ n. env) localhost scrape 36 mutex_init mutex_init-TrackerRight
      mutex_init-Roomy turned 7 (λ n. n) (omega (arith, mutex_init-total)) keys

connectionid_lifetime_example :
    (connid : List ℕ) × ((handle_udp6
        (λ n. env)
        localhost
        hello
        16
        turned
        7
        (λ n. n)
        keys
        mutex_init).0
      ≡ some (mutex_init, connected (transaction (λ n. env) localhost hello 16) connid))
    × ((handle_udp6 (λ n. env) localhost scrape 36 turned 901 (λ n. n) new_keys mutex_init).0 ≡ (
        if same_bytes (bytes_at 0 8 scrape) connid
        then act
            (λ n. env)
            localhost
            scrape
            36
            (word (λ n. env) localhost scrape 36 8)
            connid
            mutex_init
        else some (mutex_init, mismatched (transaction (λ n. env) localhost scrape 36))))
unfolding big_endian
connectionid_lifetime_example =
    connectionid_lifetime turned localhost (λ n. env) (λ n. env) hello scrape 16 36 7 901 (λ n. n)
      (λ n. n) keys new_keys mutex_init mutex_init (omega arith) refl refl refl (omega arith)
      (omega arith) (omega arith)
