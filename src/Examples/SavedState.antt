-- ===== src/Examples/SavedState.antt =====
-- The state of a tracker with one torrent, saved and loaded.
use bt_server.Prelude.{
  ℕ, ◌+◌, ◌-◌, ◌*◌, ◌<◌, ◌^◌, ◌≡◌, refl, ap, ◌∙◌, List, [], ◌∷◌, ◌++◌, map, Bool, true, false,
  Option, none, some, ◌&&◌, arith, leb, ◌==◌, if◌then◌else◌, length, get_or, replicate,
}
use bt_server.Prelude.All.{All}
use bt_server.Prelude.Bytes.{passes_below, passes_below_at}
use bt_server.Prelude.Decimal.{is_digit, ascii_digit, value_from, IsFigure}
use bt_server.Http.{codes}
use bt_server.Tracker.{mutex_init, Env}
use bt_server.Tracker.History.{mutex_init-TrackerRight, mutex_init-total}
use bt_server.Fullscrape.{hex_digits}
use bt_server.SavedState.{load_state, scan_hash}
use bt_server.SavedState.RoundTrip.{restore_all, load_state-fullscrape_make}
use bt_server.SavedState.Loading.{Loads, load_state-Loads}
use bt_server.Examples.Data.{env}
use bt_server.Fullscrape.{mapped}
use bt_server.Examples.Fullscrape.{a_torrent, one_bucket, plain, plain_three, state_run}

abbrev hex_value : ℕ → Option ℕ
hex_value c =
    if is_digit c then some (c - 48) else if leb 65 c && leb c 70 then some (c - 55) else none

abbrev is_value : Option ℕ → ℕ → Bool
is_value none v = false
is_value (some w) v = w == v

is_value-some : (o : Option ℕ) (v : ℕ) → is_value o v ≡ true → o ≡ some v
is_value-some none v h = cc
is_value-some (some w) v h = ap some (ground (arith, h))

abbrev reads_digit : ℕ → Bool
reads_digit v = is_value (hex_value (get_or hex_digits v 0)) v

hex_value-hex_digits : (v : ℕ) → v < 16 → hex_value (get_or hex_digits v 0) ≡ some v
unfolding passes_below
hex_value-hex_digits v h = is_value-some _ v (passes_below_at reads_digit 16 v h refl)

abbrev scan_from : ℕ → ℕ → List ℕ → ℕ × ℕ
scan_from k n [] = (k, n)
scan_from k n (c ∷ s) = if is_digit c then scan_from (k + 1) (n * 10 + (c - 48)) s else (k, n)

scan_from-value :
    (ds : List ℕ) (k n c : ℕ) (rest : List ℕ)
    → All IsFigure ds
    → is_digit c ≡ false
    → scan_from k n (map ascii_digit ds ++ (c ∷ rest)) ≡ (k + length ds, value_from n ds)
scan_from-value [] k n c rest figures end = rw end (ap (λ m. (m, n)) (omega arith))
scan_from-value (d ∷ ds) k n c rest figures end =
    let digit : is_digit (48 + d) ≡ true = ground (arith, figures.0) in
    let cut : 48 + d - 48 ≡ d = omega arith in
    rw (digit, cut)
      (scan_from-value ds (k + 1) (n * 10 + d) c rest figures.1 end
        ∙ ap (λ m. (m, value_from (n * 10 + d) ds)) (omega arith))

abbrev scan_number : List ℕ → ℕ × ℕ
scan_number = scan_from 0 0

scan_number-value :
    (ds : List ℕ) (c : ℕ) (rest : List ℕ)
    → 0 < length ds
    → All IsFigure ds
    → value_from 0 ds < 2 ^ 64
    → is_digit c ≡ false
    → scan_number (map ascii_digit ds ++ (c ∷ rest)) ≡ (length ds, value_from 0 ds)
scan_number-value ds c rest long figures small end =
    scan_from-value ds 0 0 c rest figures end ∙ ap (λ m. (m, value_from 0 ds)) (omega arith)

abbrev envs : ℕ → Env
envs n = env

abbrev zeros : ℕ → List ℕ
zeros n = replicate n 0

load_state-fullscrape_make_example :
    load_state hex_value scan_number envs
      (zeros 20)
      (zeros 512)
      (codes "0123456789ABCDEF0123456789ABCDEF01234567:100:0\n")
      mutex_init
    ≡ restore_all envs 0 (a_torrent ∷ []) mutex_init
load_state-fullscrape_make_example =
    load_state-fullscrape_make hex_value hex_value-hex_digits scan_number scan_number-value envs
      plain plain_three (λ n. mapped) (λ b. true) one_bucket _ state_run
      ((omega arith, refl, omega arith, omega arith), tt) (zeros 20) (zeros 512) mutex_init refl

load_state-Loads_example : Loads (
    load_state hex_value scan_number envs
      (zeros 20)
      (zeros 512)
      (codes "0123456789ABCDEF0123456789ABCDEF01234567:100:0\n#\n")
      mutex_init)
load_state-Loads_example =
    load_state-Loads hex_value scan_number envs (zeros 20) (zeros 512)
      (codes "0123456789ABCDEF0123456789ABCDEF01234567:100:0\n#\n") mutex_init
      (omega (arith, mutex_init-total)) mutex_init-TrackerRight

-- The digits "5" and "x" of a hash are read as 0x4f, and the line is loaded.
lax_hash : scan_hash hex_value (0 ∷ []) (codes "5x") ≡ 0x4f ∷ []
unfolding scan_hash
lax_hash = refl

-- The digits "x" and "x" leave the byte of the line before.
stale_hash : scan_hash hex_value (7 ∷ []) (codes "xx") ≡ 7 ∷ []
unfolding scan_hash
stale_hash = refl
