-- ===== src/SavedState/Loading.antt =====
-- `load_state` on any file.
use bt_server.Prelude.Partial.{◌>>=◌}
use bt_server.Prelude.{
  ℕ, zero, suc, ◌+◌, ◌<◌, ◌≤◌, List, [], ◌∷◌, Option, none, some, arith, ◌==◌, length, Bool-cases,
  inl, inr,
}
use bt_server.Clean.{size_mod}
use bt_server.Http.Handlers.{big_endian}
use bt_server.Tracker.{Tracker, Env}
use bt_server.Tracker.Invariant.{TrackerRight, Steps, total, add_torrent_from_saved_state-Steps}
use bt_server.SavedState.{line_of, as_time, scan_counts, restore, load_lines, load_state}

line_of_rest : (k : ℕ) (file : List ℕ) → length (line_of k file).1 ≤ length file
unfolding line_of
line_of_rest zero file = omega arith
line_of_rest (suc k) [] = omega arith
line_of_rest (suc k) (c ∷ file) = elim (Bool-cases (c == 10)) [
  | inl end ↦ rw end (omega arith)
  | inr inside ↦ rw inside (omega (arith, line_of_rest k file))
]

-- A line takes a character.
line_of_shorter : (k c : ℕ) (file : List ℕ) → length (line_of (suc k) (c ∷ file)).1 ≤ length file
unfolding line_of
line_of_shorter k c file = elim (Bool-cases (c == 10)) [
  | inl end ↦ rw end (omega arith)
  | inr inside ↦ rw inside (line_of_rest k file)
]

-- Loading came to its end, and the tracker is right.
abbrev pub Loads : Option Tracker → Type 0
Loads none = ⊥
Loads (some t) = TrackerRight t

abbrev Restored : Tracker → Option Tracker → Type 0
Restored s none = ⊥
Restored s (some t) = TrackerRight t × (total t ≤ total s + 1)

taken_over :
    (s : Tracker) (o : Option (Tracker × Unit {0}))
    → Steps s o
    → Restored s (o >>= λ (t, u). some t)
taken_over s none steps = steps
taken_over s (some (t, u)) steps = steps

restore-Restored :
    (envs : ℕ → Env) (n : ℕ) (infohash : List ℕ) (o : Option (ℕ × ℕ)) (s : Tracker)
    → TrackerRight s
    → total s + 1 < size_mod
    → Restored s (restore envs n infohash o s)
restore-Restored envs n infohash none s right room = (right, omega arith)
restore-Restored envs n infohash (some (base, downcount)) s right room = taken_over s _ (
    add_torrent_from_saved_state-Steps s right (envs n) (big_endian infohash 0) (as_time base)
      downcount room)

>>=-Loads :
    (s : Tracker) (o : Option Tracker) (f : Tracker → Option Tracker)
    → Restored s o
    → ((t : Tracker) → TrackerRight t → total t ≤ total s + 1 → Loads (f t))
    → Loads (o >>= f)
>>=-Loads s none f restored next = restored
>>=-Loads s (some t) f restored next = next t restored.0 restored.1

module _ (scan_fromhex : ℕ → Option ℕ) (scan_ulonglong : List ℕ → ℕ × ℕ) (envs : ℕ → Env) where
  load_lines-Loads :
      (fuel n : ℕ) (infohash inbuf file : List ℕ) (s : Tracker)
      → length file < fuel
      → total s + length file < size_mod
      → TrackerRight s
      → Loads (load_lines scan_fromhex scan_ulonglong envs fuel n infohash inbuf file s)
  unfolding load_lines
  load_lines-Loads zero n infohash inbuf file s enough room right = absurd (omega (arith, enough))
  load_lines-Loads (suc fuel) n infohash inbuf [] s enough room right = right
  load_lines-Loads (suc fuel) n infohash inbuf (c ∷ file) s enough room right =
      >>=-Loads s _ _
        (restore-Restored envs n _ (scan_counts scan_ulonglong _) s right (omega (arith, room)))
        (λ t kept more.
          load_lines-Loads fuel (n + 1) _ _ _ t (omega (arith, enough, line_of_shorter 510 c file))
            (omega (arith, room, more, line_of_shorter 510 c file)) kept)

  -- Whatever file is loaded into a right tracker, whatever its lines are and whatever memory is
  -- refused, loading comes to its end, never leaves the initialised memory of the tracker and leaves it
  -- right, where the counter of torrents has room for as many as the file has characters.
  pub load_state-Loads :
      (infohash inbuf file : List ℕ) (s : Tracker)
      → total s + length file < size_mod
      → TrackerRight s
      → Loads (load_state scan_fromhex scan_ulonglong envs infohash inbuf file s)
  unfolding load_state
  load_state-Loads infohash inbuf file s room right =
      load_lines-Loads (suc (length file)) 0 infohash inbuf file s (omega arith) room right
