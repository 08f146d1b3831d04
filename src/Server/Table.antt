-- ===== src/Server/Table.antt =====
-- The table of clients of src/main.c over a run of the server.
use bt_server.Prelude.{
  ℕ, zero, suc, ◌+◌, ◌≤◌, ◌≡◌, refl, ap, ◌∙◌, List, [], ◌∷◌, Option, none, some, arith, replicate,
}
use bt_server.Server.{enter_client}

-- What happens to the table: a connection is accepted, or the client of the slot 0 has had its turn, after
-- which it is still there or closed. `maxi` stays 0, so no other slot has turns.
pub data TableEvent (C : Type 0) : Type 0 where
  accepted : C → TableEvent C
  turned : Option C → TableEvent C

module _ {C : Type 0} where
  abbrev pub set_first : Option C → List (Option C) → List (Option C)
  set_first o [] = []
  set_first o (d ∷ slots) = o ∷ slots

  abbrev pub table_step : TableEvent C → List (Option C) → List (Option C)
  table_step (accepted c) table = (enter_client c table).0
  table_step (turned o) table = set_first o table

  unfoldable pub table_run : List (TableEvent C) → List (Option C) → List (Option C)
  table_run [] table = table
  table_run (e ∷ es) table = table_run es (table_step e table)

  abbrev pub open_in : Option C → ℕ
  open_in none = 0
  open_in (some c) = 1

  unfoldable pub open_clients : List (Option C) → ℕ
  open_clients [] = 0
  open_clients (o ∷ slots) = open_in o + open_clients slots

  abbrev pub behind_first : List (Option C) → List (Option C)
  behind_first [] = []
  behind_first (o ∷ slots) = slots

  table_step-behind :
      (e : TableEvent C) (table : List (Option C))
      → behind_first (table_step e table) ≡ behind_first table
  table_step-behind (accepted c) [] = refl
  table_step-behind (accepted c) (none ∷ slots) = refl
  table_step-behind (accepted c) (some d ∷ slots) = refl
  table_step-behind (turned o) [] = refl
  table_step-behind (turned o) (d ∷ slots) = refl

  table_run-behind :
      (es : List (TableEvent C)) (table : List (Option C))
      → behind_first (table_run es table) ≡ behind_first table
  unfolding table_run
  table_run-behind [] table = refl
  table_run-behind (e ∷ es) table =
      table_run-behind es (table_step e table) ∙ table_step-behind e table

  open_clients-behind :
      (table : List (Option C)) → open_clients table ≤ 1 + open_clients (behind_first table)
  unfolding open_clients
  open_clients-behind [] = omega arith
  open_clients-behind (none ∷ slots) = omega arith
  open_clients-behind (some c ∷ slots) = omega arith

module _ (C : Type 0) where
  abbrev pub no_clients : ℕ → List (Option C)
  no_clients n = replicate n none

  no_clients-open : (n : ℕ) → open_clients (no_clients n) ≡ 0
  unfolding open_clients
  no_clients-open zero = refl
  no_clients-open (suc n) = omega (arith, no_clients-open n)

  no_clients-behind : (n : ℕ) → open_clients (behind_first (no_clients n)) ≡ 0
  unfolding open_clients
  no_clients-behind zero = refl
  no_clients-behind (suc n) = no_clients-open n

  -- However many connections are accepted by a server that starts with an empty table, of any size, at
  -- most one of them is ever in the table: those that are accepted while one is open are lost.
  pub table_run-one :
      (n : ℕ) (es : List (TableEvent C)) → open_clients (table_run es (no_clients n)) ≤ 1
  table_run-one n es =
      let table = table_run es (no_clients n) in
      omega (
        arith,
        open_clients-behind table,
        ap open_clients (table_run-behind es (no_clients n)),
        no_clients-behind n,
      )
