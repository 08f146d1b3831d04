-- ===== src/Server/Answering.antt =====
-- Which messages the handlers of src/main.c answer.
use bt_server.Prelude.{ℕ, List, Bool, true, false, Option, none, some}
use bt_server.Server.Commands.{
  Item, absent, no_string, text, Handling, answered, unanswered, null_string, overflowed,
  overwritten,
}

abbrev pub is_answered : Handling → Bool
is_answered (answered s a) = true
is_answered unanswered = false
is_answered null_string = false
is_answered overflowed = false
is_answered overwritten = false

abbrev pub is_unparsed {ℓ} : {Doc : Type ℓ} → Option Doc → Bool
is_unparsed none = true
is_unparsed (some root) = false

abbrev pub is_absent : Item → Bool
is_absent absent = true
is_absent no_string = false
is_absent (text s) = false

-- A string for which a test holds.
abbrev pub is_text : (List ℕ → Bool) → Item → Bool
is_text test absent = false
is_text test no_string = false
is_text test (text s) = test s

abbrev pub any_text : List ℕ → Bool
any_text s = true

-- An item of the data; data that is not parsed has none.
abbrev pub given {ℓ} : {Doc : Type ℓ} → (Doc → List ℕ → Item) → Option Doc → List ℕ → Item
given item none name = absent
given item (some root) name = item root name
