-- ===== src/Prelude/All.antt =====
-- Predicates that hold of every member of a list.
use bt_server.Prelude.{ℕ, zero, suc, ◌≡◌, List, [], ◌∷◌, some, get_elem?}
use mathlib.Core.Path.{subst}

abbrev pub All : {A : Type 0} → (A → Type 0) → List A → Type 0
All P [] = Unit
All P (x ∷ xs) = P x × All P xs

pub All-get_elem? :
    {A : Type 0} (P : A → Type 0) (xs : List A) (i : ℕ) (x : A)
    → All P xs
    → get_elem? xs i ≡ some x
    → P x
All-get_elem? P [] i x h e = cc
All-get_elem? P (y ∷ ys) zero x h e = subst P (cc) h.0
All-get_elem? P (y ∷ ys) (suc i) x h e = All-get_elem? P ys i x h.1 e
