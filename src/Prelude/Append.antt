-- ===== src/Prelude/Append.antt =====
-- The laws of joining lists.
use bt_server.Prelude.{◌≡◌, refl, ap, List, [], ◌∷◌, ◌++◌}

module _ {A : Type 0} where
  pub append_assoc : (xs ys zs : List A) → (xs ++ ys) ++ zs ≡ xs ++ (ys ++ zs)
  append_assoc [] ys zs = refl
  append_assoc (x ∷ xs) ys zs = ap (λ r. x ∷ r) (append_assoc xs ys zs)

  pub append_nil : (xs : List A) → xs ++ [] ≡ xs
  append_nil [] = refl
  append_nil (x ∷ xs) = ap (λ r. x ∷ r) (append_nil xs)
