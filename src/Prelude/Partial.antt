-- ===== src/Prelude/Partial.antt =====
-- Steps that may have no result, one after the other.
use bt_server.Prelude.{◌≡◌, refl, Option, none, some}

infixl 5 ◌>>=◌
abbrev pub ◌>>=◌ : {A B : Type 0} → Option A → (A → Option B) → Option B
none >>= f = none
some a >>= f = f a

pub >>=-cong :
    {A B : Type 0} (o : Option A) (f g : A → Option B)
    → ((a : A) → f a ≡ g a)
    → (o >>= f) ≡ (o >>= g)
>>=-cong none f g h = refl
>>=-cong (some a) f g h = h a
