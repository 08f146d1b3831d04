-- ===== src/Examples/Networks.antt =====
-- Networks, over short addresses.
use mathlib.Core.Logic.{◌↔◌}
use bt_server.Prelude.{ℕ, List, [], ◌∷◌, ◌≡◌, refl, some, false, true, arith, length, ◌≤◌, ◌<◌}
use bt_server.Networks.{address_in_net, memcmp_equal, same_bits}
use bt_server.Networks.Blessings.{
  Blessing, adminip_max, accesslist_isblessed, bless_all, SomeAllows,
  accesslist_isblessed-bless_all,
}
use bt_server.Networks.Prefix.{first_bits}
use bt_server.Networks.Match.{net_of, Decides, address_in_net-Decides}

abbrev ten : List ℕ
ten = 10 ∷ []

address_in_net-Decides_example :
    Decides
      (address_in_net (10 ∷ 23 ∷ 5 ∷ []) (net_of ten ten (5 ∷ []) (0 ∷ []) 23 16 4 refl))
      ((23 < 128) × ((ten ≡ ten) × (first_bits 4 23 ≡ 16)))
address_in_net-Decides_example =
    address_in_net-Decides ten ten (5 ∷ []) (0 ∷ []) 23 16 4 refl (omega arith, omega arith)
      (omega arith) (omega arith)

-- 192.0/4 against 192.0
missed_run :
    address_in_net (192 ∷ 0 ∷ []) (net_of [] [] (0 ∷ []) (0 ∷ []) 192 192 4 refl) ≡ some false
unfolding address_in_net memcmp_equal same_bits
missed_run = refl

abbrev admins : List Blessing
admins = record { ip = ten; permissions = 2 } ∷ record { ip = 11 ∷ []; permissions = 4 } ∷ []

accesslist_isblessed-bless_all_example :
    (length (bless_all [] admins) ≤ adminip_max)
    × ((accesslist_isblessed (bless_all [] admins) ten 2 ≡ true)
        ↔ SomeAllows adminip_max admins ten 2)
accesslist_isblessed-bless_all_example = accesslist_isblessed-bless_all ten 2 admins
