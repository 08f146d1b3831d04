-- ===== src/Announce/Flags.antt =====
-- The bits of a flag byte, checked over all bytes.
use Prim.Native.Nat.{bit_or, bit_xor}
use bt_server.Prelude.{
  ℕ, ◌<◌, ◌≡◌, refl, Bool, true, false, not, ◌||◌, ◌∙◌, ltb→lt, bit_and, ltb, ◌==◌, if◌then◌else◌,
}
use bt_server.Prelude.Bytes.{on_bytes, on_bytes_at, passes_below}
use bt_server.Peers.{Peer, has_flag, flag_seeding, flag_completed}
use bt_server.Announce.{fresh_peer}

abbrev same : Bool → Bool → Bool
same true b = b
same false b = not b

same→eq : (a b : Bool) → same a b ≡ true → a ≡ b
same→eq true true h = refl
same→eq true false h = cc
same→eq false true h = cc
same→eq false false h = refl

or_table :
    on_bytes (λ f. same (has_flag (bit_or f flag_completed) flag_seeding) (has_flag f flag_seeding))
    ≡ true
unfolding passes_below
or_table = refl

pub seeding-or_completed :
    (f : ℕ) → f < 256 → has_flag (bit_or f flag_completed) flag_seeding ≡ has_flag f flag_seeding
seeding-or_completed f h = same→eq _ _ (on_bytes_at _ f h or_table)

abbrev sanitized : ℕ → ℕ
sanitized f = if bit_and f 0xc0 == flag_completed then bit_xor f flag_completed else f

byte_table : on_bytes (λ f. ltb (sanitized f) 256) ≡ true
unfolding passes_below
byte_table = refl

seeding_table :
    on_bytes (λ f. same (has_flag (sanitized f) flag_seeding) (has_flag f flag_seeding)) ≡ true
unfolding passes_below
seeding_table = refl

completed_table :
    on_bytes (λ f. has_flag f flag_seeding || not (has_flag (sanitized f) flag_completed)) ≡ true
unfolding passes_below
completed_table = refl

or_not : (a b : Bool) → (a || not b) ≡ true → b ≡ true → a ≡ true
or_not true b h e = refl
or_not false true h e = cc
or_not false false h e = cc

-- `fresh_peer` resets the age, keeps the key and the SEEDING bit, and whoever still claims to have
-- completed is a seeder.
pub record IsFresh (p q : Peer) : Type 0 where
  pub same_key : q.key ≡ p.key
  pub new_time : q.time ≡ 0
  pub byte : q.flag < 256
  pub same_seeding : has_flag q.flag flag_seeding ≡ has_flag p.flag flag_seeding
  pub completed_seeder : has_flag q.flag flag_completed ≡ true → has_flag q.flag flag_seeding ≡ true

pub fresh_peer-IsFresh : (p : Peer) → p.flag < 256 → IsFresh p (fresh_peer p)
unfolding fresh_peer
fresh_peer-IsFresh p h =
    let f = p.flag in
    let seeding = same→eq _ _ (on_bytes_at _ f h seeding_table) in
    record {
      same_key = refl;
      new_time = refl;
      byte = ltb→lt _ _ (on_bytes_at _ f h byte_table);
      same_seeding = seeding;
      completed_seeder = λ e. seeding ∙ or_not _ _ (on_bytes_at _ f h completed_table) e;
    }
