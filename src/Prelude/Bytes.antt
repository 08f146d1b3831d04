-- ===== src/Prelude/Bytes.antt =====
-- A statement about all bytes is checked byte by byte.
use bt_server.Prelude.{ℕ, zero, suc, ◌<◌, ◌≡◌, Bool, true, ◌&&◌, arith}

module _ (test : ℕ → Bool) where
  -- The test of every number below the given one.
  unfoldable pub passes_below : ℕ → Bool
  passes_below zero = true
  passes_below (suc k) = passes_below k && test k

  abbrev pub on_bytes : Bool
  on_bytes = passes_below 256

  pub passes_below_at : (k byte : ℕ) → byte < k → passes_below k ≡ true → test byte ≡ true
  unfolding passes_below
  passes_below_at zero byte small _ = absurd (omega arith)
  passes_below_at (suc k) byte small passed = ground (arith, passes_below_at k byte)

  pub on_bytes_at : (byte : ℕ) → byte < 256 → on_bytes ≡ true → test byte ≡ true
  on_bytes_at = passes_below_at 256
