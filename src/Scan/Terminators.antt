-- ===== src/Scan/Terminators.antt =====
-- The characters at which every scan ends: `SCAN_SEARCHPATH_TERMINATOR` without the quotes and brackets.
use bt_server.Prelude.{
  ℕ, ◌≡◌, ◌≢◌, ◌⊎◌, inl, inr, refl, sym, ap, Bool, true, false, ◌||◌, arith, ◌==◌,
}
use mathlib.Core.Path.{subst, ◌∙◌}
use bt_server.Scan.{continues, fromhex, decodes, unescape}
use bt_server.Scan.Decode.{IsFlag}

-- 0, space, newline and carriage return: no scan goes on at one of them.
abbrev pub is_terminator : ℕ → Bool
is_terminator c = c == 0 || c == b'\r' || c == b'\n' || c == b' '

terminator_cases :
    (c : ℕ) → is_terminator c ≡ true → (c ≡ 0) ⊎ ((c ≡ b'\r') ⊎ ((c ≡ b'\n') ⊎ (c ≡ b' ')))
terminator_cases c h = ground (arith, h)

-- What holds of the four terminators holds of each.
pub of_terminator :
    (P : ℕ → Type 0) (c : ℕ) → is_terminator c ≡ true → P 0 → P b'\r' → P b'\n' → P b' ' → P c
of_terminator P c h zero return newline space = elim (terminator_cases c h) [
  | inl e ↦ subst P (sym e) zero
  | inr (inl e) ↦ subst P (sym e) return
  | inr (inr (inl e)) ↦ subst P (sym e) newline
  | inr (inr (inr e)) ↦ subst P (sym e) space
]

pub terminator-stops :
    (flags end : ℕ) → is_terminator end ≡ true → IsFlag flags → continues flags end ≡ false
unfolding continues
terminator-stops flags end hard (inl e) =
    rw e (of_terminator (λ c. continues 1 c ≡ false) end hard refl refl refl refl)
terminator-stops flags end hard (inr (inl e)) =
    rw e (of_terminator (λ c. continues 2 c ≡ false) end hard refl refl refl refl)
terminator-stops flags end hard (inr (inr e)) =
    rw e (of_terminator (λ c. continues 4 c ≡ false) end hard refl refl refl refl)

terminator-fromhex : (end : ℕ) → is_terminator end ≡ true → fromhex end ≡ 0xff
unfolding fromhex
terminator-fromhex end hard = of_terminator (λ c. fromhex c ≡ 0xff) end hard refl refl refl refl

unescape_hex : (h l x : ℕ) → unescape h l ≡ decodes x → (fromhex h ≢ 0xff) × (fromhex l ≢ 0xff)
unfolding unescape
unescape_hex h l x e = (ground arith, ground arith)

-- No escape swallows the end of the string.
pub unescape_other :
    (h l x end : ℕ) → is_terminator end ≡ true → unescape h l ≡ decodes x → (h ≢ end) × (l ≢ end)
unescape_other h l x end hard e =
    let hex = unescape_hex h l x e in
    (
      λ k. hex.0 (ap fromhex k ∙ terminator-fromhex end hard),
      λ k. hex.1 (ap fromhex k ∙ terminator-fromhex end hard),
    )
