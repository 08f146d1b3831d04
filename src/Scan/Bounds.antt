-- ===== src/Scan/Bounds.antt =====
-- The scan stays inside a terminated string, and decoding in place never overtakes reading.
use bt_server.Prelude.{
  ℕ, ◌+◌, ◌≤◌, ◌≡◌, ◌⊎◌, inl, inr, refl, sym, ap, List, [], ◌∷◌, Bool, true, false, ◌||◌, arith,
  ◌==◌, if◌then◌else◌, length, Bool-cases,
}
use mathlib.Core.Path.{subst, ◌∙◌}
use mathlib.Core.Bool.{false≢true}
use bt_server.Scan.{
  continues, fromhex, Scan, scanned, failed, ended, overrun, push, stop, Escape, decodes,
  bad_escape, unescape, scan_loop, scan_urlencoded_query,
}
use bt_server.Scan.Terminators.{is_terminator, terminator-stops, unescape_other}
use bt_server.Scan.Decode.{
  IsFlag, scan_loop-stop, scan_loop-plain, scan_loop-escape, scan_loop-bad_escape,
}

-- The characters that are left and those that were decoded come from the string, one each at least.
abbrev pub InPlace : List ℕ → Scan → Type 0
InPlace s (scanned rest decoded) = length rest + length decoded ≤ length s
InPlace s failed = Unit
InPlace s ended = Unit
InPlace s overrun = Unit

stop-InPlace : (flags : ℕ) (b : Bool) (c : ℕ) (s : List ℕ) → InPlace (c ∷ s) (stop flags b c s)
unfolding stop
stop-InPlace flags b c s = ground arith

push-InPlace :
    (c : ℕ) (s t : List ℕ) (r : Scan) → length t + 1 ≤ length s → InPlace t r → InPlace s (push c r)
push-InPlace c s t (scanned rest decoded) h k = omega arith
push-InPlace c s t failed h k = tt
push-InPlace c s t ended h k = tt
push-InPlace c s t overrun h k = tt

Escape-cases : (e : Escape) → ((b : ℕ) × (e ≡ decodes b)) ⊎ (e ≡ bad_escape)
Escape-cases (decodes b) = inl (b, refl)
Escape-cases bad_escape = inr refl

-- A round with three characters or more at hand, by its four ways.
pub scan_round :
    (P : Scan → Type 0) (flags : ℕ) (b : Bool) (c h l : ℕ) (s : List ℕ)
    → (continues flags c ≡ false → P (stop flags b c (h ∷ l ∷ s)))
    → (continues flags c ≡ true
        → (c == b'%') ≡ false
        → P (push c (scan_loop flags false (h ∷ l ∷ s))))
    → ((x : ℕ)
        → continues flags c ≡ true
        → (c == b'%') ≡ true
        → unescape h l ≡ decodes x
        → P (push x (scan_loop flags false s)))
    → P failed
    → P (scan_loop flags b (c ∷ h ∷ l ∷ s))
scan_round P flags b c h l s at_stop plain decoded bad = elim (Bool-cases (continues flags c)) [
  | inr e ↦ subst P (sym (scan_loop-stop flags b c (h ∷ l ∷ s) e)) (at_stop e)
  | inl go ↦ elim (Bool-cases (c == b'%')) [
    | inr other ↦ subst P (sym (scan_loop-plain flags b c h (l ∷ s) go other)) (plain go other)
    | inl percent ↦ elim (Escape-cases (unescape h l)) [
      | inl (x, e) ↦
          subst P (sym (scan_loop-escape flags b c h l x s go percent e)) (decoded x go percent e)
      | inr e ↦ subst P (sym (scan_loop-bad_escape flags b c h l s go percent e)) bad
    ]
  ]
]

scan_loop-InPlace : (flags : ℕ) (b : Bool) (s : List ℕ) → InPlace s (scan_loop flags b s)
unfolding scan_loop
scan_loop-InPlace flags b [] = tt
scan_loop-InPlace flags b (c ∷ []) = ground (arith, stop-InPlace flags b c [])
scan_loop-InPlace flags b (c ∷ h ∷ []) = ground (
  arith,
  stop-InPlace flags b c (h ∷ []),
  push-InPlace c (c ∷ h ∷ []) (h ∷ []) (scan_loop flags false (h ∷ [])),
  scan_loop-InPlace flags false (h ∷ []),
)
scan_loop-InPlace flags b (c ∷ h ∷ l ∷ s) =
    scan_round (InPlace (c ∷ h ∷ l ∷ s)) flags b c h l s (λ e. stop-InPlace flags b c (h ∷ l ∷ s))
      (λ e q.
        push-InPlace c (c ∷ h ∷ l ∷ s) (h ∷ l ∷ s) _ (omega arith)
          (scan_loop-InPlace flags false (h ∷ l ∷ s)))
      (λ x k m e.
        push-InPlace x (c ∷ h ∷ l ∷ s) s _ (omega arith) (scan_loop-InPlace flags false s))
      tt

-- A string with this character.
abbrev pub HasEnd : ℕ → List ℕ → Type 0
HasEnd end [] = ⊥
HasEnd end (c ∷ s) = (c ≡ end) ⊎ HasEnd end s

-- No read behind the buffer.
abbrev pub IsInside : ℕ → Scan → Type 0
IsInside end (scanned rest decoded) = HasEnd end rest
IsInside end failed = Unit
IsInside end ended = Unit
IsInside end overrun = ⊥

module _ (end : ℕ) (hard : is_terminator end ≡ true) where
  IsInside-if :
      (b : Bool) (x y : Scan) → IsInside end x → IsInside end y → IsInside end (if b then x else y)
  IsInside-if true x y p q = p
  IsInside-if false x y p q = q

  stop_here :
      (b : Bool) (c : ℕ) (s : List ℕ)
      → HasEnd end (c ∷ s)
      → IsInside end (if b then ended else scanned (c ∷ s) [])
  stop_here true c s h = tt
  stop_here false c s h = h

  stop_terminator :
      (flags : ℕ) (b : Bool) (s : List ℕ)
      → stop flags b end s ≡ (if b then ended else scanned (end ∷ s) [])
  unfolding stop
  stop_terminator flags b s = rw hard refl

  stop_after :
      (flags : ℕ) (b : Bool) (c : ℕ) (s : List ℕ) → HasEnd end s → IsInside end (stop flags b c s)
  unfolding stop
  stop_after flags b c s h =
      let again : HasEnd end (c ∷ s) = inr h in
      IsInside-if (c == 0 || c == b'\r' || c == b'\n' || c == b' ') _ _ (stop_here b c s again) (
        IsInside-if (c == b'?') _ _ (IsInside-if (flags == 1) _ _ h tt) (
          IsInside-if (c == b'=') _ _ (IsInside-if (flags == 2) _ _ h tt) (
            IsInside-if (c == b'&') _ _
              (IsInside-if (flags == 1) _ _ tt (IsInside-if (flags == 2) _ _ again h)) tt)))

  stop-IsInside :
      (flags : ℕ) (b : Bool) (c : ℕ) (s : List ℕ)
      → HasEnd end (c ∷ s)
      → IsInside end (stop flags b c s)
  stop-IsInside flags b c s (inl z) =
      rw (z, stop_terminator flags b s, IsInside) (stop_here b end s (inl refl))
  stop-IsInside flags b c s (inr h) = stop_after flags b c s h

  push-IsInside : (c : ℕ) (r : Scan) → IsInside end r → IsInside end (push c r)
  push-IsInside c (scanned rest decoded) h = h
  push-IsInside c failed h = tt
  push-IsInside c ended h = tt
  push-IsInside c overrun h = h

  -- The character is not the end of the string, so the end is further on.
  end_later :
      (flags c : ℕ) (s : List ℕ)
      → IsFlag flags
      → continues flags c ≡ true
      → HasEnd end (c ∷ s)
      → HasEnd end s
  end_later flags c s f e (inl z) =
      absurd
        (false≢true (sym (terminator-stops flags end hard f) ∙ ap (continues flags) (sym z) ∙ e))
  end_later flags c s f e (inr h) = h

  escape_end :
      (h l x : ℕ) (s : List ℕ) → unescape h l ≡ decodes x → HasEnd end (h ∷ l ∷ s) → HasEnd end s
  escape_end h l x s e (inl z) = absurd ((unescape_other h l x end hard e).0 z)
  escape_end h l x s e (inr (inl z)) = absurd ((unescape_other h l x end hard e).1 z)
  escape_end h l x s e (inr (inr k)) = k

  last_zero : (x : ℕ) → HasEnd end (x ∷ []) → x ≡ end
  last_zero x (inl z) = z
  last_zero x (inr h) = absurd h

  scan_loop-cut :
      (flags : ℕ) (b : Bool) (c x : ℕ)
      → continues flags c ≡ true
      → (c == b'%') ≡ true
      → x ≡ end
      → scan_loop flags b (c ∷ x ∷ []) ≡ failed
  unfolding scan_loop fromhex
  scan_loop-cut flags b c x k e z = ground arith

  scan_loop-IsInside :
      (flags : ℕ) (b : Bool) (s : List ℕ)
      → IsFlag flags
      → HasEnd end s
      → IsInside end (scan_loop flags b s)
  scan_loop-IsInside flags b [] f h = absurd h
  scan_loop-IsInside flags b (c ∷ []) f h = elim (Bool-cases (continues flags c)) [
    | inl go ↦ absurd (end_later flags c [] f go h)
    | inr e ↦
        subst (IsInside end) (sym (scan_loop-stop flags b c [] e)) (stop-IsInside flags b c [] h)
  ]
  scan_loop-IsInside flags b (c ∷ x ∷ []) f h =
      let rest = λ (e : continues flags c ≡ true).
        scan_loop-IsInside flags false (x ∷ []) f (end_later flags c (x ∷ []) f e h) in
      elim (Bool-cases (continues flags c)) [
        | inr e ↦
            subst (IsInside end) (sym (scan_loop-stop flags b c (x ∷ []) e))
              (stop-IsInside flags b c (x ∷ []) h)
        | inl go ↦ elim (Bool-cases (c == b'%')) [
          | inr other ↦
              subst (IsInside end) (sym (scan_loop-plain flags b c x [] go other))
                (push-IsInside c (scan_loop flags false (x ∷ [])) (rest go))
          | inl percent ↦
              subst (IsInside end)
                (sym (
                  scan_loop-cut flags b c x go percent
                    (last_zero x (end_later flags c (x ∷ []) f go h))))
                tt
        ]
      ]
  scan_loop-IsInside flags b (c ∷ x ∷ y ∷ s) f h =
      let plain = λ (e : continues flags c ≡ true).
        scan_loop-IsInside flags false (x ∷ y ∷ s) f (end_later flags c (x ∷ y ∷ s) f e h) in
      let decoded = λ (k : HasEnd end s). scan_loop-IsInside flags false s f k in
      scan_round (IsInside end) flags b c x y s (λ e. stop-IsInside flags b c (x ∷ y ∷ s) h)
        (λ e q. push-IsInside c _ (plain e))
        (λ z k m e.
          push-IsInside z _ (decoded (escape_end x y z s e (end_later flags c (x ∷ y ∷ s) f k h))))
        tt

  -- On a string that ends with a 0, a space, a newline or a carriage return, `scan_urlencoded_query`
  -- reads nothing behind that, leaves the next position in front of it, and decodes at most as many
  -- characters as it has passed: so it can decode in place.
  pub scan_urlencoded_query-IsInside :
      (flags : ℕ) (s : List ℕ)
      → IsFlag flags
      → HasEnd end s
      → IsInside end (scan_urlencoded_query flags s) × InPlace s (scan_urlencoded_query flags s)
  unfolding scan_urlencoded_query
  scan_urlencoded_query-IsInside flags s f h =
      (scan_loop-IsInside flags true s f h, scan_loop-InPlace flags true s)
