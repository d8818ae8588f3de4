-- ===== src/Text/Numbers.antt =====
-- The decimal numbers of kprintf.c.
use native.Mathlib.Nat.{pow-suc}
use apsyde.Common.{
  ℕ, zero, suc, ◌+◌, ◌-◌, ◌*◌, ◌^◌, ◌<◌, ◌≡◌, refl, List, [], ◌∷◌, ◌++◌, arith, ◌==◌, if-both, ◌/◌,
  ◌%◌, ◌∙◌, ltb, reverse,
}
use apsyde.Text.{emit_dec, digits_of}

-- The number that decimal characters stand for, the highest digit first.
unfoldable pub decimal_value : ℕ → List ℕ → ℕ
decimal_value acc [] = acc
decimal_value acc (c ∷ s) = decimal_value (acc * 10 + (c - b'0')) s

decimal_value-snoc :
    (s : List ℕ) (acc c : ℕ)
    → decimal_value acc (s ++ (c ∷ [])) ≡ decimal_value acc s * 10 + (c - b'0')
unfolding decimal_value
decimal_value-snoc [] acc c = refl
decimal_value-snoc (d ∷ s) acc c = decimal_value-snoc s (acc * 10 + (d - b'0')) c

digits_of-value : (room v : ℕ) → v < 10 ^ room → decimal_value 0 (reverse (digits_of room v)) ≡ v
unfolding digits_of decimal_value
digits_of-value zero v h = omega (arith, h)
digits_of-value (suc room) v h =
    let ih = digits_of-value room (v / 10) (omega (arith, h, pow-suc 10 room)) in
    if-both (λ s. decimal_value 0 (reverse s) ≡ v) (ltb 0 v) _ _
      (λ _.
        decimal_value-snoc (reverse (digits_of room (v / 10))) 0 (b'0' + v % 10)
        ∙ omega (arith, ih))
      (λ none_left. ground (arith, none_left))

-- Read back as a decimal number, what emit_dec prints for a word of 64 bits is the word.
pub decimal_value-emit_dec : (v : ℕ) → v < 2 ^ 64 → decimal_value 0 (emit_dec v) ≡ v
unfolding emit_dec decimal_value
decimal_value-emit_dec v h =
    if-both (λ s. decimal_value 0 s ≡ v) (v == 0) _ _ (λ zero_is. ground (arith, zero_is))
      (λ _. digits_of-value 24 v (omega (arith, h)))
