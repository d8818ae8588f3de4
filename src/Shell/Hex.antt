-- ===== src/Shell/Hex.antt =====
-- parse_hex of shell.c reads the addresses that kprintf prints.
use apsyde.Common.Bits.{bit_or_shifted, bit_and_mask}
use apsyde.Shell.Command.{parse_hex, parse_hex_from, hex_digit, skip_spaces, skip_prefix}
use apsyde.Text.{emit_hex, nibbles_from, nibble_char}
use native.Mathlib.Nat.{div-div-eq-div-mul, div-le_self, pow-suc}
use apsyde.Common.{
  ℕ, zero, suc, ◌+◌, ◌*◌, ◌/◌, ◌^◌, ◌<◌, bit_or, ◌≡◌, sym, ap, ◌∙◌, ◌⊎◌, inl, inr, Bool, true, some,
  arith, ltb, Bool-cases, u64, ◌<<<◌, ◌%◌, bit_and, refl, false, not, ◌&&◌, [], ◌∷◌, ◌==◌, ==_iff,
  if-both, ◌>>>◌, List,
}

hex_digit-nibble_char : (d : ℕ) → d < 16 → hex_digit (nibble_char d) ≡ some d
unfolding hex_digit nibble_char
hex_digit-nibble_char d h = elim (Bool-cases (ltb d 10)) [
  | inl e ↦ rw e (ground (arith, e))
  | inr e ↦ rw e (ground (arith, e, h))
]

-- The number above the lowest `left` digits of `v`.
abbrev above : ℕ → ℕ → ℕ
above left v = v / 2 ^ (4 * left)

four : (left : ℕ) → 4 * suc left ≡ suc (suc (suc (suc (4 * left))))
four left = omega arith

skipped :
    (left v : ℕ) (started : Bool) (nib : ℕ)
    → (not started && (nib == 0)) ≡ true
    → (started ≡ true) ⊎ (above (suc left) v ≡ 0)
    → above (suc left) v ≡ 0
skipped left v true nib e s = absurd (ground (arith, e))
skipped left v false nib e (inl q) = absurd (ground (arith, q))
skipped left v false nib e (inr q) = q

pow16 : (left : ℕ) → 2 ^ (4 * suc left) ≡ 2 ^ (4 * left) * 16
pow16 left =
    let k = 4 * left in
    ap (λ t. 2 ^ t) (four left)
    ∙ omega (
      arith,
      pow-suc 2 k,
      pow-suc 2 (suc k),
      pow-suc 2 (suc (suc k)),
      pow-suc 2 (suc (suc (suc k))),
    )

above-step : (left v : ℕ) → above (suc left) v ≡ above left v / 16
above-step left v = ap (λ t. v / t) (pow16 left) ∙ sym (div-div-eq-div-mul v (2 ^ (4 * left)) 16)

push_digit : (v d : ℕ) → v < 2 ^ 60 → d < 16 → bit_or (u64 (v <<< 4)) d ≡ v * 16 + d
push_digit v d h k =
    let narrow : u64 (v <<< 4) ≡ v * 2 ^ 4 = omega (arith, h) in
    ap (λ t. bit_or t d) narrow ∙ bit_or_shifted 4 v d k

parse_step :
    (v c d : ℕ) (s : List ℕ)
    → hex_digit c ≡ some d
    → parse_hex_from v (c ∷ s) ≡ parse_hex_from (bit_or (u64 (v <<< 4)) d) s
unfolding parse_hex_from
parse_step v c d s e = rw (parse_hex_from, e) refl

-- The digits that are still to be printed complete what is read.
reads :
    (left v : ℕ) (started : Bool)
    → v < 2 ^ 64
    → (started ≡ true) ⊎ (above left v ≡ 0)
    → parse_hex_from (above left v) (nibbles_from left started v) ≡ v
unfolding parse_hex_from nibbles_from
reads zero v started h s = omega arith
reads (suc left) v started h s =
    let nib = bit_and (v >>> (4 * left)) 0xf in
    let nib_is : nib ≡ above left v % 16 = bit_and_mask 4 (above left v) in
    let small : nib < 16 = omega (arith, nib_is) in
    let step = above-step left v in
    let whole : above (suc left) v * 16 + nib ≡ above left v = omega (arith, step, nib_is) in
    let low : above (suc left) v < 2 ^ 60 =
      omega (arith, step, h, div-le_self v (2 ^ (4 * left))) in
    if-both (λ l. parse_hex_from (above (suc left) v) l ≡ v) (not started && (nib == 0))
      (nibbles_from left started v) (nibble_char nib ∷ nibbles_from left true v)
      (λ e.
        let zero_above : above (suc left) v ≡ 0 = skipped left v started nib e s in
        let zero_here : above left v ≡ 0 = ground (arith, whole, zero_above, e) in
        ap (λ t. parse_hex_from t (nibbles_from left started v)) (zero_above ∙ sym zero_here)
        ∙ reads left v started h (inr zero_here))
      (λ e.
        parse_step (above (suc left) v) (nibble_char nib) nib (nibbles_from left true v)
          (hex_digit-nibble_char nib small)
        ∙ (ap (λ t. parse_hex_from t (nibbles_from left true v))
              (push_digit (above (suc left) v) nib low small ∙ whole)
            ∙ reads left v true h (inl refl)))

-- parse_hex reads what emit_hex prints for a word of 64 bits as that word.
pub parse_hex-emit_hex : (v : ℕ) → v < 2 ^ 64 → parse_hex (emit_hex v) ≡ v
unfolding parse_hex emit_hex skip_spaces skip_prefix parse_hex_from hex_digit
parse_hex-emit_hex v h =
    if-both (λ l. parse_hex_from 0 l ≡ v) (v == 0) (b'0' ∷ []) (nibbles_from 16 false v)
      (λ e. sym ((==_iff v 0).0 e))
      (λ e.
        let none_above : above 16 v ≡ 0 = omega (arith, h) in
        ap (λ t. parse_hex_from t (nibbles_from 16 false v)) (sym none_above)
        ∙ reads 16 v false h (inr none_above))
