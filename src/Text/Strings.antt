-- ===== src/Text/Strings.antt =====
-- The comparison of strings and the copying of bytes of string.c.
use apsyde.Common.{
  ℕ, ◌≡◌, refl, ap₂, ◌≢◌, ◌↔◌, inl, inr, false, List, [], ◌∷◌, ◌==◌, ==_iff, ==_refl, Bool-cases,
  sym, ap, ◌∙◌, Bool, true, arith, ltb, if-both,
}
use apsyde.Text.{less, greater, strcmp, sign_of, equal, Sign}

is_equal : Sign → Bool
is_equal less = false
is_equal equal = true
is_equal greater = false

-- A sign that the test refuses is not `equal`.
is_equal-false : (g : Sign) → is_equal g ≡ false → g ≢ equal
unfolding is_equal
is_equal-false g no_sign e = ground (arith, no_sign, ap is_equal e)

sign_of-ne : (c d : ℕ) → (c == d) ≡ false → sign_of c d ≢ equal
unfolding sign_of is_equal
sign_of-ne c d ne = is_equal-false (sign_of c d) (
    if-both (λ g. is_equal g ≡ false) (ltb c d) _ _ (λ _. refl)
      (λ _.
        if-both (λ g. is_equal g ≡ false) (c == d) _ _ (λ same. absurd (ground (arith, ne, same)))
          (λ _. refl)))

-- strcmp gives 0 for strings with the same characters.
strcmp-same : (s : List ℕ) → strcmp s s ≡ equal
unfolding strcmp
strcmp-same [] = refl
strcmp-same (c ∷ s) = rw (==_refl c) (strcmp-same s)

strcmp-equal : (s t : List ℕ) → strcmp s t ≡ equal → s ≡ t
unfolding strcmp is_equal
strcmp-equal [] [] e = refl
strcmp-equal [] (d ∷ t) e = absurd (is_equal-false less refl e)
strcmp-equal (c ∷ s) [] e = absurd (is_equal-false greater refl e)
strcmp-equal (c ∷ s) (d ∷ t) e = elim (Bool-cases (c == d)) [
  | inl same ↦
      ap₂ (λ x l. x ∷ l) ((==_iff c d).0 same)
        (strcmp-equal s t
          (let step : strcmp (c ∷ s) (d ∷ t) ≡ strcmp s t = rw same refl in sym step ∙ e))
  | inr other ↦ absurd (
      sign_of-ne c d other
        (let step : strcmp (c ∷ s) (d ∷ t) ≡ sign_of c d = rw other refl in sym step ∙ e))
]

-- strcmp gives 0 exactly for strings with the same characters.
pub strcmp-equal_iff : (s t : List ℕ) → (strcmp s t ≡ equal) ↔ (s ≡ t)
strcmp-equal_iff s t = (strcmp-equal s t, λ e. rw e (strcmp-same t))
