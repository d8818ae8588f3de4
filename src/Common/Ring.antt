-- ===== src/Common/Ring.antt =====
-- The contents of a circular buffer: `n` items from index `h` on, going round at `size`.
use apsyde.Common.{
  ℕ, zero, suc, ◌+◌, ◌-◌, ◌%◌, ◌≤◌, ◌<◌, ◌≡◌, refl, ap, ap₂, ◌∙◌, ◌≢◌, ◌⊎◌, inl, inr, List, [], ◌∷◌,
  ◌++◌, arith, ltb, ◌==◌, if◌then◌else◌, ==_ne, Bool-cases, length, sym, ==_refl, rest,
}
use native.Mathlib.Nat.{mod-add-mod, mod-lt, mod-eq_of_lt, mod-eq-sub-mod}

-- A write to one cell of an array.
abbrev pub put {ℓ} : {A : Type ℓ} → (ℕ → A) → ℕ → A → ℕ → A
put buf i v j = if i == j then v else buf j

module _ {ℓ} {A : Type ℓ} (size : ℕ) where
  -- The items at the offsets `k`, `k + 1`, … from `h`.
  abbrev pub items : (ℕ → A) → ℕ → ℕ → ℕ → List A
  items buf h k zero = []
  items buf h k (suc n) = buf ((h + k) % size) ∷ items buf h (k + 1) n

  pub length-items : (buf : ℕ → A) (h k n : ℕ) → length (items buf h k n) ≡ n
  length-items buf h k zero = refl
  length-items buf h k (suc n) = ap suc (length-items buf h (k + 1) n)

  pub items-snoc :
      (buf : ℕ → A) (h k n : ℕ)
      → items buf h k (suc n) ≡ items buf h k n ++ (buf ((h + (k + n)) % size) ∷ [])
  items-snoc buf h k zero = ap (λ t. buf ((h + t) % size) ∷ []) (omega arith)
  items-snoc buf h k (suc n) =
      ap (λ (l : List A). buf ((h + k) % size) ∷ l)
        (items-snoc buf h (k + 1) n
          ∙ ap (λ t. items buf h (k + 1) n ++ (buf ((h + t) % size) ∷ [])) (omega arith))

  -- A write outside the window does not show in it.
  pub items-put_ne :
      (buf : ℕ → A) (h k n i : ℕ) (v : A)
      → ((t : ℕ) → k ≤ t → t < k + n → i ≢ (h + t) % size)
      → items (put buf i v) h k n ≡ items buf h k n
  items-put_ne buf h k zero i v ne = refl
  items-put_ne buf h k (suc n) i v ne =
      ap₂ ◌∷◌ (rw (==_ne i ((h + k) % size) (ne k (omega arith) (omega arith))) refl)
        (items-put_ne buf h (k + 1) n i v (λ t p q. ne t (omega arith) (omega arith)))

  -- The window that starts one later.
  pub items-next :
      (buf : ℕ → A) (h k n : ℕ) → items buf ((h + 1) % size) k n ≡ items buf h (k + 1) n
  items-next buf h k zero = refl
  items-next buf h k (suc n) =
      ap₂ ◌∷◌ (ap buf (mod-add-mod (h + 1) size k ∙ ap (λ t. t % size) (omega arith)))
        (items-next buf h (k + 1) n)

-- One subtraction brings an index that went round back into the range.
pub add-mod_cases :
    (size h k : ℕ)
    → h < size
    → k < size
    → ((h + k < size) × ((h + k) % size ≡ h + k)) ⊎ ((h + k) % size + size ≡ h + k)
add-mod_cases size h k hh hk = elim (Bool-cases (ltb (h + k) size)) [
  | inl e ↦ inl (ground arith, mod-eq_of_lt (ground arith))
  | inr e ↦ inr (
      ground (
        arith,
        mod-eq-sub-mod {n = h + k} {m = size} (ground arith),
        mod-eq_of_lt {n = h + k - size} {m = size} (ground arith),
      ))
]

add-size-mod : (size h : ℕ) → h < size → (h + size) % size ≡ h
add-size-mod size h hh = grind arith

-- Fewer than `size` steps do not come back to the same index.
pub offsets_ne : (size h t n : ℕ) → h < size → t < n → n < size → (h + n) % size ≢ (h + t) % size
offsets_ne size h t n hh p q e =
    omega (arith, add-mod_cases size h n hh q, add-mod_cases size h t hh (omega arith))

module _ {ℓ} {A : Type ℓ} (size : ℕ) where
  -- A write just past a window that is not full extends it.
  pub items-append :
      (buf : ℕ → A) (h n m i : ℕ) (v : A)
      → h < size
      → n < size
      → m ≡ suc n
      → i ≡ (h + (0 + n)) % size
      → items size (put buf i v) h 0 m ≡ items size buf h 0 n ++ (v ∷ [])
  items-append buf h n m i v hh hn e at =
      rw
        (
          e,
          items-snoc size (put buf i v) h 0 n,
          items-put_ne size buf h 0 n i v (λ t p q same.
              offsets_ne size h t n hh (omega arith) hn
                (ap (λ k. (h + k) % size) (omega arith) ∙ sym at ∙ same)),
          ← at,
          ==_refl i,
        )
        refl

  -- A write at the start of a full window drops its oldest item.
  pub items-slide :
      (buf : ℕ → A) (h n : ℕ) (v : A)
      → h < size
      → suc n ≡ size
      → items size (put buf h v) ((h + 1) % size) 0 (suc n)
        ≡ rest (items size buf h 0 (suc n)) ++ (v ∷ [])
  items-slide buf h n v hh e =
      items-append buf ((h + 1) % size) n (suc n) h v (mod-lt (h + 1) (omega arith)) (omega arith)
        refl around
      ∙ ap (λ (l : List A). l ++ (v ∷ [])) (items-next size buf h 0 n)
    where
      around : h ≡ ((h + 1) % size + (0 + n)) % size
      around = sym (
          mod-add-mod (h + 1) size (0 + n)
          ∙ ap (λ k. k % size) (omega arith)
          ∙ add-size-mod size h hh)
