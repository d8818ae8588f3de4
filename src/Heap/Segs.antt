-- ===== src/Heap/Segs.antt =====
-- The two lists of heap.c: the blocks that follow one another in memory, and the chain of the free
-- ones, as segments from one address to another.
use apsyde.Heap.State.{header_size, write}
use apsyde.Common.{
  ℕ, suc, ◌+◌, ◌*◌, ◌≤◌, ◌<◌, ◌≡◌, refl, sym, ap, ◌∙◌, ◌≢◌, inl, inr, List, [], ◌∷◌, ◌++◌, arith,
  ◌==◌, if◌then◌else◌, ==_iff, ==_refl, ==_ne, Bool-cases, length,
}

unfoldable pub occurs : ℕ → List ℕ → ℕ
occurs x [] = 0
occurs x (y ∷ ys) = (if x == y then 1 else 0) + occurs x ys

-- The blocks at these addresses fill the memory from `a` to `e`.
abbrev pub Tiles : (ℕ → ℕ) → ℕ → List ℕ → ℕ → Type 0
Tiles size a [] e = a ≡ e
Tiles size a (b ∷ bs) e = (b ≡ a) × Tiles size (b + header_size + size b) bs e

-- The pointers lead from `p` through these addresses to `q`.
abbrev pub Chain : (ℕ → ℕ) → ℕ → List ℕ → ℕ → Type 0
Chain next p [] q = p ≡ q
Chain next p (f ∷ fs) q = (p ≡ f) × (f ≢ 0) × Chain next (next f) fs q

-- The last address of the list, or `p`.
abbrev pub last_or : ℕ → List ℕ → ℕ
last_or p [] = p
last_or p (x ∷ xs) = last_or x xs

abbrev pub AllOnce : List ℕ → Type 0
AllOnce xs = (x : ℕ) → occurs x xs ≤ 1

pub occurs-append : (x : ℕ) (xs ys : List ℕ) → occurs x (xs ++ ys) ≡ occurs x xs + occurs x ys
unfolding occurs
occurs-append x [] ys = omega arith
occurs-append x (y ∷ xs) ys = omega (arith, occurs-append x xs ys)

pub occurs_self : (x : ℕ) (xs : List ℕ) → occurs x (x ∷ xs) ≡ suc (occurs x xs)
unfolding occurs
occurs_self x xs = ground (arith, ==_refl x)

pub occurs-cons : (x y : ℕ) (xs : List ℕ) → occurs x xs ≤ occurs x (y ∷ xs)
unfolding occurs
occurs-cons x y xs = omega arith

pub occurs-ne : (x y : ℕ) (xs : List ℕ) → x ≢ y → occurs x (y ∷ xs) ≡ occurs x xs
unfolding occurs
occurs-ne x y xs h = ground (arith, ==_ne x y h)

pub occurs-last_or : (p : ℕ) (xs : List ℕ) → 0 < occurs (last_or p xs) (p ∷ xs)
occurs-last_or p [] = omega (arith, occurs_self p [])
occurs-last_or p (x ∷ xs) =
    omega (arith, occurs-last_or x xs, occurs-cons (last_or x xs) p (x ∷ xs))

-- The list around one of its elements.
pub occurs-split :
    (x : ℕ) (bs : List ℕ) → 0 < occurs x bs → (xs : List ℕ) × (ys : List ℕ) × (bs ≡ xs ++ (x ∷ ys))
unfolding occurs
occurs-split x [] h = absurd (omega arith)
occurs-split x (b ∷ bs) h = elim (Bool-cases (x == b)) [
  | inl e ↦ ([], bs, ap (λ t. t ∷ bs) (sym ((==_iff x b).0 e)))
  | inr e ↦ let r = occurs-split x bs (ground (arith, h, e)) in (b ∷ r.0, r.1, ap (λ l. b ∷ l) r.2)
]

pub write_self : (f : ℕ → ℕ) (a v : ℕ) → write f a v a ≡ v
write_self f a v = rw (==_refl a) refl

pub write-ne : (f : ℕ → ℕ) (a v x : ℕ) → x ≢ a → write f a v x ≡ f x
write-ne f a v x h = rw (==_ne x a h) refl

-- Segments in a row are one segment, and a segment is cut anywhere.
pub Tiles-append :
    (size : ℕ → ℕ) (a : ℕ) (xs : List ℕ) (m : ℕ) (ys : List ℕ) (e : ℕ)
    → Tiles size a xs m
    → Tiles size m ys e
    → Tiles size a (xs ++ ys) e
Tiles-append size a [] m ys e h k = rw h k
Tiles-append size a (x ∷ xs) m ys e h k =
    (h.0, Tiles-append size (x + header_size + size x) xs m ys e h.1 k)

pub Tiles-split :
    (size : ℕ → ℕ) (a : ℕ) (xs ys : List ℕ) (e : ℕ)
    → Tiles size a (xs ++ ys) e
    → (m : ℕ) × Tiles size a xs m × Tiles size m ys e
Tiles-split size a [] ys e h = (a, refl, h)
Tiles-split size a (x ∷ xs) ys e h =
    let r = Tiles-split size (x + header_size + size x) xs ys e h.1 in (r.0, (h.0, r.1), r.2)

pub Tiles-le :
    (size : ℕ → ℕ) (a : ℕ) (bs : List ℕ) (e : ℕ)
    → Tiles size a bs e
    → a + header_size * length bs ≤ e
Tiles-le size a [] e h = omega (arith, h)
Tiles-le size a (b ∷ bs) e h = omega (arith, h.0, Tiles-le size (b + header_size + size b) bs e h.1)

-- No block starts outside of the segment.
pub Tiles-below :
    (size : ℕ → ℕ) (a : ℕ) (bs : List ℕ) (e x : ℕ) → Tiles size a bs e → x < a → occurs x bs ≡ 0
unfolding occurs
Tiles-below size a [] e x h l = refl
Tiles-below size a (b ∷ bs) e x h l = ground (
  arith,
  ==_ne x b (λ q. omega (arith, q, h.0, l)),
  Tiles-below size (b + header_size + size b) bs e x h.1 (omega (arith, h.0, l)),
)

pub Tiles-above :
    (size : ℕ → ℕ) (a : ℕ) (bs : List ℕ) (e x : ℕ) → Tiles size a bs e → e ≤ x → occurs x bs ≡ 0
unfolding occurs
Tiles-above size a [] e x h l = refl
Tiles-above size a (b ∷ bs) e x h l = ground (
  arith,
  ==_ne x b (λ q. omega (arith, q, l, Tiles-le size a (b ∷ bs) e h)),
  Tiles-above size (b + header_size + size b) bs e x h.1 l,
)

pub Tiles-AllOnce : (size : ℕ → ℕ) (a : ℕ) (bs : List ℕ) (e : ℕ) → Tiles size a bs e → AllOnce bs
unfolding occurs
Tiles-AllOnce size a [] e h x = omega arith
Tiles-AllOnce size a (b ∷ bs) e h x = elim (Bool-cases (x == b)) [
  | inl q ↦
      let x_is : x ≡ b = (==_iff x b).0 q in
      ground (arith, Tiles-below size (b + header_size + size b) bs e x h.1 (omega (arith, x_is)))
  | inr q ↦ ground (arith, q, Tiles-AllOnce size (b + header_size + size b) bs e h.1 x)
]

-- A header written at an address that is not in the segment leaves the segment.
pub Tiles-write :
    (size : ℕ → ℕ) (y v a : ℕ) (bs : List ℕ) (e : ℕ)
    → occurs y bs ≡ 0
    → Tiles size a bs e
    → Tiles (write size y v) a bs e
unfolding occurs
Tiles-write size y v a [] e n h = h
Tiles-write size y v a (b ∷ bs) e n h = elim (Bool-cases (b == y)) [
  | inl q ↦ absurd (ground (arith, q, n))
  | inr q ↦
      (h.0, rw q (Tiles-write size y v (b + header_size + size b) bs e (omega (arith, n)) h.1))
]

pub Chain-append :
    (next : ℕ → ℕ) (p : ℕ) (xs : List ℕ) (m : ℕ) (ys : List ℕ) (q : ℕ)
    → Chain next p xs m
    → Chain next m ys q
    → Chain next p (xs ++ ys) q
Chain-append next p [] m ys q h k = rw h k
Chain-append next p (x ∷ xs) m ys q h k = (h.0, h.1, Chain-append next (next x) xs m ys q h.2 k)

pub Chain-split :
    (next : ℕ → ℕ) (p : ℕ) (xs ys : List ℕ) (q : ℕ)
    → Chain next p (xs ++ ys) q
    → (m : ℕ) × Chain next p xs m × Chain next m ys q
Chain-split next p [] ys q h = (p, refl, h)
Chain-split next p (x ∷ xs) ys q h =
    let r = Chain-split next (next x) xs ys q h.2 in (r.0, (h.0, h.1, r.1), r.2)

pub Chain-write :
    (next : ℕ → ℕ) (y v p : ℕ) (fs : List ℕ) (q : ℕ)
    → occurs y fs ≡ 0
    → Chain next p fs q
    → Chain (write next y v) p fs q
unfolding occurs
Chain-write next y v p [] q n h = h
Chain-write next y v p (f ∷ fs) q n h = elim (Bool-cases (f == y)) [
  | inl t ↦ absurd (ground (arith, t, n))
  | inr t ↦ (
    h.0,
    h.1,
    rw (write-ne next y v f (λ e. ground (arith, t, e)))
        (Chain-write next y v (next f) fs q (omega (arith, n)) h.2),
  )
]

-- The last pointer of a segment is turned to `v`.
pub Chain-last :
    (next : ℕ → ℕ) (v y : ℕ) (ys : List ℕ) (q : ℕ)
    → AllOnce (y ∷ ys)
    → Chain next (next y) ys q
    → Chain (write next (last_or y ys) v) (write next (last_or y ys) v y) ys v
Chain-last next v y [] q once h = write_self next y v
Chain-last next v y (x ∷ xs) q once h =
    let far : y ≢ last_or x xs = λ e. omega (
      arith,
      once (last_or x xs),
      occurs-last_or x xs,
      occurs_self (last_or x xs) (x ∷ xs),
      ap (λ t. occurs (last_or x xs) (t ∷ (x ∷ xs))) e,
    ) in
    let here : write next (last_or x xs) v y ≡ next y = write-ne next (last_or x xs) v y far in
    (
      here ∙ h.0,
      h.1,
      Chain-last next v x xs q (λ z. omega (arith, once z, occurs-cons z y (x ∷ xs))) h.2,
    )
