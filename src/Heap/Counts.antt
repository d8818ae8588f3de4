-- ===== src/Heap/Counts.antt =====
-- Facts on the lists of heap.c that count where an address occurs.
use apsyde.Heap.Segs.{
  occurs, occurs-split, occurs_self, occurs-cons, occurs-append, Tiles, Tiles-split, Tiles-le,
  Tiles-below, Tiles-above,
}
use apsyde.Heap.State.{header_size}
use apsyde.Common.{
  ℕ, suc, ◌+◌, ◌≤◌, ◌<◌, ◌≡◌, sym, inl, inr, List, [], ◌∷◌, ◌++◌, arith, ◌==◌, if◌then◌else◌,
  ==_iff, Bool-cases, length, All, length-append, ap,
}

-- What holds at each address that occurs holds of all elements.
pub All-occurs : (P : ℕ → Type 0) (xs : List ℕ) → ((x : ℕ) → 0 < occurs x xs → P x) → All P xs
All-occurs P [] h = tt
All-occurs P (x ∷ xs) h = (
  h x (omega (arith, occurs_self x xs)),
  All-occurs P xs (λ y k. h y (omega (arith, k, occurs-cons y x xs))),
)

pub All-occurs_at : (P : ℕ → Type 0) (x : ℕ) (xs : List ℕ) → All P xs → 0 < occurs x xs → P x
unfolding occurs
All-occurs_at P x [] h k = absurd (omega arith)
All-occurs_at P x (y ∷ ys) h k = elim (Bool-cases (x == y)) [
  | inl e ↦ rw ((==_iff x y).0 e) (h.0)
  | inr e ↦ All-occurs_at P x ys (h.1) (ground (arith, e, k))
]

-- One element more in the middle.
pub occurs-middle :
    (x y : ℕ) (xs ys : List ℕ)
    → occurs x (xs ++ (y ∷ ys)) ≡ (if x == y then 1 else 0) + occurs x (xs ++ ys)
unfolding occurs
occurs-middle x y xs ys = omega (arith, occurs-append x xs (y ∷ ys), occurs-append x xs ys)

pub length-middle : (y : ℕ) (xs ys : List ℕ) → length (xs ++ (y ∷ ys)) ≡ suc (length (xs ++ ys))
length-middle y xs ys = omega (arith, length-append xs (y ∷ ys), length-append xs ys)

-- A list that has nothing more often than another is not longer.
pub occurs-length : (xs ys : List ℕ) → ((x : ℕ) → occurs x xs ≤ occurs x ys) → length xs ≤ length ys
occurs-length [] ys h = omega arith
occurs-length (x ∷ xs) ys h =
    let s = occurs-split x ys (omega (arith, h x, occurs_self x xs)) in
    let shorter = occurs-length xs (s.0 ++ s.1) (λ z.
      omega (
        arith,
        h z,
        occurs-middle z x [] xs,
        occurs-middle z x (s.0) (s.1),
        ap (occurs z) (s.2),
      )) in
    omega (arith, shorter, length-middle x (s.0) (s.1), ap (λ l. length l) (s.2))

-- The block in the middle of a segment: the segments around it, and its bounds.
pub record Cut (size : ℕ → ℕ) (a : ℕ) (xs : List ℕ) (b : ℕ) (ys : List ℕ) (e : ℕ) : Type 0 where
  pub before : Tiles size a xs b
  pub after : Tiles size (b + header_size + size b) ys e
  pub low : a ≤ b
  pub high : b + header_size + size b ≤ e
  pub only_before : occurs b xs ≡ 0
  pub only_after : occurs b ys ≡ 0

pub Tiles-Cut :
    (size : ℕ → ℕ) (a : ℕ) (xs : List ℕ) (b : ℕ) (ys : List ℕ) (e : ℕ)
    → Tiles size a (xs ++ (b ∷ ys)) e
    → Cut size a xs b ys e
Tiles-Cut size a xs b ys e h =
    let p = Tiles-split size a xs (b ∷ ys) e h in
    let m_is : p.0 ≡ b = sym (p.2.0) in
    let front : Tiles size a xs b = rw (sym m_is) (p.1) in
    let back = p.2.1 in
    record {
      before = front;
      after = back;
      low = omega (arith, Tiles-le size a xs b front);
      high = omega (arith, Tiles-le size (b + header_size + size b) ys e back);
      only_before = Tiles-above size a xs b b front (omega arith);
      only_after = Tiles-below size (b + header_size + size b) ys e b back (omega arith);
    }
