-- ===== src/Heap/Search.antt =====
-- The loops of heap_alloc and heap_free over the chain of free blocks of heap.c.
use apsyde.Heap.State.{Heap, heap_magic_free, write}
use apsyde.Heap.Ops.{Found, fit, missing, find_fit, find_prev, relink}
use apsyde.Heap.Segs.{
  occurs, Chain, last_or, AllOnce, occurs-append, occurs_self, occurs-cons, occurs-last_or,
  Chain-split, Chain-append, Chain-write, Chain-last,
}
use apsyde.Pmm.State.{null}
use apsyde.Common.{
  ℕ, zero, suc, ◌≤◌, ◌<◌, ◌≡◌, refl, sym, ap, ◌∙◌, ◌≢◌, ◌⊎◌, inl, inr, true, false, some, List, [],
  ◌∷◌, ◌++◌, arith, leb, ◌==◌, ==_iff, ==_refl, ==_ne, Bool-cases, length, All, if-both, Option,
  none, if◌then◌else◌,
}

-- A first block of the list that is large enough, and what stands around it.
pub record Fit (h : Heap) (aligned prev : ℕ) (fs : List ℕ) (r : Found) : Type 0 where
  pub before : List ℕ
  pub block : ℕ
  pub after : List ℕ
  pub split : fs ≡ before ++ (block ∷ after)
  pub small : All (λ f. h.size f < aligned) before
  pub enough : aligned ≤ h.size block
  pub result : r ≡ fit (last_or prev before) block

-- The search ends at the first block that is large enough, or finds that there is none.
pub find_fit-cases :
    (h : Heap) (aligned : ℕ) (fs : List ℕ) (fuel prev b : ℕ)
    → Chain h.next_free b fs null
    → All (λ f. h.magic f ≡ heap_magic_free) fs
    → length fs < fuel
    → ((find_fit fuel h aligned prev b ≡ missing) × All (λ f. h.size f < aligned) fs)
      ⊎ Fit h aligned prev fs (find_fit fuel h aligned prev b)
unfolding find_fit
find_fit-cases h aligned fs zero prev b c m l = absurd (omega (arith, l))
find_fit-cases h aligned [] (suc fuel) prev b c m l = inl (rw c refl, tt)
find_fit-cases h aligned (f ∷ fs) (suc fuel) prev b c m l =
    let b_there : (b == null) ≡ false = ==_ne b null (λ e. c.1 (sym c.0 ∙ e)) in
    let b_free : (h.magic b == heap_magic_free) ≡ true =
      (==_iff (h.magic b) heap_magic_free).1 (ap h.magic c.0 ∙ m.0) in
    let next_is : Chain h.next_free (h.next_free b) fs null = rw (c.0) (c.2) in
    let r = find_fit-cases h aligned fs fuel b (h.next_free b) next_is (m.1) (omega (arith, l)) in
    rw (b_there, b_free)
      (elim (Bool-cases (leb aligned (h.size b))) [
        | inl e ↦ inr record {
          before = [];
          block = b;
          after = fs;
          split = ap (λ t. t ∷ fs) (sym c.0);
          small = tt;
          enough = ground (arith, e);
          result = rw e refl;
        }
        | inr e ↦
            let b_small : h.size f < aligned = ground (arith, e, c.0, ap h.size c.0) in
            rw e (elim r [
              | inl (q, s) ↦ inl (q, (b_small, s))
              | inr q ↦ inr record {
                before = f ∷ q.before;
                block = q.block;
                after = q.after;
                split = ap (λ t. f ∷ t) q.split;
                small = (b_small, q.small);
                enough = q.enough;
                result = q.result ∙ ap (λ t. fit (last_or t q.before) q.block) c.0;
              }
            ])
      ])

-- The first block of the list that is large enough.
unfoldable pub first_fit : (ℕ → ℕ) → ℕ → List ℕ → Option ℕ
first_fit size al [] = none
first_fit size al (f ∷ fs) = if leb al (size f) then some f else first_fit size al fs

first_fit-append :
    (size : ℕ → ℕ) (al : ℕ) (l : List ℕ) (b : ℕ) (r : List ℕ)
    → All (λ f. size f < al) l
    → al ≤ size b
    → first_fit size al (l ++ (b ∷ r)) ≡ some b
unfolding first_fit
first_fit-append size al [] b r s e = ground (arith, e)
first_fit-append size al (f ∷ l) b r s e =
    ground (arith, s.0, first_fit-append size al l b r (s.1) e)

pub first_fit-none :
    (size : ℕ → ℕ) (al : ℕ) (l : List ℕ) → All (λ f. size f < al) l → first_fit size al l ≡ none
unfolding first_fit
first_fit-none size al [] s = refl
first_fit-none size al (f ∷ l) s = ground (arith, s.0, first_fit-none size al l (s.1))

pub Fit-first :
    (h : Heap) (al prev : ℕ) (fs : List ℕ) (r : Found) (c : Fit h al prev fs r)
    → first_fit h.size al fs ≡ some c.block
Fit-first h al prev fs r c =
    ap (first_fit h.size al) c.split
    ∙ first_fit-append h.size al c.before c.block c.after c.small c.enough

-- The search for the block before `x` finds it.
pub find_prev_lem :
    (next : ℕ → ℕ) (x y : ℕ) (ys : List ℕ) (fuel : ℕ)
    → y ≢ null
    → Chain next (next y) ys x
    → occurs x ys ≡ 0
    → length ys < fuel
    → find_prev fuel next x y ≡ some (last_or y ys)
unfolding find_prev
find_prev_lem next x y ys zero n c o l = absurd (omega (arith, l))
find_prev_lem next x y [] (suc fuel) n c o l = rw (==_ne y null n, c, ==_refl x) refl
find_prev_lem next x y (z ∷ zs) (suc fuel) n c o l =
    let z_other : (next y == x) ≡ false =
      ==_ne (next y) x
        (λ e. omega (arith, o, occurs_self x zs, ap (λ t. occurs x (t ∷ zs)) (sym c.0 ∙ e))) in
    rw (==_ne y null n, z_other, c.0)
      (find_prev_lem next x z zs fuel (c.1) (c.2) (omega (arith, o, occurs-cons x z zs))
        (omega (arith, l)))

pub last_or-there :
    (next : ℕ → ℕ) (y : ℕ) (ys : List ℕ) (q : ℕ)
    → y ≢ null
    → Chain next (next y) ys q
    → last_or y ys ≢ null
last_or-there next y [] q n c = n
last_or-there next y (z ∷ zs) q n c = last_or-there next z zs q (c.1) (c.2)

-- Relinking the element before `x` puts the chain from `v` in the place of `x` and what follows.
pub relink-Chain :
    (h : Heap) (before tail after : List ℕ) (x v : ℕ)
    → Chain h.next_free h.free_list (before ++ (x ∷ after)) null
    → AllOnce (before ++ tail)
    → Chain h.next_free v tail null
    → Chain
        (relink (last_or null before) v h).next_free
        (relink (last_or null before) v h).free_list
        (before ++ tail)
        null
unfolding relink
relink-Chain h [] tail after x v c once t = t
relink-Chain h (y ∷ ys) tail after x v c once t =
    let parts = Chain-split h.next_free (h.next_free y) ys (x ∷ after) null (c.2) in
    let prev = last_or y ys in
    let last_in = occurs-last_or y ys in
    let prev_far : occurs prev tail ≡ 0 =
      omega (arith, once prev, occurs-append prev (y ∷ ys) tail, last_in) in
    let front_once : AllOnce (y ∷ ys) = λ z. omega (arith, once z, occurs-append z (y ∷ ys) tail) in
    let prev_there = last_or-there h.next_free y ys (parts.0) (c.1) (parts.1) in
    if-both (λ (g : Heap). Chain g.next_free g.free_list ((y ∷ ys) ++ tail) null)
      (last_or null (y ∷ ys) == null) record h { free_list = v }
      record h { next_free = write h.next_free prev v }
      (λ e. absurd (prev_there ((==_iff prev null).0 e)))
      (λ e. (
        c.0,
        c.1,
        Chain-append (write h.next_free prev v) (write h.next_free prev v y) ys v tail null
            (Chain-last h.next_free v y ys (parts.0) front_once (parts.1))
            (Chain-write h.next_free prev v v tail null prev_far t),
      ))
