-- ===== src/Pmm/Init/Marks.antt =====
-- What the marking passes of pmm_init in pmm.c leave in the bitmap and in the count.
use apsyde.Common.{
  ℕ, zero, suc, Bool, ◌<◌, Bool-cases, ◌≡◌, ◌&&◌, leb, ltb, ◌+◌, ◌^◌, inl, inr, true, false, not,
  arith, ◌==◌, if◌then◌else◌, u64, sub64,
}
use apsyde.Pmm.Init.{Marks, reserve_run, release_run}
use apsyde.Pmm.Bitmap.Laws.{in_run, IsBytes, test-set, set-IsBytes, clear-IsBytes, test-clear}
use apsyde.Pmm.Bitmap.{bitmap_test, bitmap_set, bitmap_clear}
use apsyde.Pmm.Bitmap.Count.{free_below, free_below-set, free_below-clear, free_below-le}

-- The count is that of the clear bits.
pub record Counted (cover : ℕ) (m : Marks) : Type 0 where
  pub bytes : IsBytes m.0
  pub count : m.1 ≡ free_below m.0 cover

abbrev reserve_step : ℕ → Marks → Marks
reserve_step b m = if not (bitmap_test m.0 b) then (bitmap_set m.0 b, sub64 m.1 1) else m

reserve_step-IsBytes : (b : ℕ) (m : Marks) → IsBytes m.0 → IsBytes (reserve_step b m).0
reserve_step-IsBytes b m v = elim (Bool-cases (bitmap_test m.0 b)) [
  | inl old ↦ rw old v
  | inr new ↦ rw new (set-IsBytes m.0 b v)
]

reserve_step-Counted :
    (cover b : ℕ) (m : Marks)
    → b < cover
    → cover < 2 ^ 32
    → Counted cover m
    → Counted cover (reserve_step b m)
reserve_step-Counted cover b m h w v = elim (Bool-cases (bitmap_test m.0 b)) [
  | inl old ↦ rw old v
  | inr new ↦ rw new (record {
    bytes = set-IsBytes m.0 b v.bytes;
    count =
        ground (arith, v.count, free_below-set m.0 cover b v.bytes new, free_below-le m.0 cover);
  })
]

reserve_step-test :
    (b : ℕ) (m : Marks) (j : ℕ)
    → IsBytes m.0
    → bitmap_test (reserve_step b m).0 j ≡ (if b == j then true else bitmap_test m.0 j)
reserve_step-test b m j v = ground (arith, test-set m.0 b j v)

-- `j` is one of the covered pages from bit `b` on.
abbrev pub covers : ℕ → ℕ → ℕ → ℕ → Bool
covers cover b n j = in_run b n j && ltb j cover

pub reserve_run-IsBytes :
    (cover n b : ℕ) (m : Marks) → IsBytes m.0 → IsBytes (reserve_run cover n b m).0
unfolding reserve_run
reserve_run-IsBytes cover zero b m v = v
reserve_run-IsBytes cover (suc n) b m v = elim (Bool-cases (leb cover b)) [
  | inl beyond ↦ rw beyond v
  | inr inside ↦
      rw inside
        (reserve_run-IsBytes cover n (u64 (b + 1)) (reserve_step b m) (reserve_step-IsBytes b m v))
]

pub reserve_run-Counted :
    (cover n b : ℕ) (m : Marks)
    → cover < 2 ^ 32
    → Counted cover m
    → Counted cover (reserve_run cover n b m)
unfolding reserve_run
reserve_run-Counted cover zero b m w v = v
reserve_run-Counted cover (suc n) b m w v = elim (Bool-cases (leb cover b)) [
  | inl beyond ↦ rw beyond v
  | inr inside ↦ rw inside (
      reserve_run-Counted cover n (u64 (b + 1)) (reserve_step b m) w
        (reserve_step-Counted cover b m (ground arith) w v))
]

pub reserve_run-test :
    (cover n b : ℕ) (m : Marks) (j : ℕ)
    → cover < 2 ^ 32
    → IsBytes m.0
    → bitmap_test (reserve_run cover n b m).0 j
      ≡ (if covers cover b n j then true else bitmap_test m.0 j)
unfolding reserve_run
reserve_run-test cover zero b m j w v = ground arith
reserve_run-test cover (suc n) b m j w v = elim (Bool-cases (leb cover b)) [
  | inl beyond ↦ rw beyond (ground arith)
  | inr inside ↦ rw inside (
      ground (
        arith,
        reserve_run-test cover n (u64 (b + 1)) (reserve_step b m) j w (reserve_step-IsBytes b m v),
        reserve_step-test b m j v,
      ))
]

pub release_run-IsBytes :
    (cover n b : ℕ) (m : Marks) → IsBytes m.0 → IsBytes (release_run cover n b m).0
unfolding release_run
release_run-IsBytes cover zero b m v = v
release_run-IsBytes cover (suc n) b m v = elim (Bool-cases (leb cover b)) [
  | inl beyond ↦ rw beyond v
  | inr inside ↦ rw inside (release_run-IsBytes cover n (u64 (b + 1)) _ (clear-IsBytes m.0 b v))
]

pub release_run-test :
    (cover n b : ℕ) (m : Marks) (j : ℕ)
    → cover < 2 ^ 32
    → IsBytes m.0
    → bitmap_test (release_run cover n b m).0 j
      ≡ (if covers cover b n j then false else bitmap_test m.0 j)
unfolding release_run
release_run-test cover zero b m j w v = ground arith
release_run-test cover (suc n) b m j w v = elim (Bool-cases (leb cover b)) [
  | inl beyond ↦ rw beyond (ground arith)
  | inr inside ↦ rw inside (
      ground (
        arith,
        release_run-test cover n (u64 (b + 1)) (bitmap_clear m.0 b, u64 (m.1 + 1)) j w
            (clear-IsBytes m.0 b v),
        test-clear m.0 b j v,
      ))
]

-- Releasing counts every page of the run, so the count is right where all of them were used.
pub release_run-Counted :
    (cover n b : ℕ) (m : Marks)
    → cover < 2 ^ 32
    → Counted cover m
    → ((j : ℕ) → covers cover b n j ≡ true → bitmap_test m.0 j ≡ true)
    → Counted cover (release_run cover n b m)
unfolding release_run
release_run-Counted cover zero b m w v used = v
release_run-Counted cover (suc n) b m w v used = elim (Bool-cases (leb cover b)) [
  | inl beyond ↦ rw beyond v
  | inr inside ↦ rw inside (
      release_run-Counted cover n (u64 (b + 1)) (bitmap_clear m.0 b, u64 (m.1 + 1)) w
        (record {
          bytes = clear-IsBytes m.0 b v.bytes;
          count = ground (
            arith,
            v.count,
            free_below-clear m.0 cover b v.bytes (used b (ground arith)),
            free_below-le m.0 cover,
          );
        })
        (λ j h. ground (arith, used j, test-clear m.0 b j v.bytes)))
]
