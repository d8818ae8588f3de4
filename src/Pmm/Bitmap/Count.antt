-- ===== src/Pmm/Bitmap/Count.antt =====
-- How many of the first `n` bits of the bitmap of pmm.c are clear.
use apsyde.Common.{ℕ, zero, suc, ◌+◌, ◌≤◌, ◌<◌, ◌≡◌, refl, true, false, arith, ltb, if◌then◌else◌}
use apsyde.Pmm.Bitmap.{Bitmap, bitmap_test, bitmap_set, bitmap_clear, set_bits}
use apsyde.Pmm.Bitmap.Laws.{IsBytes, test-set, test-clear, set-IsBytes}

unfoldable pub free_below : Bitmap → ℕ → ℕ
free_below bm zero = 0
free_below bm (suc n) = (if bitmap_test bm n then 0 else 1) + free_below bm n

pub free_below-le : (bm : Bitmap) (n : ℕ) → free_below bm n ≤ n
unfolding free_below
free_below-le bm zero = omega arith
free_below-le bm (suc n) = ground (arith, free_below-le bm n)

-- Setting a clear bit takes one from the count; a bit beyond the range takes none.
pub free_below-set :
    (bm : Bitmap) (n i : ℕ)
    → IsBytes bm
    → bitmap_test bm i ≡ false
    → free_below (bitmap_set bm i) n + (if ltb i n then 1 else 0) ≡ free_below bm n
unfolding free_below
free_below-set bm zero i b h = ground arith
free_below-set bm (suc n) i b h = ground (arith, free_below-set bm n i b h, test-set bm i n b)

pub free_below-clear :
    (bm : Bitmap) (n i : ℕ)
    → IsBytes bm
    → bitmap_test bm i ≡ true
    → free_below (bitmap_clear bm i) n ≡ free_below bm n + (if ltb i n then 1 else 0)
unfolding free_below
free_below-clear bm zero i b h = ground arith
free_below-clear bm (suc n) i b h = ground (arith, free_below-clear bm n i b h, test-clear bm i n b)

-- A run of clear bits inside the range, once set, takes its length from the count.
pub free_below-set_bits :
    (k start : ℕ) (bm : Bitmap) (n : ℕ)
    → IsBytes bm
    → start + k ≤ n
    → ((j : ℕ) → start ≤ j → j < start + k → bitmap_test bm j ≡ false)
    → free_below (set_bits k start bm) n + k ≡ free_below bm n
unfolding set_bits
free_below-set_bits zero start bm n b h clear = omega arith
free_below-set_bits (suc k) start bm n b h clear = ground (
  arith,
  free_below-set_bits k (start + 1) (bitmap_set bm start) n (set-IsBytes bm start b) (omega arith)
      (λ j p q. ground (arith, test-set bm start j b, clear j (omega arith) (omega arith))),
  free_below-set bm n start b (clear start (omega arith) (omega arith)),
)

-- With no clear bit in the range the count is zero.
pub free_below_none :
    (bm : Bitmap) (n : ℕ) → ((j : ℕ) → j < n → bitmap_test bm j ≡ true) → free_below bm n ≡ 0
unfolding free_below
free_below_none bm zero h = refl
free_below_none bm (suc n) h =
    ground (arith, h n (omega arith), free_below_none bm n (λ j p. h j (omega arith)))

pub free_below_ext :
    (a b : Bitmap) (n : ℕ)
    → ((j : ℕ) → j < n → bitmap_test a j ≡ bitmap_test b j)
    → free_below a n ≡ free_below b n
unfolding free_below
free_below_ext a b zero h = refl
free_below_ext a b (suc n) h =
    rw (h n (omega arith), free_below_ext a b n (λ j p. h j (omega arith)))
