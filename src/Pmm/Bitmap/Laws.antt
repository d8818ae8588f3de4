-- ===== src/Pmm/Bitmap/Laws.antt =====
-- What a test reads after a set or a clear of the bitmap of pmm.c.
use apsyde.Common.{
  ℕ, zero, suc, ◌+◌, ◌/◌, ◌%◌, ◌<◌, ◌≡◌, Bool, true, false, ◌&&◌, arith, ◌==◌, ltb, leb,
  if◌then◌else◌,
}
use apsyde.Common.Bits.{bit_at, bit_at-byte_set, bit_at-byte_clear, bit_and_mask}
use apsyde.Pmm.Bitmap.{Bitmap, bitmap_test, bitmap_set, bitmap_clear, set_bits}

abbrev pub IsBytes : Bitmap → Type 0
IsBytes bm = (j : ℕ) → bm j < 256

abbrev at : Bitmap → ℕ → ℕ
at bm i = bit_at (bm (i / 8)) (i % 8)

test-eq-at : (bm : Bitmap) (i : ℕ) → bitmap_test bm i ≡ (at bm i == 1)
unfolding bitmap_test
test-eq-at bm i = rw (bit_and_mask 3 i)

at-set :
    (bm : Bitmap) (i j : ℕ) → IsBytes bm → at (bitmap_set bm i) j ≡ (if i == j then 1 else at bm j)
unfolding bitmap_set
at-set bm i j b =
    rw (bit_and_mask 3 i) (ground (arith, bit_at-byte_set (bm (i / 8)) (i % 8) (j % 8) (b (i / 8))))

at-clear :
    (bm : Bitmap) (i j : ℕ)
    → IsBytes bm
    → at (bitmap_clear bm i) j ≡ (if i == j then 0 else at bm j)
unfolding bitmap_clear
at-clear bm i j b =
    rw (bit_and_mask 3 i)
      (ground (arith, bit_at-byte_clear (bm (i / 8)) (i % 8) (j % 8) (b (i / 8))))

pub test-set :
    (bm : Bitmap) (i j : ℕ)
    → IsBytes bm
    → bitmap_test (bitmap_set bm i) j ≡ (if i == j then true else bitmap_test bm j)
test-set bm i j b =
    rw (test-eq-at (bitmap_set bm i) j, test-eq-at bm j, at-set bm i j b) (ground arith)

pub test-clear :
    (bm : Bitmap) (i j : ℕ)
    → IsBytes bm
    → bitmap_test (bitmap_clear bm i) j ≡ (if i == j then false else bitmap_test bm j)
test-clear bm i j b =
    rw (test-eq-at (bitmap_clear bm i) j, test-eq-at bm j, at-clear bm i j b) (ground arith)

pub set-IsBytes : (bm : Bitmap) (i : ℕ) → IsBytes bm → IsBytes (bitmap_set bm i)
unfolding bitmap_set
set-IsBytes bm i b j = ground (arith, b j)

pub clear-IsBytes : (bm : Bitmap) (i : ℕ) → IsBytes bm → IsBytes (bitmap_clear bm i)
unfolding bitmap_clear
clear-IsBytes bm i b j = ground (arith, b j)

pub set_bits-IsBytes : (n start : ℕ) (bm : Bitmap) → IsBytes bm → IsBytes (set_bits n start bm)
unfolding set_bits
set_bits-IsBytes zero start bm b = b
set_bits-IsBytes (suc n) start bm b =
    set_bits-IsBytes n (start + 1) (bitmap_set bm start) (set-IsBytes bm start b)

-- `j` lies in the run of `n` indices from `start`.
abbrev pub in_run : ℕ → ℕ → ℕ → Bool
in_run start n j = leb start j && ltb j (start + n)

pub test-set_bits :
    (n start : ℕ) (bm : Bitmap) (j : ℕ)
    → IsBytes bm
    → bitmap_test (set_bits n start bm) j ≡ (if in_run start n j then true else bitmap_test bm j)
unfolding set_bits
test-set_bits zero start bm j b = ground arith
test-set_bits (suc n) start bm j b = ground (
  arith,
  test-set_bits n (start + 1) (bitmap_set bm start) j (set-IsBytes bm start b),
  test-set bm start j b,
)
