-- ===== src/Pmm/Bitmap.antt =====
-- The bitmap of pmm.c: bitmap_test, bitmap_set, bitmap_clear on `g_bitmap`, a byte array.
-- The array is a function from indices to bytes; that each index lies below its size is proved.
pub mod Laws
pub mod Count
use apsyde.Common.{
  ℕ, zero, suc, ◌+◌, ◌-◌, ◌^◌, Bool, bit_and, bit_or, u8, ◌<<<◌, ◌>>>◌, ◌==◌, if◌then◌else◌,
}

abbrev pub Bitmap : Type 0
Bitmap = ℕ → ℕ

-- `sizeof(g_bitmap)`
abbrev pub bitmap_size : ℕ
bitmap_size = 131072

abbrev pub store : Bitmap → ℕ → ℕ → Bitmap
store bm i v j = if i == j then v else bm j

-- The `int` 0 or 1 of the source is a Bool.
unfoldable pub bitmap_test : Bitmap → ℕ → Bool
bitmap_test bm idx = bit_and (bm (idx >>> 3) >>> bit_and idx 7) 1 == 1

unfoldable pub bitmap_set : Bitmap → ℕ → Bitmap
bitmap_set bm idx = store bm (idx >>> 3) (u8 (bit_or (bm (idx >>> 3)) (1 <<< bit_and idx 7)))

-- `~(1u << k)` is a 32-bit complement.
unfoldable pub bitmap_clear : Bitmap → ℕ → Bitmap
bitmap_clear bm idx =
    store bm (idx >>> 3) (u8 (bit_and (bm (idx >>> 3)) (2 ^ 32 - 1 - 1 <<< bit_and idx 7)))

-- `for (j = 0; j < n; j++) bitmap_set(start + j);`
unfoldable pub set_bits : ℕ → ℕ → Bitmap → Bitmap
set_bits zero start bm = bm
set_bits (suc n) start bm = set_bits n (start + 1) (bitmap_set bm start)
