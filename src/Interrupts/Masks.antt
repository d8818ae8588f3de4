-- ===== src/Interrupts/Masks.antt =====
-- The mask registers of the interrupt controllers, by pic.c and irq.c.
use apsyde.Common.{
  ℕ, ◌-◌, ◌<◌, ◌≡◌, refl, inl, inr, false, arith, ltb, ◌==◌, if◌then◌else◌, Bool-cases, if-both,
  zero, suc, ◌+◌, ◌≤◌, ap, ◌∙◌, ◌⊎◌, none,
}
use apsyde.Interrupts.{pic_mask, Pics, pic_unmask, irq_init, mask_from, pic_remap, Irqs, irq_count}
use apsyde.Common.Bits.{bit_at-byte_clear, bit_at-byte_set, bit_at}
use apsyde.Common.Ring.{put}

-- The mask bit of an interrupt: 1 is masked.
abbrev pub mask_bit : Pics → ℕ → ℕ
mask_bit p irq = if ltb irq 8 then bit_at p.mask1 irq else bit_at p.mask2 (irq - 8)

pub record AreBytes (p : Pics) : Type 0 where
  pub low : p.mask1 < 256
  pub high : p.mask2 < 256

pub pic_mask-AreBytes : (i : ℕ) (p : Pics) → AreBytes p → AreBytes (pic_mask i p)
unfolding pic_mask
pic_mask-AreBytes i p h =
    if-both AreBytes (ltb i 8) _ _ (λ _. record { low = omega arith; high = h.high })
      (λ _. record { low = h.low; high = omega arith })

-- Where the masks are bytes, pic_mask sets the mask bit of its interrupt, and leaves those of the
-- 15 others.
pub mask_bit-pic_mask :
    (i j : ℕ) (p : Pics)
    → AreBytes p
    → i < 16
    → j < 16
    → mask_bit (pic_mask i p) j ≡ (if i == j then 1 else mask_bit p j)
unfolding pic_mask
mask_bit-pic_mask i j p h hi hj = elim (Bool-cases (ltb i 8)) [
  | inl low ↦ elim (Bool-cases (ltb j 8)) [
    | inl low' ↦
        rw (low, low')
          (bit_at-byte_set p.mask1 i j h.low (ground (arith, low)) (ground (arith, low')))
    | inr high' ↦
        let other : (i == j) ≡ false = ground (arith, low, high') in rw (low, high', other) refl
  ]
  | inr high ↦ elim (Bool-cases (ltb j 8)) [
    | inl low' ↦
        let other : (i == j) ≡ false = ground (arith, high, low') in rw (high, low', other) refl
    | inr high' ↦
        let same : (i - 8 == j - 8) ≡ (i == j) = ground (arith, high, high') in
        rw (high, high')
          (bit_at-byte_set p.mask2 (i - 8) (j - 8) h.high (omega (arith, hi)) (omega (arith, hj))
            ∙ ap (λ b. if b then 1 else bit_at p.mask2 (j - 8)) same)
  ]
]

-- Where the masks are bytes, pic_unmask clears the mask bit of its interrupt, and leaves those
-- of the 15 others.
pub mask_bit-pic_unmask :
    (i j : ℕ) (p : Pics)
    → AreBytes p
    → i < 16
    → j < 16
    → mask_bit (pic_unmask i p) j ≡ (if i == j then 0 else mask_bit p j)
unfolding pic_unmask
mask_bit-pic_unmask i j p h hi hj = elim (Bool-cases (ltb i 8)) [
  | inl low ↦ elim (Bool-cases (ltb j 8)) [
    | inl low' ↦
        rw (low, low')
          (bit_at-byte_clear p.mask1 i j h.low (ground (arith, low)) (ground (arith, low')))
    | inr high' ↦
        let other : (i == j) ≡ false = ground (arith, low, high') in rw (low, high', other) refl
  ]
  | inr high ↦ elim (Bool-cases (ltb j 8)) [
    | inl low' ↦
        let other : (i == j) ≡ false = ground (arith, high, low') in rw (high, low', other) refl
    | inr high' ↦
        let same : (i - 8 == j - 8) ≡ (i == j) = ground (arith, high, high') in
        rw (high, high')
          (bit_at-byte_clear p.mask2 (i - 8) (j - 8) h.high (omega (arith, hi)) (omega (arith, hj))
            ∙ ap (λ b. if b then 0 else bit_at p.mask2 (j - 8)) same)
  ]
]

-- After the loop the interrupts that it went through are masked and have no handler, as those that
-- were so before.
mask_from_lem :
    {S : Type 0} (j : ℕ)
    → j < 16
    → (left i : ℕ) (q : Irqs S) → AreBytes q.pics
    → i + left ≡ 16
    → ((mask_bit q.pics j ≡ 1) × (q.handlers j ≡ none)) ⊎ (i ≤ j)
    → (mask_bit (mask_from left i q).pics j ≡ 1) × ((mask_from left i q).handlers j ≡ none)
unfolding mask_from
mask_from_lem {S} j hj zero i q h total (inl done) = done
mask_from_lem {S} j hj zero i q h total (inr left) = absurd (omega (arith, total, left, hj))
mask_from_lem {S} j hj (suc left) i q h total before =
    let hi : i < 16 = omega (arith, total) in
    mask_from_lem j hj left (i + 1)
      (record q { pics = pic_mask i q.pics; handlers = put q.handlers i none })
      (pic_mask-AreBytes i q.pics h) (omega (arith, total))
      (elim (Bool-cases (i == j)) [
        | inl here ↦ inl (rw (mask_bit-pic_mask i j q.pics h hi hj, here) refl, rw here refl)
        | inr other ↦ elim before [
          | inl done ↦
              inl (rw (mask_bit-pic_mask i j q.pics h hi hj, other) done.0, rw other done.1)
          | inr later ↦ inr (ground (arith, later, other))
        ]
      ])

-- After irq_init, started with masks that are bytes, every interrupt is masked and has no
-- handler.
pub irq_init_lem :
    {S : Type 0} (j : ℕ) (q : Irqs S)
    → AreBytes q.pics
    → j < irq_count
    → (mask_bit (irq_init q).pics j ≡ 1) × ((irq_init q).handlers j ≡ none)
unfolding irq_init pic_remap
irq_init_lem {S} j q h hj =
    mask_from_lem j hj 16 0 _ (record { low = h.low; high = h.high }) (omega arith)
      (inr (omega arith))
