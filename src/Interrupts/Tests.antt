-- ===== src/Interrupts/Tests.antt =====
-- Runs of the theorems on interrupts at concrete states.
use apsyde.Common.{ℕ, suc, ◌+◌, ◌/◌, ◌%◌, ◌≡◌, none, [], ◌∷◌, arith, ◌==◌, if◌then◌else◌}
use apsyde.Interrupts.{Pics, irq_dispatch, pit_init, Irqs, pic_mask, irq_register}
use apsyde.Interrupts.Masks.{AreBytes, mask_bit, mask_bit-pic_mask}
use apsyde.Interrupts.Timer.{pit_init_lem}
use apsyde.Interrupts.Dispatch.{irq_dispatch-irq_register}

abbrev masks : Pics
masks = record { mask1 = 0xfb; mask2 = 0xff; sent = [] }

masks-AreBytes : AreBytes masks
masks-AreBytes = record { low = omega arith; high = omega arith }

-- The drivers' state is a counter.
abbrev table : Irqs ℕ
table = record { handlers = λ i. none; pics = masks }

mask_bit-pic_mask_example : mask_bit (pic_mask 2 masks) 2 ≡ (if 2 == 2 then 1 else mask_bit masks 2)
mask_bit-pic_mask_example = mask_bit-pic_mask 2 2 masks masks-AreBytes (omega arith) (omega arith)

irq_dispatch-irq_register_example :
    (irq_dispatch (32 + 1) (irq_register 1 suc table) 7).0
    ≡ (if 1 == 1 then suc 7 else (irq_dispatch (32 + 1) table 7).0)
irq_dispatch-irq_register_example =
    irq_dispatch-irq_register 1 1 suc table 7 (omega arith) (omega arith)

pit_init_lem_example :
    ((pit_init 100 (record { ticks = 5; writes = [] })).ticks ≡ 0)
    × ((pit_init 100 (record { ticks = 5; writes = [] })).writes
        ≡ (0x40, 1193182 / 100 / 256) ∷ (0x40, 1193182 / 100 % 256) ∷ (0x43, 0x36) ∷ [])
pit_init_lem_example = pit_init_lem 100 (record { ticks = 5; writes = [] }) (omega arith)
