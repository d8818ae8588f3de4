-- ===== src/Interrupts.antt =====
-- kernel/intr: the two interrupt controllers (pic.c), the table of handlers (irq.c) and the timer
-- (pit.c). A write to a port is an entry of a trace, the last one first. A read of a controller's
-- data port gives its mask register, which a write to that port sets outside of the initialisation.
pub mod Masks
pub mod Dispatch
pub mod Timer
mod Tests
use apsyde.Common.{
  ℕ, zero, suc, ◌+◌, ◌-◌, ◌/◌, bit_and, ◌||◌, Option, none, some, List, ◌∷◌, ltb, leb, ◌==◌,
  if◌then◌else◌, u8, u64, ◌>>>◌,
}
use apsyde.Common.Ring.{put}
use apsyde.Common.Bits.{byte_set, byte_clear}

-- A port and the byte written to it.
abbrev pub Write : Type 0
Write = ℕ × ℕ

abbrev pub pic1_cmd : ℕ
pic1_cmd = 0x20

abbrev pub pic1_data : ℕ
pic1_data = 0x21

abbrev pub pic2_cmd : ℕ
pic2_cmd = 0xa0

abbrev pub pic2_data : ℕ
pic2_data = 0xa1

abbrev pub pic_eoi : ℕ
pic_eoi = 0x20

pub record Pics : Type 0 where
  pub mask1 : ℕ
  pub mask2 : ℕ
  pub sent : List Write

-- `1 << irq`, and the bytes of a mask with that bit set and cleared.
unfoldable pub pic_mask : ℕ → Pics → Pics
pic_mask irq p =
    let v1 = byte_set p.mask1 irq in
    let v2 = byte_set p.mask2 (irq - 8) in
    if ltb irq 8
    then record p { mask1 = v1; sent = (pic1_data, v1) ∷ p.sent }
    else record p { mask2 = v2; sent = (pic2_data, v2) ∷ p.sent }

unfoldable pub pic_unmask : ℕ → Pics → Pics
pic_unmask irq p =
    let v1 = byte_clear p.mask1 irq in
    let v2 = byte_clear p.mask2 (irq - 8) in
    if ltb irq 8
    then record p { mask1 = v1; sent = (pic1_data, v1) ∷ p.sent }
    else record p { mask2 = v2; sent = (pic2_data, v2) ∷ p.sent }

unfoldable pub pic_send_eoi : ℕ → Pics → Pics
pic_send_eoi irq p = record p {
  sent = (pic1_cmd, pic_eoi) ∷ (if leb 8 irq then (pic2_cmd, pic_eoi) ∷ p.sent else p.sent);
}

-- The four initialisation words of each controller, and the masks that were read at first.
unfoldable pub pic_remap : ℕ → ℕ → Pics → Pics
pic_remap offset1 offset2 p = record p {
  sent =
      (pic2_data, p.mask2)
      ∷ (pic1_data, p.mask1)
      ∷ (pic2_data, 0x01)
      ∷ (pic1_data, 0x01)
      ∷ (pic2_data, 0x02)
      ∷ (pic1_data, 0x04)
      ∷ (pic2_data, u8 offset2)
      ∷ (pic1_data, u8 offset1)
      ∷ (pic2_cmd, 0x11)
      ∷ (pic1_cmd, 0x11)
      ∷ p.sent;
}

abbrev pub irq_count : ℕ
irq_count = 16

-- A handler changes the state S of the drivers.
pub record Irqs (S : Type 0) : Type 0 where
  pub handlers : ℕ → Option (S → S)
  pub pics : Pics

module _ {S : Type 0} where
  -- The loop of irq_init.
  unfoldable pub mask_from : ℕ → ℕ → Irqs S → Irqs S
  mask_from zero i q = q
  mask_from (suc left) i q =
      mask_from left (i + 1)
        (record q { pics = pic_mask i q.pics; handlers = put q.handlers i none })

  unfoldable pub irq_init : Irqs S → Irqs S
  irq_init q = mask_from 16 0 (record q { pics = pic_remap 0x20 0x28 q.pics })

  -- A negative number is refused as one of 16 or more is, and has no value here.
  unfoldable pub irq_register : ℕ → (S → S) → Irqs S → Irqs S
  irq_register irq h q =
      if leb irq_count irq then q else record q { handlers = put q.handlers irq (some h) }

  unfoldable pub irq_unregister : ℕ → Irqs S → Irqs S
  irq_unregister irq q =
      if leb irq_count irq then q else record q { handlers = put q.handlers irq none }

  unfoldable pub irq_enable : ℕ → Irqs S → Irqs S
  irq_enable irq q = if leb irq_count irq then q else record q { pics = pic_unmask irq q.pics }

  unfoldable pub irq_disable : ℕ → Irqs S → Irqs S
  irq_disable irq q = if leb irq_count irq then q else record q { pics = pic_mask irq q.pics }

  -- The handler of an interrupt, where there is one.
  unfoldable pub run_handler : Option (S → S) → S → S
  run_handler none st = st
  run_handler (some h) st = h st

  -- For a vector below 32 the number is negative, which pic_send_eoi treats as one below 8.
  unfoldable pub irq_dispatch : ℕ → Irqs S → S → S × Irqs S
  irq_dispatch vector q st =
      let irq = vector - 32 in
      let acknowledged = record q { pics = pic_send_eoi irq q.pics } in
      if ltb vector 32 || leb irq_count irq
      then (st, acknowledged)
      else (run_handler (q.handlers irq) st, acknowledged)

-- The ticks, and what was written to the timer's ports.
pub record Pit : Type 0 where
  pub ticks : ℕ
  pub writes : List Write

unfoldable pub pit_init : ℕ → Pit → Pit
pit_init frequency_hz p =
    let hz = if frequency_hz == 0 then 100 else frequency_hz in
    let divisor = 1193182 / hz in
    record p {
      writes =
          (0x40, u8 (bit_and (divisor >>> 8) 0xff))
          ∷ (0x40, u8 (bit_and divisor 0xff))
          ∷ (0x43, 0x36)
          ∷ p.writes;
      ticks = 0;
    }

unfoldable pub pit_ticks : Pit → ℕ
pit_ticks p = p.ticks

unfoldable pub pit_tick : Pit → Pit
pit_tick p = record p { ticks = u64 (p.ticks + 1) }
