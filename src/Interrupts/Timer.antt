-- ===== src/Interrupts/Timer.antt =====
-- The divisor of the timer by pit.c.
use native.Mathlib.Nat.{div-le_of_le-mul}
use apsyde.Common.{ℕ, ◌/◌, ◌%◌, ◌≤◌, bit_and, ◌≡◌, refl, false, ◌∷◌, arith, ◌==◌, u8, ◌>>>◌}
use apsyde.Interrupts.{pit_init, Pit}
use apsyde.Common.Bits.{bit_and_mask}

-- For a frequency of at least 19 Hz the two bytes sent to channel 0 after the command are the low
-- and the high byte of the divisor, no bit of it lost, and the ticks start at 0.
pub pit_init_lem :
    (hz : ℕ) (p : Pit)
    → 19 ≤ hz
    → ((pit_init hz p).ticks ≡ 0)
      × ((pit_init hz p).writes
          ≡ (0x40, 1193182 / hz / 256) ∷ (0x40, 1193182 / hz % 256) ∷ (0x43, 0x36) ∷ p.writes)
unfolding pit_init
pit_init_lem hz p low =
    let d = 1193182 / hz in
    let given : (hz == 0) ≡ false = ground (arith, low) in
    let small : d ≤ 65535 = div-le_of_le-mul hz (omega (arith, low)) in
    let high_byte : u8 (bit_and (d >>> 8) 0xff) ≡ d / 256 =
      omega (arith, small, bit_and_mask 8 (d / 256)) in
    let low_byte : u8 (bit_and d 0xff) ≡ d % 256 = omega (arith, bit_and_mask 8 d) in
    (refl, rw (given, high_byte, low_byte) refl)
