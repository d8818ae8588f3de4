-- ===== src/Text/Tests.antt =====
-- Runs of the theorems on text.
use apsyde.Common.{◌-◌, ◌^◌, ◌≡◌, refl, some, [], ◌∷◌}
use apsyde.Text.{
  kprintf, emit_dec, kprintf_from, convert, convert_word, emit_hex, emit_signed, nibbles_from,
  digits_of, nibble_char, emitted, word,
}

-- `%d%%` of minus ten.
minus_ten :
    kprintf (b'%' ∷ b'd' ∷ b'%' ∷ b'%' ∷ []) (word (2 ^ 64 - 10) ∷ [])
    ≡ some (b'-' ∷ b'1' ∷ b'0' ∷ b'%' ∷ [])
unfolding kprintf kprintf_from convert convert_word emit_signed emit_dec digits_of emitted
minus_ten = refl

-- `%x` of 0x1f0.
hex_word :
    kprintf (b'%' ∷ b'x' ∷ []) (word 0x1f0 ∷ []) ≡ some (b'0' ∷ b'x' ∷ b'1' ∷ b'f' ∷ b'0' ∷ [])
unfolding kprintf kprintf_from convert convert_word emit_hex nibbles_from nibble_char emitted
hex_word = refl
