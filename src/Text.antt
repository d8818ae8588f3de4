-- ===== src/Text.antt =====
-- kernel/lib: the strings and blocks of bytes of string.c, and the numbers and the format loop of
-- kprintf.c. What is emitted is a list of bytes.
pub mod Numbers
pub mod Strings
mod Tests
use apsyde.Common.{
  ℕ, zero, suc, ◌+◌, ◌-◌, ◌*◌, ◌/◌, ◌%◌, ◌^◌, bit_and, Bool, true, false, not, ◌&&◌, ◌||◌, Option,
  none, some, List, [], ◌∷◌, ◌++◌, ltb, leb, ◌==◌, if◌then◌else◌, take, rest, u8, sub64, ◌>>>◌,
  reverse,
}
use apsyde.Common.Ring.{put}

-- memcpy and memset in a memory of bytes, from the first byte up.
unfoldable pub memcpy : ℕ → ℕ → ℕ → (ℕ → ℕ) → ℕ → ℕ
memcpy dst src zero memory = memory
memcpy dst src (suc n) memory = memcpy (dst + 1) (src + 1) n (put memory dst (memory src))

unfoldable pub memset : ℕ → ℕ → ℕ → (ℕ → ℕ) → ℕ → ℕ
memset dst c zero memory = memory
memset dst c (suc n) memory = memset (dst + 1) c n (put memory dst (u8 c))

-- The sign of the result of memcmp and strcmp.
pub data Sign : Type 0 where
  less equal greater : Sign

unfoldable pub sign_of : ℕ → ℕ → Sign
sign_of x y = if ltb x y then less else if x == y then equal else greater

unfoldable pub memcmp : (ℕ → ℕ) → ℕ → ℕ → ℕ → Sign
memcmp memory a b zero = equal
memcmp memory a b (suc n) =
    let rest = memcmp memory (a + 1) (b + 1) n in
    if not (memory a == memory b) then sign_of (memory a) (memory b) else rest

-- A string is the list of its characters before the zero.
unfoldable pub strlen : List ℕ → ℕ
strlen [] = 0
strlen (c ∷ s) = suc (strlen s)

unfoldable pub strcmp : List ℕ → List ℕ → Sign
strcmp [] [] = equal
strcmp [] (d ∷ t) = less
strcmp (c ∷ s) [] = greater
strcmp (c ∷ s) (d ∷ t) = let rest = strcmp s t in if c == d then rest else sign_of c d

-- The digits that the loop of emit_dec puts in the buffer, the lowest first; `room` is what is left
-- of its 24 bytes.
unfoldable pub digits_of : ℕ → ℕ → List ℕ
digits_of zero v = []
digits_of (suc room) v =
    let rest = digits_of room (v / 10) in if ltb 0 v then (b'0' + v % 10) ∷ rest else []

unfoldable pub emit_dec : ℕ → List ℕ
emit_dec v = if v == 0 then b'0' ∷ [] else reverse (digits_of 24 v)

-- The character of a hexadecimal digit.
unfoldable pub nibble_char : ℕ → ℕ
nibble_char nib = if ltb nib 10 then b'0' + nib else b'a' + nib - 10

-- The loop over the nibbles, of which the lowest `left` are still to come.
unfoldable pub nibbles_from : ℕ → Bool → ℕ → List ℕ
nibbles_from zero started v = []
nibbles_from (suc left) started v =
    let nib = bit_and (v >>> (4 * left)) 0xf in
    let skip = nibbles_from left started v in
    let take = nibbles_from left true v in
    if not started && (nib == 0) then skip else nibble_char nib ∷ take

unfoldable pub emit_hex : ℕ → List ℕ
emit_hex v = b'0' ∷ b'x' ∷ (if v == 0 then b'0' ∷ [] else nibbles_from 16 false v)

-- An argument of kprintf: a word of 64 bits, or a string, none for a null pointer.
pub data Arg : Type 0 where
  word : ℕ → Arg
  text : Option (List ℕ) → Arg

-- A negative word is emitted with a sign and negated.
unfoldable pub emit_signed : ℕ → List ℕ
emit_signed v = if leb (2 ^ 63) v then b'-' ∷ emit_dec (sub64 0 v) else emit_dec v

unfoldable pub convert_word : (ℕ → List ℕ) → List Arg → Option (List ℕ × List Arg)
convert_word out [] = none
convert_word out (word v ∷ args) = some (out v, args)
convert_word out (text s ∷ args) = none

-- The text for a null pointer.
abbrev pub null_text : List ℕ
null_text = b'(' ∷ b'n' ∷ b'u' ∷ b'l' ∷ b'l' ∷ b')' ∷ []

unfoldable pub convert_text : List Arg → Option (List ℕ × List Arg)
convert_text [] = none
convert_text (word v ∷ args) = none
convert_text (text none ∷ args) = some (null_text, args)
convert_text (text (some s) ∷ args) = some (s, args)

unfoldable pub emitted : List ℕ → Option (List ℕ) → Option (List ℕ)
emitted out none = none
emitted out (some rest) = some (out ++ rest)

-- A conversion of kprintf: what it emits, and the arguments that are left. `none` where the argument
-- is missing or of the other kind, which C leaves undefined.
unfoldable pub convert : ℕ → List Arg → Option (List ℕ × List Arg)
convert c args =
    if c == b'c'
    then convert_word (λ v. u8 v ∷ []) args
    else if c == b's'
    then convert_text args
    else if c == b'd'
    then convert_word emit_signed args
    else if c == b'u'
    then convert_word emit_dec args
    else if c == b'x' || (c == b'p')
    then convert_word emit_hex args
    else if c == b'%'
    then some (b'%' ∷ [], args)
    else some (b'%' ∷ c ∷ [], args)

-- The loop of kprintf; `after` holds where the character before was a percent sign. `none` also
-- where the format ends in one, and the loop runs past its end.
unfoldable pub kprintf_from : Bool → List ℕ → List Arg → Option (List ℕ)
kprintf_from false [] args = some []
kprintf_from true [] args = none
kprintf_from false (c ∷ fmt) args = elim (c == b'%') [
  | true ↦ kprintf_from true fmt args
  | false ↦ emitted (c ∷ []) (kprintf_from false fmt args)
]
kprintf_from true (c ∷ fmt) args = elim (convert c args) [
  | none ↦ none
  | some r ↦ emitted r.0 (kprintf_from false fmt r.1)
]

unfoldable pub kprintf : List ℕ → List Arg → Option (List ℕ)
kprintf fmt args = kprintf_from false fmt args
