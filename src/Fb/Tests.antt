-- ===== src/Fb/Tests.antt =====
-- Runs of the console's theorems on a screen of 2 columns and 2 rows.
use apsyde.Common.{ℕ, ◌+◌, ◌/◌, ◌%◌, ◌≡◌, refl, true, arith}
use apsyde.Fb.{Fb, fb_putc}
use apsyde.Fb.Frame.{Console}
use apsyde.Fb.Utf8.{finish, fb_putc-three_bytes}
use apsyde.Fb.Cursor.{fb_putc-Console}

abbrev plain_font : ℕ → ℕ → ℕ
plain_font ch row = ch

abbrev small : Fb
small = record {
  pixels = λ i. 7;
  width = 16;
  height = 32;
  pitch = 20;
  format = 0;
  enabled = true;
  col = 1;
  row = 1;
  cols = 2;
  rows = 2;
  pending = 0;
  expect = 0;
}

fb_putc-three_bytes_example :
    fb_putc plain_font (0x80 + 0x2116 % 64) (
      fb_putc plain_font
        (0x80 + 0x2116 / 64 % 64)
        (fb_putc plain_font (0xe0 + 0x2116 / 4096) small))
    ≡ finish plain_font 0x2116 (0x2116 / 64) small
fb_putc-three_bytes_example =
    fb_putc-three_bytes plain_font 0x2116 small refl refl (omega arith) (omega arith)

small-Console : Console 16 32 20 2 2 (λ i. 7) small
small-Console = (
  1,
  1,
  omega arith,
  omega arith,
  record {
    width_is = refl;
    height_is = refl;
    pitch_is = refl;
    cols_is = refl;
    rows_is = refl;
    col_is = refl;
    row_is = refl;
    outside = λ i out. refl;
  },
)

fb_putc-Console_example : Console 16 32 20 2 2 (λ i. 7) (fb_putc plain_font b'A' small)
fb_putc-Console_example =
    fb_putc-Console 16 32 20 2 2 (λ i. 7) (omega arith) (omega arith) (omega arith) (omega arith)
      (omega arith) (omega arith) (omega arith) (omega arith) plain_font b'A' small small-Console
