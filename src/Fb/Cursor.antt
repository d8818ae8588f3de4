-- ===== src/Fb/Cursor.antt =====
-- fb_putc as a whole: any byte keeps the cursor on the screen and the writes in the frame buffer.
use apsyde.Common.{
  ℕ, ◌+◌, ◌-◌, ◌*◌, ◌^◌, ◌≤◌, ◌<◌, bit_and, ◌≡◌, refl, not, arith, ltb, leb, ◌==◌, if-both, u32,
  bit_or, ◌&&◌, u8,
}
use apsyde.Fb.{
  wrap, Fb, continue_byte, put_glyph, backspace, lead_byte, glyph_here, draw_glyph, scroll,
  draw_rows, font_width, font_height, color_white, color_black, fb_putc, unicode_to_cp1251,
}
use apsyde.Fb.Frame.{Frame, Console, scroll-Console, draw_rows-Frame}

-- After a wrap the cursor is in a column of the screen, and at most one row below it.
abbrev Line : ℕ → ℕ → ℕ → ℕ → ℕ → (ℕ → ℕ) → Fb → Type 0
Line w h p c r mem f = (col : ℕ) × (row : ℕ) × (col < c) × (row ≤ r) × Frame w h p c r mem col row f

-- A move of the cursor, or of the decoder, writes no pixel.
moved :
    (w h p c r : ℕ) (mem : ℕ → ℕ) (col row col' row' pending expect : ℕ) (f : Fb)
    → Frame w h p c r mem col row f
    → Frame w h p c r mem col' row'
        (record f { col = col'; row = row'; pending = pending; expect = expect })
moved w h p c r mem col row col' row' pending expect f v = record {
  width_is = v.width_is;
  height_is = v.height_is;
  pitch_is = v.pitch_is;
  cols_is = v.cols_is;
  rows_is = v.rows_is;
  col_is = refl;
  row_is = refl;
  outside = v.outside;
}

-- The decoder's state is not looked at.
decoded :
    (w h p c r : ℕ) (mem : ℕ → ℕ) (col row pending expect : ℕ) (f : Fb)
    → Frame w h p c r mem col row f
    → Frame w h p c r mem col row (record f { pending = pending; expect = expect })
decoded w h p c r mem col row pending expect f v = record {
  width_is = v.width_is;
  height_is = v.height_is;
  pitch_is = v.pitch_is;
  cols_is = v.cols_is;
  rows_is = v.rows_is;
  col_is = v.col_is;
  row_is = v.row_is;
  outside = v.outside;
}

module _ (w h p c r : ℕ) (mem : ℕ → ℕ) (wide : w ≤ p) (tall : 16 ≤ h) (word : h < 2 ^ 32)
    (fits : h * p < 2 ^ 32) (some_rows : 1 ≤ r) (rows_word : r < 2 ^ 31) (some_cols : 1 ≤ c)
    (cols_word : c < 2 ^ 31) where
  wrap-Line :
      (col row col' row' : ℕ) (f : Fb)
      → row' < r
      → Frame w h p c r mem col row f
      → f.col ≡ col'
      → f.row ≡ row'
      → Line w h p c r mem (wrap f)
  unfolding wrap
  wrap-Line col row col' row' f hr v ec er =
      if-both (Line w h p c r mem) (leb f.cols f.col) _ _
        (λ _. (
          0,
          row' + 1,
          some_cols,
          omega (arith, hr),
          record {
            width_is = v.width_is;
            height_is = v.height_is;
            pitch_is = v.pitch_is;
            cols_is = v.cols_is;
            rows_is = v.rows_is;
            col_is = refl;
            row_is = omega (arith, er, hr, rows_word);
            outside = v.outside;
          },
        ))
        (λ room. (
          col',
          row',
          ground (arith, room, v.cols_is, ec),
          omega (arith, hr),
          record {
            width_is = v.width_is;
            height_is = v.height_is;
            pitch_is = v.pitch_is;
            cols_is = v.cols_is;
            rows_is = v.rows_is;
            col_is = ec;
            row_is = er;
            outside = v.outside;
          },
        ))

  put_glyph-Line :
      (font : ℕ → ℕ → ℕ) (ch col row : ℕ) (f : Fb)
      → row < r
      → Frame w h p c r mem col row f
      → Line w h p c r mem (put_glyph font ch f)
  unfolding put_glyph glyph_here draw_glyph
  put_glyph-Line font ch col row f hr v =
      let g =
        draw_rows (font ch) (u32 (f.col * font_width)) (u32 (f.row * font_height)) color_white
          color_black font_height 0 f in
      let u =
        draw_rows-Frame w h p c r mem wide fits (font ch) (u32 (f.col * font_width))
          (u32 (f.row * font_height)) color_white color_black font_height 0 col row f v in
      let m = moved w h p c r mem col row (u32 (g.col + 1)) g.row g.pending g.expect g u in
      wrap-Line _ _ (u32 (g.col + 1)) row (record g { col = u32 (g.col + 1) }) hr m refl u.row_is

  Line-Console : (f : Fb) → Line w h p c r mem f → Console w h p c r mem (scroll f)
  Line-Console f (col, row, hc, hr, v) =
      scroll-Console w h p c r mem tall word fits some_rows rows_word some_cols cols_word col row f
        hc hr v

  backspace-Console :
      (font : ℕ → ℕ → ℕ) (col row : ℕ) (f : Fb)
      → col < c
      → row < r
      → Frame w h p c r mem col row f
      → Console w h p c r mem (backspace font f)
  unfolding backspace glyph_here draw_glyph
  backspace-Console font col row f hc hr v =
      if-both (Console w h p c r mem) (ltb 0 f.col) _ _
        (λ _. (
          col - 1,
          row,
          omega (arith, hc),
          hr,
          draw_rows-Frame w h p c r mem wide fits _ _ _ _ _ _ _ (col - 1) row _ (record {
            width_is = v.width_is;
            height_is = v.height_is;
            pitch_is = v.pitch_is;
            cols_is = v.cols_is;
            rows_is = v.rows_is;
            col_is = omega (arith, v.col_is);
            row_is = v.row_is;
            outside = v.outside;
          }),
        ))
        (λ _. (col, row, hc, hr, v))

  lead_byte-Frame :
      (b col row : ℕ) (f : Fb)
      → Frame w h p c r mem col row f
      → Frame w h p c r mem col row (lead_byte b f)
  unfolding lead_byte
  lead_byte-Frame b col row f v =
      let P = Frame w h p c r mem col row in
      if-both P (bit_and b 0xe0 == 0xc0) _ _ (λ _. decoded w h p c r mem col row _ _ f v)
        (λ _.
          if-both P (bit_and b 0xf0 == 0xe0) _ _ (λ _. decoded w h p c r mem col row _ _ f v)
            (λ _.
              if-both P (bit_and b 0xf8 == 0xf0) _ _ (λ _. decoded w h p c r mem col row _ _ f v)
                (λ _. v)))

  continue_byte-Console :
      (font : ℕ → ℕ → ℕ) (b col row : ℕ) (f : Fb)
      → col < c
      → row < r
      → Frame w h p c r mem col row f
      → Console w h p c r mem (continue_byte font b f)
  unfolding continue_byte
  continue_byte-Console font b col row f hc hr v =
      let P = Console w h p c r mem in
      if-both P (not (bit_and b 0xc0 == 0x80)) _ _
        (λ _. (col, row, hc, hr, decoded w h p c r mem col row 0 0 f v))
        (λ _.
          if-both P (not (f.expect - 1 == 0)) _ _
            (λ _. (col, row, hc, hr, decoded w h p c r mem col row _ _ f v))
            (λ _.
              let ch = u8 (unicode_to_cp1251 (bit_or (f.pending * 64) (bit_and b 0x3f))) in
              let g = put_glyph font ch (record f { expect = 0 }) in
              let l =
                put_glyph-Line font ch col row _ hr
                  (decoded w h p c r mem col row f.pending 0 f v) in
              Line-Console (record g { pending = 0 })
                (l.0, l.1, l.2, l.3, decoded w h p c r mem l.0 l.1 0 g.expect g l.4)))

  -- Every byte that fb_putc is given keeps the cursor within the columns and rows of the
  -- screen, and writes no pixel outside of the frame buffer, on a screen of at least one row
  -- and column whose lines hold its width, of at least 16 rows of pixels and with a frame
  -- buffer of fewer than 2^32 pixels.
  pub fb_putc-Console :
      (font : ℕ → ℕ → ℕ) (b : ℕ) (f : Fb)
      → Console w h p c r mem f
      → Console w h p c r mem (fb_putc font b f)
  unfolding fb_putc
  fb_putc-Console font b f (col, row, hc, hr, v) =
      let P = Console w h p c r mem in
      let d = decoded w h p c r mem col row 0 0 f v in
      let f' = record f { pending = 0; expect = 0 } in
      if-both P (not f.enabled) _ _ (λ _. (col, row, hc, hr, v))
        (λ _.
          if-both P (b == 10) _ _
            (λ _. Line-Console _ (
              0,
              row + 1,
              some_cols,
              omega (arith, hr),
              record {
                width_is = v.width_is;
                height_is = v.height_is;
                pitch_is = v.pitch_is;
                cols_is = v.cols_is;
                rows_is = v.rows_is;
                col_is = refl;
                row_is = omega (arith, v.row_is, hr, rows_word);
                outside = v.outside;
              },
            ))
            (λ _.
              if-both P (b == 13) _ _
                (λ _. (
                  0,
                  row,
                  some_cols,
                  hr,
                  record {
                    width_is = v.width_is;
                    height_is = v.height_is;
                    pitch_is = v.pitch_is;
                    cols_is = v.cols_is;
                    rows_is = v.rows_is;
                    col_is = refl;
                    row_is = v.row_is;
                    outside = v.outside;
                  },
                ))
                (λ _.
                  if-both P (b == 8) _ _ (λ _. backspace-Console font col row f' hc hr d)
                    (λ _.
                      if-both P (b == 9) _ _
                        (λ _.
                          let to = bit_and (u32 (f.col + 8)) 0xfffffff8 in
                          Line-Console _ (
                            wrap-Line _ _ to row (record f' { col = to }) hr
                              (moved w h p c r mem col row to f.row 0 0 f v) refl v.row_is))
                        (λ _.
                          if-both P (ltb b 0x20) _ _ (λ _. (col, row, hc, hr, v))
                            (λ _.
                              if-both P (ltb b 0x80 && (f.expect == 0)) _ _
                                (λ _. Line-Console _ (put_glyph-Line font b col row f hr v))
                                (λ _.
                                  if-both P (f.expect == 0) _ _
                                    (λ _. (col, row, hc, hr, lead_byte-Frame b col row f v))
                                    (λ _. continue_byte-Console font b col row f hc hr v))))))))
