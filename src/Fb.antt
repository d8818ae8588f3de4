-- ===== src/Fb.antt =====
-- kernel/fb/fb.c: the text console on the linear frame buffer. The pixels are a function of the
-- index from the frame buffer's base; the font (font8x16.c) is an argument.
pub mod Utf8
pub mod Frame
pub mod Cursor
mod Tests
use apsyde.Common.{
  ℕ, zero, suc, ◌+◌, ◌-◌, ◌*◌, ◌/◌, bit_and, bit_or, Bool, true, false, not, ◌&&◌, ◌||◌, List, [],
  ◌∷◌, ltb, leb, ◌==◌, if◌then◌else◌, rest, u8, u32, sub32, ◌>>>◌,
}
use apsyde.Common.Ring.{put}

-- The switch of unicode_to_cp1251.
abbrev pub cp1251_table : List (ℕ × ℕ)
cp1251_table =
    (0x0402, 0x80)
    ∷ (0x0403, 0x81)
    ∷ (0x201a, 0x82)
    ∷ (0x0453, 0x83)
    ∷ (0x201e, 0x84)
    ∷ (0x2026, 0x85)
    ∷ (0x2020, 0x86)
    ∷ (0x2021, 0x87)
    ∷ (0x20ac, 0x88)
    ∷ (0x2030, 0x89)
    ∷ (0x0409, 0x8a)
    ∷ (0x2039, 0x8b)
    ∷ (0x040a, 0x8c)
    ∷ (0x040c, 0x8d)
    ∷ (0x040b, 0x8e)
    ∷ (0x040f, 0x8f)
    ∷ (0x0452, 0x90)
    ∷ (0x2018, 0x91)
    ∷ (0x2019, 0x92)
    ∷ (0x201c, 0x93)
    ∷ (0x201d, 0x94)
    ∷ (0x2022, 0x95)
    ∷ (0x2013, 0x96)
    ∷ (0x2014, 0x97)
    ∷ (0x2122, 0x99)
    ∷ (0x0459, 0x9a)
    ∷ (0x203a, 0x9b)
    ∷ (0x045a, 0x9c)
    ∷ (0x045c, 0x9d)
    ∷ (0x045b, 0x9e)
    ∷ (0x045f, 0x9f)
    ∷ (0x00a0, 0xa0)
    ∷ (0x040e, 0xa1)
    ∷ (0x045e, 0xa2)
    ∷ (0x0408, 0xa3)
    ∷ (0x00a4, 0xa4)
    ∷ (0x0490, 0xa5)
    ∷ (0x00a6, 0xa6)
    ∷ (0x00a7, 0xa7)
    ∷ (0x0401, 0xa8)
    ∷ (0x00a9, 0xa9)
    ∷ (0x0404, 0xaa)
    ∷ (0x00ab, 0xab)
    ∷ (0x00ac, 0xac)
    ∷ (0x00ad, 0xad)
    ∷ (0x00ae, 0xae)
    ∷ (0x0407, 0xaf)
    ∷ (0x00b0, 0xb0)
    ∷ (0x00b1, 0xb1)
    ∷ (0x0406, 0xb2)
    ∷ (0x0456, 0xb3)
    ∷ (0x0491, 0xb4)
    ∷ (0x00b5, 0xb5)
    ∷ (0x00b6, 0xb6)
    ∷ (0x00b7, 0xb7)
    ∷ (0x0451, 0xb8)
    ∷ (0x2116, 0xb9)
    ∷ (0x0454, 0xba)
    ∷ (0x00bb, 0xbb)
    ∷ (0x0458, 0xbc)
    ∷ (0x0405, 0xbd)
    ∷ (0x0455, 0xbe)
    ∷ (0x0457, 0xbf)
    ∷ []

unfoldable pub cp1251_switch : List (ℕ × ℕ) → ℕ → ℕ
cp1251_switch [] uni = b'?'
cp1251_switch (entry ∷ table) uni =
    let rest = cp1251_switch table uni in if uni == entry.0 then entry.1 else rest

unfoldable pub unicode_to_cp1251 : ℕ → ℕ
unicode_to_cp1251 uni =
    if ltb uni 0x80
    then uni
    else if leb 0x0410 uni && leb uni 0x044f
    then 0xc0 + (uni - 0x0410)
    else cp1251_switch cp1251_table uni

abbrev pub font_width : ℕ
font_width = 8

abbrev pub font_height : ℕ
font_height = 16

abbrev pub color_black : ℕ
color_black = 0

abbrev pub color_white : ℕ
color_white = 0x00ffffff

-- The file's variables, with the two static ones of fb_putc.
pub record Fb : Type 0 where
  pub pixels : ℕ → ℕ
  pub width : ℕ
  pub height : ℕ
  pub pitch : ℕ
  pub format : ℕ
  pub enabled : Bool
  pub col : ℕ
  pub row : ℕ
  pub cols : ℕ
  pub rows : ℕ
  pub pending : ℕ
  pub expect : ℕ

unfoldable pub fb_put_pixel : ℕ → ℕ → ℕ → Fb → Fb
fb_put_pixel x y color f =
    if not f.enabled
    then f
    else if leb f.width x || leb f.height y
    then f
    else record f { pixels = put f.pixels (u32 (y * f.pitch + x)) color }

-- `left` writes of a colour from `base + col` on.
unfoldable pub write_run : ℕ → ℕ → ℕ → ℕ → (ℕ → ℕ) → ℕ → ℕ
write_run base color zero col pixels = pixels
write_run base color (suc left) col pixels =
    write_run base color left (col + 1) (put pixels (u32 (base + col)) color)

-- `left` rows of `w` pixels from the row `y + row` and the column `x` on.
unfoldable pub write_rows : ℕ → ℕ → ℕ → ℕ → ℕ → ℕ → ℕ → (ℕ → ℕ) → ℕ → ℕ
write_rows x y w pitch color zero row pixels = pixels
write_rows x y w pitch color (suc left) row pixels =
    write_rows x y w pitch color left (row + 1) (write_run ((y + row) * pitch + x) color w 0 pixels)

unfoldable pub fb_fill : ℕ → Fb → Fb
fb_fill color f =
    if not f.enabled
    then f
    else record f { pixels = write_rows 0 0 f.width f.pitch color f.height 0 f.pixels }

-- A width or height of a rectangle that reaches over the edge is cut.
unfoldable pub clip : ℕ → ℕ → ℕ → ℕ
clip from extent limit = if ltb limit (u32 (from + extent)) then limit - from else extent

unfoldable pub fb_fill_rect : ℕ → ℕ → ℕ → ℕ → ℕ → Fb → Fb
fb_fill_rect x y w h color f =
    if not f.enabled then f else if leb f.width x || leb f.height y then f else record f {
      pixels = write_rows x y (clip x w f.width) f.pitch color (clip y h f.height) 0 f.pixels;
    }

unfoldable pub fb_clear : Fb → Fb
fb_clear f = record (fb_fill color_black f) { col = 0; row = 0 }

-- A row of a glyph, from its column `col` on; `bits` holds the row.
unfoldable pub draw_row : ℕ → ℕ → ℕ → ℕ → ℕ → ℕ → ℕ → Fb → Fb
draw_row bits px y fg bg zero col f = f
draw_row bits px y fg bg (suc left) col f =
    draw_row bits px y fg bg left (col + 1)
      (fb_put_pixel (u32 (px + col)) y (if bit_and (bits >>> (7 - col)) 1 == 0 then bg else fg) f)

unfoldable pub draw_rows : (ℕ → ℕ) → ℕ → ℕ → ℕ → ℕ → ℕ → ℕ → Fb → Fb
draw_rows glyph px py fg bg zero row f = f
draw_rows glyph px py fg bg (suc left) row f =
    draw_rows glyph px py fg bg left (row + 1)
      (draw_row (glyph row) px (u32 (py + row)) fg bg font_width 0 f)

unfoldable pub draw_glyph : (ℕ → ℕ → ℕ) → ℕ → ℕ → ℕ → ℕ → ℕ → Fb → Fb
draw_glyph font px py ch fg bg f = draw_rows (font ch) px py fg bg font_height 0 f

-- The copying loop of scroll_up; `shift` is the distance of src from dst in pixels.
unfoldable pub copy_run : ℕ → ℕ → ℕ → (ℕ → ℕ) → ℕ → ℕ
copy_run shift zero i pixels = pixels
copy_run shift (suc left) i pixels = copy_run shift left (i + 1) (put pixels i (pixels (shift + i)))

unfoldable pub scroll_up : Fb → Fb
scroll_up f =
    let start = u32 (sub32 f.height font_height * f.pitch) in
    let copied = copy_run (u32 (u32 (font_height * f.pitch) * 4) / 4) start 0 f.pixels in
    if not f.enabled then f else record f {
      pixels = write_run 0 color_black (u32 (f.height * f.pitch) - start) start copied;
    }

-- The label `scroll`.
unfoldable pub scroll : Fb → Fb
scroll f = if leb f.rows f.row then record (scroll_up f) { row = sub32 f.rows 1 } else f

-- The end of a line wraps to the next one.
unfoldable pub wrap : Fb → Fb
wrap f = if leb f.cols f.col then record f { col = 0; row = u32 (f.row + 1) } else f

-- A glyph at the cursor.
unfoldable pub glyph_here : (ℕ → ℕ → ℕ) → ℕ → Fb → Fb
glyph_here font ch f =
    draw_glyph font (u32 (f.col * font_width)) (u32 (f.row * font_height)) ch color_white
      color_black f

unfoldable pub put_glyph : (ℕ → ℕ → ℕ) → ℕ → Fb → Fb
put_glyph font ch f0 = let f = glyph_here font ch f0 in wrap (record f { col = u32 (f.col + 1) })

unfoldable pub backspace : (ℕ → ℕ → ℕ) → Fb → Fb
backspace font f = if ltb 0 f.col then glyph_here font 0x20 (record f { col = f.col - 1 }) else f

-- The first byte of a sequence.
unfoldable pub lead_byte : ℕ → Fb → Fb
lead_byte b f =
    if bit_and b 0xe0 == 0xc0
    then record f { pending = bit_and b 0x1f; expect = 1 }
    else if bit_and b 0xf0 == 0xe0
    then record f { pending = bit_and b 0x0f; expect = 2 }
    else if bit_and b 0xf8 == 0xf0
    then record f { pending = bit_and b 0x07; expect = 3 }
    else f

-- A further byte of a sequence.
unfoldable pub continue_byte : (ℕ → ℕ → ℕ) → ℕ → Fb → Fb
continue_byte font b f =
    let pending' = bit_or (f.pending * 64) (bit_and b 0x3f) in
    if not (bit_and b 0xc0 == 0x80)
    then record f { pending = 0; expect = 0 }
    else if not (f.expect - 1 == 0)
    then record f { pending = pending'; expect = f.expect - 1 }
    else scroll
        (record (put_glyph font (u8 (unicode_to_cp1251 pending')) (record f { expect = 0 })) {
          pending = 0;
        })

unfoldable pub fb_putc : (ℕ → ℕ → ℕ) → ℕ → Fb → Fb
fb_putc font b f =
    let f' = record f { pending = 0; expect = 0 } in
    if not f.enabled
    then f
    else if b == 10
    then scroll (record f' { col = 0; row = u32 (f.row + 1) })
    else if b == 13
    then record f' { col = 0 }
    else if b == 8
    then backspace font f'
    else if b == 9
    then scroll (wrap (record f' { col = bit_and (u32 (f.col + 8)) 0xfffffff8 }))
    else if ltb b 0x20
    then f
    else if ltb b 0x80 && (f.expect == 0)
    then scroll (put_glyph font b f)
    else if f.expect == 0
    then lead_byte b f
    else continue_byte font b f

unfoldable pub fb_puts : (ℕ → ℕ → ℕ) → List ℕ → Fb → Fb
fb_puts font [] f = f
fb_puts font (c ∷ s) f = fb_puts font s (fb_putc font c f)

unfoldable pub fb_set_cursor : ℕ → ℕ → Fb → Fb
fb_set_cursor col row f = record f { col = col; row = row }

-- The arguments are framebuffer_base, the resolution, pixels_per_scanline and pixel_format of the
-- boot information; the base is looked at only to be compared with 0.
unfoldable pub fb_init : ℕ → ℕ → ℕ → ℕ → ℕ → Fb → Fb
fb_init base w h p format f =
    if base == 0
    then record f { enabled = false }
    else fb_clear (record f {
      width = w;
      height = h;
      pitch = p;
      format = format;
      cols = w / font_width;
      rows = h / font_height;
      col = 0;
      row = 0;
      enabled = true;
    })
