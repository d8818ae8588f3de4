-- ===== src/Fb/Frame.antt =====
-- The console of fb.c writes no pixel outside the frame buffer, and keeps its cursor on the screen.
use native.Mathlib.Nat.{mul-le-mul_right}
use apsyde.Common.{
  ℕ, zero, suc, ◌+◌, ◌-◌, ◌*◌, ◌^◌, ◌≤◌, ◌<◌, bit_and, ◌≡◌, refl, not, ◌||◌, arith, leb, ◌==◌,
  if◌then◌else◌, if-both, u32, ◌>>>◌, ◌/◌, ap, ap₂, ◌∙◌, false, ==_ne, sub32,
}
use apsyde.Fb.{
  Fb, fb_put_pixel, copy_run, draw_rows, draw_row, write_run, font_width, scroll_up, scroll,
  font_height, color_black,
}
use apsyde.Common.Ring.{put}

-- A console of `w` by `h` pixels, `p` in a line, `c` columns and `r` rows, with the cursor at
-- (col, row): outside of its `h * p` pixels the memory is `mem`.
pub record Frame (w h p c r : ℕ) (mem : ℕ → ℕ) (col row : ℕ) (f : Fb) : Type 0 where
  pub width_is : f.width ≡ w
  pub height_is : f.height ≡ h
  pub pitch_is : f.pitch ≡ p
  pub cols_is : f.cols ≡ c
  pub rows_is : f.rows ≡ r
  pub col_is : f.col ≡ col
  pub row_is : f.row ≡ row
  pub outside : (i : ℕ) → h * p ≤ i → f.pixels i ≡ mem i

-- The cell of a column and a row lies in the frame buffer.
cell_below : (x y p h : ℕ) → x < p → y < h → y * p + x < h * p
cell_below x y p h hx hy = omega (arith, hx, mul-le-mul_right p hy)

module _ (w h p c r : ℕ) (mem : ℕ → ℕ) (wide : w ≤ p) (fits : h * p < 2 ^ 32) where
  fb_put_pixel-Frame :
      (x y color col row : ℕ) (f : Fb)
      → Frame w h p c r mem col row f
      → Frame w h p c r mem col row (fb_put_pixel x y color f)
  unfolding fb_put_pixel
  fb_put_pixel-Frame x y color col row f v =
      let P = Frame w h p c r mem col row in
      if-both P (not f.enabled) _ _ (λ _. v)
        (λ _.
          if-both P (leb f.width x || leb f.height y) _ _ (λ _. v)
            (λ on_screen. record {
              width_is = v.width_is;
              height_is = v.height_is;
              pitch_is = v.pitch_is;
              cols_is = v.cols_is;
              rows_is = v.rows_is;
              col_is = v.col_is;
              row_is = v.row_is;
              outside = λ i out.
                  let in_x : x < w = ground (arith, on_screen, v.width_is) in
                  let in_y : y < h = ground (arith, on_screen, v.height_is) in
                  let below = cell_below x y p h (omega (arith, in_x, wide)) in_y in
                  let e : u32 (y * f.pitch + x) ≡ y * p + x =
                    ap (λ t. u32 (y * t + x)) v.pitch_is ∙ omega (arith, below, fits) in
                  let miss : (u32 (y * f.pitch + x) == i) ≡ false =
                    ==_ne _ i (λ same. omega (arith, same, e, below, out)) in
                  rw miss (v.outside i out);
            }))

  draw_row-Frame :
      (bits px y fg bg left k col row : ℕ) (f : Fb)
      → Frame w h p c r mem col row f
      → Frame w h p c r mem col row (draw_row bits px y fg bg left k f)
  unfolding draw_row
  draw_row-Frame bits px y fg bg zero k col row f v = v
  draw_row-Frame bits px y fg bg (suc left) k col row f v =
      draw_row-Frame bits px y fg bg left (k + 1) col row _ (
        fb_put_pixel-Frame (u32 (px + k)) y (if bit_and (bits >>> (7 - k)) 1 == 0 then bg else fg)
          col row f v)

  pub draw_rows-Frame :
      (glyph : ℕ → ℕ) (px py fg bg left k col row : ℕ) (f : Fb)
      → Frame w h p c r mem col row f
      → Frame w h p c r mem col row (draw_rows glyph px py fg bg left k f)
  unfolding draw_rows
  draw_rows-Frame glyph px py fg bg zero k col row f v = v
  draw_rows-Frame glyph px py fg bg (suc left) k col row f v =
      draw_rows-Frame glyph px py fg bg left (k + 1) col row _
        (draw_row-Frame (glyph k) px (u32 (py + k)) fg bg font_width 0 col row f v)

write_run-outside :
    (base color left k bound : ℕ) (px : ℕ → ℕ) (i : ℕ)
    → base + k + left ≤ bound
    → bound ≤ i
    → write_run base color left k px i ≡ px i
unfolding write_run
write_run-outside base color zero k bound px i room out = refl
write_run-outside base color (suc left) k bound px i room out =
    let miss : (u32 (base + k) == i) ≡ false = ground (arith, room, out) in
    write_run-outside base color left (k + 1) bound (put px (u32 (base + k)) color) i
      (omega (arith, room)) out
    ∙ rw miss refl

copy_run-outside :
    (shift left k bound : ℕ) (px : ℕ → ℕ) (i : ℕ)
    → k + left ≤ bound
    → bound ≤ i
    → copy_run shift left k px i ≡ px i
unfolding copy_run
copy_run-outside shift zero k bound px i room out = refl
copy_run-outside shift (suc left) k bound px i room out =
    let miss : (k == i) ≡ false = ground (arith, room, out) in
    copy_run-outside shift left (k + 1) bound (put px k (px (shift + k))) i (omega (arith, room))
      out
    ∙ rw miss refl

-- The cursor lies on the screen, and no pixel was written outside of the frame buffer.
abbrev pub Console : ℕ → ℕ → ℕ → ℕ → ℕ → (ℕ → ℕ) → Fb → Type 0
Console w h p c r mem f =
    (col : ℕ) × (row : ℕ) × (col < c) × (row < r) × Frame w h p c r mem col row f

module _ (w h p c r : ℕ) (mem : ℕ → ℕ) (tall : 16 ≤ h) (word : h < 2 ^ 32) (fits : h * p < 2 ^ 32)
    (some_rows : 1 ≤ r) (rows_word : r < 2 ^ 31) (some_cols : 1 ≤ c) (cols_word : c < 2 ^ 31) where
  scroll_start :
      (f : Fb) (col row : ℕ)
      → Frame w h p c r mem col row f
      → u32 (sub32 f.height font_height * f.pitch) ≤ h * p
  scroll_start f col row v =
      let e : u32 (sub32 f.height font_height * f.pitch) ≡ u32 (sub32 h font_height * p) =
        ap₂ (λ a b. u32 (sub32 a font_height * b)) v.height_is v.pitch_is in
      let less : sub32 h font_height ≤ h = omega (arith, tall, word) in
      omega (arith, e, mul-le-mul_right p less)

  scroll_up-Frame :
      (col row : ℕ) (f : Fb)
      → Frame w h p c r mem col row f
      → Frame w h p c r mem col row (scroll_up f)
  unfolding scroll_up
  scroll_up-Frame col row f v =
      if-both (Frame w h p c r mem col row) (not f.enabled) _ _ (λ _. v)
        (λ _. record {
          width_is = v.width_is;
          height_is = v.height_is;
          pitch_is = v.pitch_is;
          cols_is = v.cols_is;
          rows_is = v.rows_is;
          col_is = v.col_is;
          row_is = v.row_is;
          outside = λ i out.
              let start = u32 (sub32 f.height font_height * f.pitch) in
              let low : start ≤ h * p = scroll_start f col row v in
              let end : u32 (f.height * f.pitch) ≡ u32 (h * p) =
                ap₂ (λ a b. u32 (a * b)) v.height_is v.pitch_is in
              write_run-outside 0 color_black (u32 (f.height * f.pitch) - start) start (h * p) _ i
                (omega (arith, low, end)) out
              ∙ copy_run-outside (u32 (u32 (font_height * f.pitch) * 4) / 4) start 0 (h * p)
                  f.pixels i (omega (arith, low)) out
              ∙ v.outside i out;
        })

  pub scroll-Console :
      (col row : ℕ) (f : Fb)
      → col < c
      → row ≤ r
      → Frame w h p c r mem col row f
      → Console w h p c r mem (scroll f)
  unfolding scroll
  scroll-Console col row f hc hr v =
      let u = scroll_up-Frame col row f v in
      if-both (Console w h p c r mem) (leb f.rows f.row) _ _
        (λ _. (
          col,
          sub32 r 1,
          hc,
          omega (arith, some_rows, rows_word),
          record {
            width_is = u.width_is;
            height_is = u.height_is;
            pitch_is = u.pitch_is;
            cols_is = u.cols_is;
            rows_is = u.rows_is;
            col_is = u.col_is;
            row_is = ap (λ t. sub32 t 1) v.rows_is;
            outside = u.outside;
          },
        ))
        (λ room. (col, row, hc, ground (arith, room, v.rows_is, v.row_is), v))
