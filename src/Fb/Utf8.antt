-- ===== src/Fb/Utf8.antt =====
-- The UTF-8 decoder in fb_putc: a character of two or three bytes is drawn as its CP1251 glyph.
use apsyde.Common.{
  ℕ, ◌+◌, ◌-◌, ◌*◌, ◌/◌, ◌%◌, ◌≤◌, ◌<◌, bit_and, ◌≡◌, refl, ap, ◌∙◌, true, not, ◌&&◌, arith, ltb,
  ◌==◌, if◌then◌else◌, if-both, u8, false,
}
use apsyde.Fb.{fb_putc, Fb, continue_byte, lead_byte, scroll, put_glyph, unicode_to_cp1251}
use apsyde.Common.Bits.{every_below, every_below-at, bit_or_shifted}

-- What the tests of fb_putc make of lead and continuation bytes, by evaluation.
lead2_bytes :
    every_below (λ p. (bit_and (0xc0 + p) 0xe0 == 0xc0) && (bit_and (0xc0 + p) 0x1f == p)) 32 ≡ true
unfolding every_below
lead2_bytes = refl

lead3_bytes :
    every_below
      (λ p.
        not (bit_and (0xe0 + p) 0xe0 == 0xc0)
        && (bit_and (0xe0 + p) 0xf0 == 0xe0)
        && (bit_and (0xe0 + p) 0x0f == p))
      16
    ≡ true
unfolding every_below
lead3_bytes = refl

tail_bytes :
    every_below (λ c. (bit_and (0x80 + c) 0xc0 == 0x80) && (bit_and (0x80 + c) 0x3f == c)) 64 ≡ true
unfolding every_below
tail_bytes = refl

-- A byte from 0x80 on goes to the decoder: as a first byte, or as a further one.
fb_putc-lead :
    (font : ℕ → ℕ → ℕ) (b : ℕ) (f : Fb)
    → f.enabled ≡ true
    → 0x80 ≤ b
    → f.expect ≡ 0
    → fb_putc font b f ≡ lead_byte b f
unfolding fb_putc
fb_putc-lead font b f on high start =
    let P : Fb → Type 0 = λ r. r ≡ lead_byte b f in
    if-both P (not f.enabled) _ _ (λ h. absurd (ground (arith, h, on)))
      (λ _.
        if-both P (b == 10) _ _ (λ h. absurd (ground (arith, h, high)))
          (λ _.
            if-both P (b == 13) _ _ (λ h. absurd (ground (arith, h, high)))
              (λ _.
                if-both P (b == 8) _ _ (λ h. absurd (ground (arith, h, high)))
                  (λ _.
                    if-both P (b == 9) _ _ (λ h. absurd (ground (arith, h, high)))
                      (λ _.
                        if-both P (ltb b 0x20) _ _ (λ h. absurd (ground (arith, h, high)))
                          (λ _.
                            if-both P (ltb b 0x80 && (f.expect == 0)) _ _
                              (λ h. absurd (ground (arith, h, high)))
                              (λ _.
                                if-both P (f.expect == 0) _ _ (λ _. refl)
                                  (λ h. absurd (ground (arith, h, start))))))))))

fb_putc-continue :
    (font : ℕ → ℕ → ℕ) (b : ℕ) (f : Fb)
    → f.enabled ≡ true
    → 0x80 ≤ b
    → 1 ≤ f.expect
    → fb_putc font b f ≡ continue_byte font b f
unfolding fb_putc
fb_putc-continue font b f on high more =
    let P : Fb → Type 0 = λ r. r ≡ continue_byte font b f in
    if-both P (not f.enabled) _ _ (λ h. absurd (ground (arith, h, on)))
      (λ _.
        if-both P (b == 10) _ _ (λ h. absurd (ground (arith, h, high)))
          (λ _.
            if-both P (b == 13) _ _ (λ h. absurd (ground (arith, h, high)))
              (λ _.
                if-both P (b == 8) _ _ (λ h. absurd (ground (arith, h, high)))
                  (λ _.
                    if-both P (b == 9) _ _ (λ h. absurd (ground (arith, h, high)))
                      (λ _.
                        if-both P (ltb b 0x20) _ _ (λ h. absurd (ground (arith, h, high)))
                          (λ _.
                            if-both P (ltb b 0x80 && (f.expect == 0)) _ _
                              (λ h. absurd (ground (arith, h, high)))
                              (λ _.
                                if-both P (f.expect == 0) _ _
                                  (λ h. absurd (ground (arith, h, more))) (λ _. refl))))))))

-- The last byte of a character, which `top` holds the higher bits of.
abbrev pub finish : (ℕ → ℕ → ℕ) → ℕ → ℕ → Fb → Fb
finish font uni top f =
    scroll
      (record (put_glyph font (u8 (unicode_to_cp1251 uni))
        (record f { pending = top; expect = 0 })) { pending = 0 })

tail_step :
    (font : ℕ → ℕ → ℕ) (c : ℕ) (f : Fb)
    → f.enabled ≡ true
    → 1 ≤ f.expect
    → c < 64
    → fb_putc font (0x80 + c) f ≡ (
        if not (f.expect - 1 == 0)
        then record f { pending = f.pending * 64 + c; expect = f.expect - 1 }
        else scroll
            (record (put_glyph font
              (u8 (unicode_to_cp1251 (f.pending * 64 + c)))
              (record f { expect = 0 })) { pending = 0 }))
unfolding continue_byte
tail_step font c f on more small =
    let t = every_below-at _ 64 c small tail_bytes in
    let kept : bit_and (0x80 + c) 0x3f ≡ c = ground (arith, t) in
    let is_tail : (bit_and (0x80 + c) 0xc0 == 0x80) ≡ true = ground (arith, t) in
    fb_putc-continue font (0x80 + c) f on (omega arith) more
    ∙ rw (is_tail, kept, bit_or_shifted 6 f.pending c small) refl

-- On an enabled console a code point of two bytes that arrives between characters is drawn, as
-- its CP1251 glyph, by the second byte, and the decoder is then between characters again.
pub fb_putc-two_bytes :
    (font : ℕ → ℕ → ℕ) (uni : ℕ) (f : Fb)
    → f.enabled ≡ true
    → f.expect ≡ 0
    → 0x80 ≤ uni
    → uni < 0x800
    → fb_putc font (0x80 + uni % 64) (fb_putc font (0xc0 + uni / 64) f)
      ≡ finish font uni (uni / 64) f
unfolding lead_byte
fb_putc-two_bytes font uni f on start low high =
    let t = every_below-at _ 32 (uni / 64) (omega (arith, high)) lead2_bytes in
    let is_lead : (bit_and (0xc0 + uni / 64) 0xe0 == 0xc0) ≡ true = ground (arith, t) in
    let top : bit_and (0xc0 + uni / 64) 0x1f ≡ uni / 64 = ground (arith, t) in
    let first : fb_putc font (0xc0 + uni / 64) f ≡ record f { pending = uni / 64; expect = 1 } =
      fb_putc-lead font (0xc0 + uni / 64) f on (omega arith) start ∙ rw (is_lead, top) refl in
    let whole : uni / 64 * 64 + uni % 64 ≡ uni = omega arith in
    ap (fb_putc font (0x80 + uni % 64)) first
    ∙ tail_step font (uni % 64) (record f { pending = uni / 64; expect = 1 }) on (omega arith)
        (omega arith)
    ∙ rw whole refl

-- On an enabled console a code point of three bytes that arrives between characters is drawn, as
-- its CP1251 glyph, by the third byte, and the decoder is then between characters again.
pub fb_putc-three_bytes :
    (font : ℕ → ℕ → ℕ) (uni : ℕ) (f : Fb)
    → f.enabled ≡ true
    → f.expect ≡ 0
    → 0x800 ≤ uni
    → uni < 0x10000
    → fb_putc font
        (0x80 + uni % 64)
        (fb_putc font (0x80 + uni / 64 % 64) (fb_putc font (0xe0 + uni / 4096) f))
      ≡ finish font uni (uni / 64) f
unfolding lead_byte
fb_putc-three_bytes font uni f on start low high =
    let t = every_below-at _ 16 (uni / 4096) (omega (arith, high)) lead3_bytes in
    let not2 : (bit_and (0xe0 + uni / 4096) 0xe0 == 0xc0) ≡ false = ground (arith, t) in
    let is_lead : (bit_and (0xe0 + uni / 4096) 0xf0 == 0xe0) ≡ true = ground (arith, t) in
    let top : bit_and (0xe0 + uni / 4096) 0x0f ≡ uni / 4096 = ground (arith, t) in
    let first : fb_putc font (0xe0 + uni / 4096) f ≡ record f { pending = uni / 4096; expect = 2 } =
      fb_putc-lead font (0xe0 + uni / 4096) f on (omega arith) start
      ∙ rw (not2, is_lead, top) refl in
    let middle : uni / 4096 * 64 + uni / 64 % 64 ≡ uni / 64 = omega arith in
    let whole : uni / 64 * 64 + uni % 64 ≡ uni = omega arith in
    let second : fb_putc font (0x80 + uni / 64 % 64) (record f { pending = uni / 4096; expect = 2 })
        ≡ record f { pending = uni / 64; expect = 1 } =
      tail_step font (uni / 64 % 64) (record f { pending = uni / 4096; expect = 2 }) on
        (omega arith) (omega arith)
      ∙ rw middle refl in
    ap (λ r. fb_putc font (0x80 + uni % 64) (fb_putc font (0x80 + uni / 64 % 64) r)) first
    ∙ ap (fb_putc font (0x80 + uni % 64)) second
    ∙ tail_step font (uni % 64) (record f { pending = uni / 64; expect = 1 }) on (omega arith)
        (omega arith)
    ∙ rw whole refl
