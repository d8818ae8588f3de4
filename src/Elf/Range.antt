-- ===== src/Elf/Range.antt =====
-- The pages that elf_load asks for hold every byte that it writes.
use apsyde.Common.{
  ℕ, zero, suc, ◌+◌, ◌-◌, ◌^◌, ◌≤◌, ◌<◌, ◌≡◌, refl, ◌∙◌, ◌⊎◌, inl, inr, false, not, List, [], ◌∷◌,
  arith, ltb, ◌==◌, if◌then◌else◌, Bool-cases, if-both, All, u64, ◌*◌, ap, Bool, ◌/◌, sub64,
}
use apsyde.Elf.{
  load_error, refused, success, clear_bytes, copy_bytes, Phdr, load_segment, load_segments,
  range_from, pt_load, elf_load, page_range, Ehdr, success, Loaded, page_floor, elf_magic,
}
use apsyde.Common.Ring.{put}
use apsyde.Common.Bits.{bit_and_align}

-- A segment of a file is no longer than in memory, and ends below the last page of 2^64 bytes.
pub record IsSound (ph : Phdr) : Type 0 where
  pub fits : ph.p_filesz ≤ ph.p_memsz
  pub below : ph.p_paddr + ph.p_memsz ≤ 2 ^ 64 - 4096

-- The range only grows.
range_from-grows :
    (phs : List Phdr) (lo hi : ℕ)
    → ((range_from phs lo hi).0 ≤ lo) × (hi ≤ (range_from phs lo hi).1)
unfolding range_from
range_from-grows [] lo hi = (omega arith, omega arith)
range_from-grows (ph ∷ phs) lo hi =
    let end = u64 (ph.p_paddr + ph.p_memsz) in
    let lo' = if ltb ph.p_paddr lo then ph.p_paddr else lo in
    let hi' = if ltb hi end then end else hi in
    if-both (λ (r : ℕ × ℕ). (r.0 ≤ lo) × (hi ≤ r.1)) (not (ph.p_type == pt_load)) _ _
      (λ _. range_from-grows phs lo hi)
      (λ _.
        let g = range_from-grows phs lo' hi' in
        let down : lo' ≤ lo = ground arith in
        let up : hi ≤ hi' = ground arith in (omega (arith, g.0, down), omega (arith, g.1, up)))

-- An address outside of a range keeps its byte.
copy_bytes-outside :
    (file : ℕ → ℕ) (src dst left b : ℕ) (memory : ℕ → ℕ) (a : ℕ)
    → (a < dst + b) ⊎ (dst + b + left ≤ a)
    → copy_bytes file src dst left b memory a ≡ memory a
unfolding copy_bytes
copy_bytes-outside file src dst zero b memory a out = refl
copy_bytes-outside file src dst (suc left) b memory a out =
    let miss : (dst + b == a) ≡ false = ground (arith, out) in
    copy_bytes-outside file src dst left (b + 1) (put memory (dst + b) (file (src + b))) a
      (ground (arith, out))
    ∙ rw miss refl

clear_bytes-outside :
    (dst left b : ℕ) (memory : ℕ → ℕ) (a : ℕ)
    → (a < dst + b) ⊎ (dst + b + left ≤ a)
    → clear_bytes dst left b memory a ≡ memory a
unfolding clear_bytes
clear_bytes-outside dst zero b memory a out = refl
clear_bytes-outside dst (suc left) b memory a out =
    let miss : (dst + b == a) ≡ false = ground (arith, out) in
    clear_bytes-outside dst left (b + 1) (put memory (dst + b) 0) a (ground (arith, out))
    ∙ rw miss refl

load_segment-outside :
    (file : ℕ → ℕ) (ph : Phdr) (memory : ℕ → ℕ) (a : ℕ)
    → IsSound ph
    → (a < ph.p_paddr) ⊎ (ph.p_paddr + ph.p_memsz ≤ a)
    → load_segment file ph memory a ≡ memory a
unfolding load_segment
load_segment-outside file ph memory a v out =
    clear_bytes-outside ph.p_paddr (ph.p_memsz - ph.p_filesz) ph.p_filesz _ a
      (ground (arith, out, v.fits))
    ∙ copy_bytes-outside file ph.p_offset ph.p_paddr ph.p_filesz 0 memory a
        (ground (arith, out, v.fits))

-- An address that is in none of the bytes between two bounds.
abbrev pub Outside : ℕ × ℕ → ℕ → Type 0
Outside r a = (a < r.0) ⊎ (r.1 ≤ a)

Outside-eq : (r r' : ℕ × ℕ) (a : ℕ) → r ≡ r' → Outside r a → Outside r' a
Outside-eq r r' a e (inl low) = inl (omega (arith, low, ap (λ (x : ℕ × ℕ). x.0) e))
Outside-eq r r' a e (inr high) = inr (omega (arith, high, ap (λ (x : ℕ × ℕ). x.1) e))

-- Outside of the range so far, and so outside of a segment that the range takes in.
segment-Outside :
    (ph : Phdr) (phs : List Phdr) (lo hi a : ℕ)
    → IsSound ph
    → Outside
        (range_from phs
          (if ltb ph.p_paddr lo then ph.p_paddr else lo)
          (if ltb hi (u64 (ph.p_paddr + ph.p_memsz)) then u64 (ph.p_paddr + ph.p_memsz) else hi))
        a
    → (a < ph.p_paddr) ⊎ (ph.p_paddr + ph.p_memsz ≤ a)
segment-Outside ph phs lo hi a v out =
    let end = u64 (ph.p_paddr + ph.p_memsz) in
    let lo' = if ltb ph.p_paddr lo then ph.p_paddr else lo in
    let hi' = if ltb hi end then end else hi in
    let whole : end ≡ ph.p_paddr + ph.p_memsz = omega (arith, v.below) in
    let g = range_from-grows phs lo' hi' in
    let down : lo' ≤ ph.p_paddr = ground arith in
    let up : end ≤ hi' = ground arith in
    elim out [
      | inl low ↦ inl (omega (arith, low, g.0, down))
      | inr high ↦ inr (omega (arith, high, g.1, up, whole))
    ]

load_segments-Outside :
    (file : ℕ → ℕ) (phs : List Phdr) (lo hi : ℕ) (memory : ℕ → ℕ) (a : ℕ)
    → All IsSound phs
    → Outside (range_from phs lo hi) a
    → load_segments file phs memory a ≡ memory a
unfolding load_segments range_from
load_segments-Outside file [] lo hi memory a v out = refl
load_segments-Outside file (ph ∷ phs) lo hi memory a v out =
    let end = u64 (ph.p_paddr + ph.p_memsz) in
    let lo' = if ltb ph.p_paddr lo then ph.p_paddr else lo in
    let hi' = if ltb hi end then end else hi in
    elim (Bool-cases (not (ph.p_type == pt_load))) [
      | inl other ↦
          let e : range_from (ph ∷ phs) lo hi ≡ range_from phs lo hi = rw other refl in
          rw other (load_segments-Outside file phs lo hi memory a v.1 (Outside-eq _ _ a e out))
      | inr load ↦
          let e : range_from (ph ∷ phs) lo hi ≡ range_from phs lo' hi' = rw load refl in
          let out' = Outside-eq _ _ a e out in
          rw load (
            load_segments-Outside file phs lo' hi' (load_segment file ph memory) a v.1 out'
            ∙ load_segment-outside file ph memory a v.0 (segment-Outside ph phs lo hi a v.0 out'))
    ]

-- The end of the range: bounded by the start bound and the segments' ends.
range_from-below :
    (phs : List Phdr) (lo hi : ℕ)
    → All IsSound phs
    → hi ≤ 2 ^ 64 - 4096
    → (range_from phs lo hi).1 ≤ 2 ^ 64 - 4096
unfolding range_from
range_from-below [] lo hi v h = h
range_from-below (ph ∷ phs) lo hi v h =
    let end = u64 (ph.p_paddr + ph.p_memsz) in
    let whole : end ≤ 2 ^ 64 - 4096 = omega (arith, v.0.below) in
    if-both (λ (r : ℕ × ℕ). r.1 ≤ 2 ^ 64 - 4096) (not (ph.p_type == pt_load)) _ _
      (λ _. range_from-below phs lo hi v.1 h)
      (λ _. range_from-below phs _ (if ltb hi end then end else hi) v.1 (ground (arith, h, whole)))

-- The range is what it was before the pass, or its bounds are in order.
range_from-ordered :
    (phs : List Phdr) (lo hi : ℕ)
    → All IsSound phs
    → ((range_from phs lo hi).0 ≡ lo) ⊎ ((range_from phs lo hi).0 ≤ (range_from phs lo hi).1)
unfolding range_from
range_from-ordered [] lo hi v = inl refl
range_from-ordered (ph ∷ phs) lo hi v =
    let end = u64 (ph.p_paddr + ph.p_memsz) in
    let lo' = if ltb ph.p_paddr lo then ph.p_paddr else lo in
    let hi' = if ltb hi end then end else hi in
    let whole : ph.p_paddr ≤ end = omega (arith, v.0.below) in
    let down : lo' ≤ ph.p_paddr = ground arith in
    let up : end ≤ hi' = ground arith in
    let g = range_from-grows phs lo' hi' in
    if-both (λ (r : ℕ × ℕ). (r.0 ≡ lo) ⊎ (r.0 ≤ r.1)) (not (ph.p_type == pt_load)) _ _
      (λ _. range_from-ordered phs lo hi v.1) (λ _. inr (omega (arith, g.0, g.1, whole, down, up)))

-- Outside of the pages is outside of the range.
pages-Outside :
    (lo hi a : ℕ)
    → lo ≤ hi
    → hi ≤ 2 ^ 64 - 4096
    → (a < page_floor lo)
      ⊎ (page_floor lo + sub64 (page_floor (u64 (hi + 0xfff))) (page_floor lo) / 4096 * 4096 ≤ a)
    → Outside (lo, hi) a
pages-Outside lo hi a order top out =
    let low : page_floor lo ≡ lo / 4096 * 4096 = bit_and_align lo (omega (arith, order, top)) in
    let word : u64 (hi + 0xfff) ≡ hi + 0xfff = omega (arith, top) in
    let high : page_floor (u64 (hi + 0xfff)) ≡ (hi + 0xfff) / 4096 * 4096 =
      ap page_floor word ∙ bit_and_align (hi + 0xfff) (omega (arith, top)) in
    elim out [
      | inl under ↦ inl (omega (arith, under, low))
      | inr over ↦ inr (omega (arith, over, low, high, order, top))
    ]

-- The memory after a load; one that fails leaves it as it was.
unfoldable pub memory_after : (ℕ → ℕ) → Loaded → ℕ → ℕ
memory_after memory load_error = memory
memory_after memory refused = memory
memory_after memory (success entry after) = after

-- Where every segment of the file fits its size in memory and ends below the last page of the
-- address space, a load, whatever its outcome, changes no byte outside of the pages that it asks
-- the firmware for.
pub elf_load-inside :
    (allocate : ℕ → ℕ → Bool) (file : ℕ → ℕ) (eh : Ehdr) (memory : ℕ → ℕ) (a : ℕ)
    → All IsSound eh.headers
    → (a < (page_range eh.headers).0)
      ⊎ ((page_range eh.headers).0 + (page_range eh.headers).1 * 4096 ≤ a)
    → memory_after memory (elf_load allocate file eh memory) a ≡ memory a
unfolding elf_load page_range memory_after
elf_load-inside allocate file eh memory a v out =
    let P : Loaded → Type 0 = λ r. memory_after memory r a ≡ memory a in
    let r = range_from eh.headers (2 ^ 64 - 1) 0 in
    if-both P (not (eh.magic == elf_magic)) _ _ (λ _. refl)
      (λ _.
        if-both P (not (eh.elf_class == 2)) _ _ (λ _. refl)
          (λ _.
            if-both P (not (eh.e_type == 2)) _ _ (λ _. refl)
              (λ _.
                if-both P (r.0 == 2 ^ 64 - 1) _ _ (λ _. refl)
                  (λ some_load.
                    if-both P (not (allocate (page_range eh.headers).0 (page_range eh.headers).1)) _
                      _ (λ _. refl)
                      (λ _.
                        let top = range_from-below eh.headers (2 ^ 64 - 1) 0 v (omega arith) in
                        let order : r.0 ≤ r.1 =
                          elim (range_from-ordered eh.headers (2 ^ 64 - 1) 0 v) [
                            | inl none_seen ↦ absurd (ground (arith, none_seen, some_load))
                            | inr ordered ↦ ordered
                          ] in
                        load_segments-Outside file eh.headers (2 ^ 64 - 1) 0 memory a v
                          (pages-Outside r.0 r.1 a order top out))))))
