-- ===== src/Pmm/Init/Regions.antt =====
-- Passes 2 to 6 of pmm_init in pmm.c over the region table: which pages end up free.
use apsyde.Common.{
  ℕ, ◌+◌, ◌-◌, ◌/◌, ◌^◌, ◌<◌, bit_and, ◌≡◌, refl, inl, inr, Bool, true, false, not, ◌&&◌, ◌||◌,
  none, some, List, [], ◌∷◌, arith, ◌==◌, if◌then◌else◌, Bool-cases, Option-cases, u64, sub64,
}
use apsyde.Pmm.State.{Pmm, Region, page_size, phys_to_bit}
use apsyde.Pmm.Init.{
  reserve_image, release_regions, reserve_boot_services, boot_services_code, Marks, is_usable,
  boot_services_data, release_run, reserve_run,
}
use apsyde.Pmm.Init.Marks.{
  Counted, covers, release_run-IsBytes, reserve_run-Counted, reserve_run-IsBytes, release_run-test,
  reserve_run-test, release_run-Counted,
}
use apsyde.Pmm.Bitmap.Laws.{IsBytes}
use apsyde.Pmm.Bitmap.{bitmap_test}

abbrev pub start_bit : ℕ → Region → ℕ
start_bit lo r = sub64 r.base lo / page_size

-- Region `r` makes page `j` available.
abbrev pub releases : ℕ → ℕ → ℕ → Region → Bool
releases lo cover j r = is_usable r.flags && covers cover (start_bit lo r) r.pages j

-- Region `r` belongs to the boot services and holds page `j`.
abbrev pub boots : ℕ → ℕ → ℕ → Region → Bool
boots lo cover j r =
    (r.kind == boot_services_code || r.kind == boot_services_data)
    && covers cover (start_bit lo r) r.pages j

abbrev pub any_region : (Region → Bool) → List Region → Bool
any_region p [] = false
any_region p (r ∷ rs) = p r || any_region p rs

-- The pages that reserve_image marks.
abbrev pub image_holds : Pmm → ℕ → ℕ → ℕ → Bool
image_holds s from to j =
    let start = bit_and from 0xffff_ffff_ffff_f000 in
    let stop = bit_and (u64 (to + page_size - 1)) 0xffff_ffff_ffff_f000 in
    elim (phys_to_bit s start) [
      | none ↦ false
      | some bit ↦ covers s.bitmap_pages bit (sub64 stop start / page_size) j
    ]

-- No page is made available by two regions of the table.
abbrev pub Separate : ℕ → ℕ → List Region → Type 0
Separate lo cover [] = Unit {0}
Separate lo cover (r ∷ rs) =
    ((j : ℕ) → releases lo cover j r ≡ true → any_region (releases lo cover j) rs ≡ false)
    × Separate lo cover rs

abbrev release_one : ℕ → ℕ → Region → Marks → Marks
release_one lo cover r m =
    if not (is_usable r.flags) then m else release_run cover r.pages (start_bit lo r) m

release_one-IsBytes :
    (lo cover : ℕ) (r : Region) (m : Marks) → IsBytes m.0 → IsBytes (release_one lo cover r m).0
release_one-IsBytes lo cover r m v = elim (Bool-cases (is_usable r.flags)) [
  | inl u ↦ rw u (release_run-IsBytes cover r.pages _ m v)
  | inr n ↦ rw n v
]

release_one-test :
    (lo cover : ℕ) (r : Region) (m : Marks) (j : ℕ)
    → cover < 2 ^ 32
    → IsBytes m.0
    → bitmap_test (release_one lo cover r m).0 j
      ≡ (if releases lo cover j r then false else bitmap_test m.0 j)
release_one-test lo cover r m j w v =
    ground (arith, release_run-test cover r.pages (start_bit lo r) m j w v)

pub release_regions-IsBytes :
    (lo cover : ℕ) (rs : List Region) (m : Marks)
    → IsBytes m.0
    → IsBytes (release_regions lo cover rs m).0
unfolding release_regions
release_regions-IsBytes lo cover [] m v = v
release_regions-IsBytes lo cover (r ∷ rs) m v =
    release_regions-IsBytes lo cover rs _ (release_one-IsBytes lo cover r m v)

pub release_regions-test :
    (lo cover : ℕ) (rs : List Region) (m : Marks) (j : ℕ)
    → cover < 2 ^ 32
    → IsBytes m.0
    → bitmap_test (release_regions lo cover rs m).0 j
      ≡ (if any_region (releases lo cover j) rs then false else bitmap_test m.0 j)
unfolding release_regions
release_regions-test lo cover [] m j w v = refl
release_regions-test lo cover (r ∷ rs) m j w v = ground (
  arith,
  release_regions-test lo cover rs (release_one lo cover r m) j w
      (release_one-IsBytes lo cover r m v),
  release_one-test lo cover r m j w v,
)

release_one-Counted :
    (lo cover : ℕ) (r : Region) (m : Marks)
    → cover < 2 ^ 32
    → Counted cover m
    → ((j : ℕ) → releases lo cover j r ≡ true → bitmap_test m.0 j ≡ true)
    → Counted cover (release_one lo cover r m)
release_one-Counted lo cover r m w v used = elim (Bool-cases (is_usable r.flags)) [
  | inl u ↦ rw u (release_run-Counted cover r.pages _ m w v (λ j h. ground (arith, u, used j)))
  | inr n ↦ rw n v
]

pub release_regions-Counted :
    (lo cover : ℕ) (rs : List Region) (m : Marks)
    → cover < 2 ^ 32
    → Counted cover m
    → Separate lo cover rs
    → ((j : ℕ) → any_region (releases lo cover j) rs ≡ true → bitmap_test m.0 j ≡ true)
    → Counted cover (release_regions lo cover rs m)
unfolding release_regions
release_regions-Counted lo cover [] m w v sep used = v
release_regions-Counted lo cover (r ∷ rs) m w v sep used =
    release_regions-Counted lo cover rs (release_one lo cover r m) w
      (release_one-Counted lo cover r m w v (λ j h. ground (arith, used j))) sep.1
      (λ j h. ground (arith, sep.0 j, used j, release_one-test lo cover r m j w v.bytes))

abbrev boot_one : ℕ → ℕ → Region → Marks → Marks
boot_one lo cover r m =
    if r.kind == boot_services_code || r.kind == boot_services_data
    then reserve_run cover r.pages (start_bit lo r) m
    else m

boot_one-IsBytes :
    (lo cover : ℕ) (r : Region) (m : Marks) → IsBytes m.0 → IsBytes (boot_one lo cover r m).0
boot_one-IsBytes lo cover r m v =
    elim (Bool-cases (r.kind == boot_services_code || r.kind == boot_services_data)) [
      | inl u ↦ rw u (reserve_run-IsBytes cover r.pages _ m v)
      | inr n ↦ rw n v
    ]

boot_one-Counted :
    (lo cover : ℕ) (r : Region) (m : Marks)
    → cover < 2 ^ 32
    → Counted cover m
    → Counted cover (boot_one lo cover r m)
boot_one-Counted lo cover r m w v =
    elim (Bool-cases (r.kind == boot_services_code || r.kind == boot_services_data)) [
      | inl u ↦ rw u (reserve_run-Counted cover r.pages _ m w v)
      | inr n ↦ rw n v
    ]

pub boots-test :
    (lo cover : ℕ) (rs : List Region) (m : Marks) (j : ℕ)
    → cover < 2 ^ 32
    → IsBytes m.0
    → bitmap_test (reserve_boot_services lo cover rs m).0 j
      ≡ (if any_region (boots lo cover j) rs then true else bitmap_test m.0 j)
unfolding reserve_boot_services
boots-test lo cover [] m j w v = refl
boots-test lo cover (r ∷ rs) m j w v = ground (
  arith,
  boots-test lo cover rs (boot_one lo cover r m) j w (boot_one-IsBytes lo cover r m v),
  reserve_run-test cover r.pages (start_bit lo r) m j w v,
)

pub boots-Counted :
    (lo cover : ℕ) (rs : List Region) (m : Marks)
    → cover < 2 ^ 32
    → Counted cover m
    → Counted cover (reserve_boot_services lo cover rs m)
unfolding reserve_boot_services
boots-Counted lo cover [] m w v = v
boots-Counted lo cover (r ∷ rs) m w v =
    boots-Counted lo cover rs _ w (boot_one-Counted lo cover r m w v)

pub image-IsBytes :
    (s : Pmm) (from to : ℕ) (m : Marks) → IsBytes m.0 → IsBytes (reserve_image s from to m).0
unfolding reserve_image
image-IsBytes s from to m v =
    elim (Option-cases (phys_to_bit s (bit_and from 0xffff_ffff_ffff_f000))) [
      | inl e ↦ rw (e, reserve_image) v
      | inr (bit, e) ↦ rw (e, reserve_image) (reserve_run-IsBytes s.bitmap_pages _ bit m v)
    ]

pub image-Counted :
    (s : Pmm) (from to : ℕ) (m : Marks)
    → s.bitmap_pages < 2 ^ 32
    → Counted s.bitmap_pages m
    → Counted s.bitmap_pages (reserve_image s from to m)
unfolding reserve_image
image-Counted s from to m w v =
    elim (Option-cases (phys_to_bit s (bit_and from 0xffff_ffff_ffff_f000))) [
      | inl e ↦ rw (e, reserve_image) v
      | inr (bit, e) ↦ rw (e, reserve_image) (reserve_run-Counted s.bitmap_pages _ bit m w v)
    ]

pub image-test :
    (s : Pmm) (from to : ℕ) (m : Marks) (j : ℕ)
    → s.bitmap_pages < 2 ^ 32
    → IsBytes m.0
    → bitmap_test (reserve_image s from to m).0 j
      ≡ (if image_holds s from to j then true else bitmap_test m.0 j)
unfolding reserve_image
image-test s from to m j w v =
    elim (Option-cases (phys_to_bit s (bit_and from 0xffff_ffff_ffff_f000))) [
      | inl e ↦ rw (e, reserve_image, image_holds) refl
      | inr (bit, e) ↦
          rw (e, reserve_image, image_holds) (reserve_run-test s.bitmap_pages _ bit m j w v)
    ]
