-- ===== src/Elf/Tests.antt =====
-- A run of the theorem on elf_load at an image of one segment.
use apsyde.Common.{◌<◌, ◌≡◌, inl, true, [], ◌∷◌, arith, All}
use apsyde.Elf.{Ehdr, elf_load, elf_magic, page_range, range_from}
use apsyde.Elf.Range.{memory_after, IsSound, elf_load-inside}

abbrev image : Ehdr
image = record {
  magic = elf_magic;
  elf_class = 2;
  e_type = 2;
  e_entry = 0x10_0010;
  headers =
      record { p_type = 1; p_offset = 0x1000; p_paddr = 0x10_0010; p_filesz = 3; p_memsz = 8 } ∷ [];
}

image-IsSound : All IsSound image.headers
image-IsSound = (record { fits = omega arith; below = omega arith }, tt)

below_pages : 0xf_ffff < (page_range image.headers).0
unfolding page_range range_from
below_pages = omega arith

elf_load-inside_example :
    memory_after (λ i. 7) (elf_load (λ start pages. true) (λ i. i) image (λ i. 7)) 0xf_ffff ≡ 7
elf_load-inside_example =
    elf_load-inside (λ start pages. true) (λ i. i) image (λ i. 7) 0xf_ffff image-IsSound
      (inl below_pages)
