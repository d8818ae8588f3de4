-- ===== src/Elf.antt =====
-- bootloader/src/elf.c: the loading of the kernel's image. The headers are records, the file and the
-- memory are functions of the offset and the address, and whether the firmware allocates the pages is
-- an argument. Nothing is said of what is printed.
pub mod Range
mod Tests
use apsyde.Common.{
  ℕ, zero, suc, ◌+◌, ◌-◌, ◌/◌, ◌^◌, bit_and, Bool, not, List, [], ◌∷◌, ltb, ◌==◌, if◌then◌else◌,
  u64, sub64,
}
use apsyde.Common.Ring.{put}

abbrev pub elf_magic : ℕ
elf_magic = 0x464c_457f

abbrev pub pt_load : ℕ
pt_load = 1

-- The fields of Elf64_Phdr that elf_load reads.
pub record Phdr : Type 0 where
  pub p_type : ℕ
  pub p_offset : ℕ
  pub p_paddr : ℕ
  pub p_filesz : ℕ
  pub p_memsz : ℕ

-- The fields of Elf64_Ehdr that elf_load reads; `magic` is the first four bytes of e_ident and
-- `elf_class` the fifth. The program headers are the e_phnum ones at e_phoff.
pub record Ehdr : Type 0 where
  pub magic : ℕ
  pub elf_class : ℕ
  pub e_type : ℕ
  pub e_entry : ℕ
  pub headers : List Phdr

-- EFI_LOAD_ERROR, the status of AllocatePages, or the entry point with the memory.
pub data Loaded : Type 0 where
  load_error refused : Loaded
  success : ℕ → (ℕ → ℕ) → Loaded

-- The first pass: the least and the greatest address.
unfoldable pub range_from : List Phdr → ℕ → ℕ → ℕ × ℕ
range_from [] lo hi = (lo, hi)
range_from (ph ∷ phs) lo hi =
    let end = u64 (ph.p_paddr + ph.p_memsz) in
    let lo' = if ltb ph.p_paddr lo then ph.p_paddr else lo in
    let hi' = if ltb hi end then end else hi in
    if not (ph.p_type == pt_load) then range_from phs lo hi else range_from phs lo' hi'

abbrev pub page_floor : ℕ → ℕ
page_floor x = bit_and x 0xffff_ffff_ffff_f000

-- The copying loop at byte `b`.
unfoldable pub copy_bytes : (ℕ → ℕ) → ℕ → ℕ → ℕ → ℕ → (ℕ → ℕ) → ℕ → ℕ
copy_bytes file src dst zero b memory = memory
copy_bytes file src dst (suc left) b memory =
    copy_bytes file src dst left (b + 1) (put memory (dst + b) (file (src + b)))

-- The loop that clears the rest of a segment.
unfoldable pub clear_bytes : ℕ → ℕ → ℕ → (ℕ → ℕ) → ℕ → ℕ
clear_bytes dst zero b memory = memory
clear_bytes dst (suc left) b memory = clear_bytes dst left (b + 1) (put memory (dst + b) 0)

unfoldable pub load_segment : (ℕ → ℕ) → Phdr → (ℕ → ℕ) → ℕ → ℕ
load_segment file ph memory =
    clear_bytes ph.p_paddr (ph.p_memsz - ph.p_filesz) ph.p_filesz
      (copy_bytes file ph.p_offset ph.p_paddr ph.p_filesz 0 memory)

-- The third pass.
unfoldable pub load_segments : (ℕ → ℕ) → List Phdr → (ℕ → ℕ) → ℕ → ℕ
load_segments file [] memory = memory
load_segments file (ph ∷ phs) memory =
    load_segments file phs
      (if not (ph.p_type == pt_load) then memory else load_segment file ph memory)

-- The first page and the number of pages asked of the firmware.
unfoldable pub page_range : List Phdr → ℕ × ℕ
page_range phs =
    let r = range_from phs (2 ^ 64 - 1) 0 in
    (page_floor r.0, sub64 (page_floor (u64 (r.1 + 0xfff))) (page_floor r.0) / 4096)

-- `allocate` is AllocatePages at an address, for a number of pages.
unfoldable pub elf_load : (ℕ → ℕ → Bool) → (ℕ → ℕ) → Ehdr → (ℕ → ℕ) → Loaded
elf_load allocate file eh memory =
    let pages = page_range eh.headers in
    if not (eh.magic == elf_magic)
    then load_error
    else if not (eh.elf_class == 2)
    then load_error
    else if not (eh.e_type == 2)
    then load_error
    else if (range_from eh.headers (2 ^ 64 - 1) 0).0 == 2 ^ 64 - 1
    then load_error
    else if not (allocate pages.0 pages.1)
    then refused
    else success eh.e_entry (load_segments file eh.headers memory)
