-- ===== src/Ehci/State.antt =====
-- The variables of ehci.c, its access to the controller, its descriptors and its pools.
use apsyde.Common.{
  ℕ, ◌+◌, ◌-◌, ◌*◌, ◌^◌, bit_and, bit_or, Bool, not, Option, none, some, List, leb, ◌==◌,
  if◌then◌else◌, u32, ◌<<<◌,
}
use apsyde.Common.Ring.{put}

abbrev pub ehci_usbcmd : ℕ
ehci_usbcmd = 0x00

abbrev pub ehci_usbsts : ℕ
ehci_usbsts = 0x04

abbrev pub ehci_usbintr : ℕ
ehci_usbintr = 0x08

abbrev pub ehci_ctrldssegment : ℕ
ehci_ctrldssegment = 0x10

abbrev pub ehci_periodiclist : ℕ
ehci_periodiclist = 0x14

abbrev pub ehci_asynclistaddr : ℕ
ehci_asynclistaddr = 0x18

abbrev pub ehci_configflag : ℕ
ehci_configflag = 0x40

abbrev pub ehci_portsc : ℕ → ℕ
ehci_portsc n = 0x44 + n * 4

abbrev pub ehci_terminate : ℕ
ehci_terminate = 1

abbrev pub ehci_qh_type : ℕ
ehci_qh_type = 2

abbrev pub ehci_max_qh : ℕ
ehci_max_qh = 8

abbrev pub ehci_max_qtd : ℕ
ehci_max_qtd = 32

-- `x & bit` for one bit, as a test.
unfoldable pub has_bit : ℕ → ℕ → Bool
has_bit x k = not (bit_and x (2 ^ k) == 0)

-- `x & ~mask` in 32 bits.
unfoldable pub without : ℕ → ℕ → ℕ
without x mask = bit_and x (2 ^ 32 - 1 - mask)

-- `ehci_qh_t` and `ehci_qtd_t`; of the five buffer pointers the first is used and the others are 0.
pub record Qh : Type 0 where
  pub horiz_link : ℕ
  pub ep_char : ℕ
  pub ep_caps : ℕ
  pub current_qtd : ℕ
  pub next_qtd : ℕ
  pub alt_next_qtd : ℕ
  pub token : ℕ
  pub buf : ℕ

pub record Qtd : Type 0 where
  pub next_qtd : ℕ
  pub alt_next_qtd : ℕ
  pub token : ℕ
  pub buf : ℕ

abbrev pub zero_qh : Qh
zero_qh = record {
  horiz_link = 0;
  ep_char = 0;
  ep_caps = 0;
  current_qtd = 0;
  next_qtd = 0;
  alt_next_qtd = 0;
  token = 0;
  buf = 0;
}

abbrev pub zero_qtd : Qtd
zero_qtd = record { next_qtd = 0; alt_next_qtd = 0; token = 0; buf = 0 }

-- The controller, which is not the kernel's code, with a state of its own: what a register reads as,
-- what a write does, what the token of a qTD in the pool reads as while the controller may change
-- it, and what it put in the data buffer.
pub record Controller (D : Type 0) : Type 0 where
  pub read32 : ℕ → D → ℕ × D
  pub write32 : ℕ → ℕ → D → D
  pub read_token : ℕ → D → ℕ × D
  pub received : D → ℕ → ℕ

-- The addresses that virt_to_phys gives for the static arrays, by the index in a pool.
pub record Addresses : Type 0 where
  pub of_qh : ℕ → ℕ
  pub of_qtd : ℕ → ℕ
  pub of_head : ℕ
  pub of_setup : ℕ
  pub of_data : ℕ

-- `found`, `mmio`, … are `g_ehci_found`, `g_ehci_mmio`, …, and `dev` is the controller's state.
pub record Ehci (D : Type 0) : Type 0 where
  pub found : Bool
  pub mmio : ℕ
  pub caplength : ℕ
  pub num_ports : ℕ
  pub qh_used : ℕ
  pub qtd_used : ℕ
  pub qh_pool : ℕ → Qh
  pub qtd_pool : ℕ → Qtd
  pub async_head : Qh
  pub setup_buf : List ℕ
  pub dev : D

module _ {D : Type 0} (hw : Controller D) where
  unfoldable pub ehci_read_op : ℕ → Ehci D → ℕ × Ehci D
  ehci_read_op off s =
      if s.mmio == 0
      then (0, s)
      else let r = hw.read32 (s.mmio + (s.caplength + off)) s.dev in (r.0, record s { dev = r.1 })

  unfoldable pub ehci_write_op : ℕ → ℕ → Ehci D → Ehci D
  ehci_write_op off val s =
      if s.mmio == 0
      then s
      else record s { dev = hw.write32 (s.mmio + (s.caplength + off)) val s.dev }

module _ {D : Type 0} where
  unfoldable pub ehci_pool_reset : Ehci D → Ehci D
  ehci_pool_reset s = record s {
    qh_used = 0;
    qtd_used = 0;
    qh_pool = λ i. zero_qh;
    qtd_pool = λ i. zero_qtd;
  }

  -- The index of the new descriptor, or `none` for a null pointer.
  unfoldable pub qh_alloc : Ehci D → Option ℕ × Ehci D
  qh_alloc s = if leb ehci_max_qh s.qh_used then (none, s) else (
    some s.qh_used,
    record s { qh_used = s.qh_used + 1; qh_pool = put s.qh_pool s.qh_used zero_qh },
  )

  unfoldable pub qtd_alloc : Ehci D → Option ℕ × Ehci D
  qtd_alloc s = if leb ehci_max_qtd s.qtd_used then (none, s) else (
    some s.qtd_used,
    record s { qtd_used = s.qtd_used + 1; qtd_pool = put s.qtd_pool s.qtd_used zero_qtd },
  )

-- `qtd_make_token`
unfoldable pub qtd_make_token : ℕ → ℕ → Bool → ℕ
qtd_make_token pid bytes ioc =
    let token = bit_or (bit_or (u32 (pid <<< 8)) (3 <<< 10)) (bit_and bytes 0x7fff <<< 16) in
    bit_or (if ioc then bit_or token (2 ^ 31) else token) (2 ^ 7)

-- qtd_prepare with qtd_set_buffer, where `buf` is 0 when the source sets no buffer.
unfoldable pub qtd_prepare : ℕ → ℕ → Bool → ℕ → Qtd
qtd_prepare next_phys token toggle_next buf = record {
  next_qtd = (if toggle_next then bit_or next_phys (2 ^ 31) else next_phys);
  alt_next_qtd = ehci_terminate;
  token = token;
  buf = buf;
}

unfoldable pub qtd_status : ℕ → ℕ
qtd_status token = bit_and token 0x7f
