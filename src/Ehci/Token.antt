-- ===== src/Ehci/Token.antt =====
-- The words of a transfer descriptor of ehci.c.
use apsyde.Common.Bits.{bit_or_comm, bit_or_shifted, bit_and_mask}
use apsyde.Ehci.State.{qtd_make_token, qtd_prepare}
use apsyde.Common.{
  ℕ, ◌+◌, ◌*◌, ◌^◌, ◌<◌, bit_or, ◌≡◌, Bool, true, if◌then◌else◌, bit_and, ap, ◌∙◌, false, arith,
  u32, ◌<<<◌,
}

or_above :
    (k a b : ℕ) → b < 2 ^ k → b < 2 ^ 32 → a * 2 ^ k < 2 ^ 32 → bit_or b (a * 2 ^ k) ≡ a * 2 ^ k + b
or_above k a b hb hs hc = bit_or_comm 32 b (a * 2 ^ k) hs hc ∙ bit_or_shifted k a b hb

active_last : (c n : ℕ) → n ≡ c * 2 ^ 8 → bit_or n (2 ^ 7) ≡ 2 ^ 7 + n
active_last c n e =
    ap (λ t. bit_or t (2 ^ 7)) e ∙ bit_or_shifted 8 c (2 ^ 7) (omega arith) ∙ omega (arith, e)

-- The token of a transfer of fewer than 32,768 bytes: it is active, three errors are allowed, and the
-- packet kind, the length and the interrupt flag are in their places.
pub qtd_make_token_lem :
    (pid bytes : ℕ) (ioc : Bool)
    → pid < 4
    → bytes < 2 ^ 15
    → qtd_make_token pid bytes ioc
      ≡ 2 ^ 7 + (pid * 2 ^ 8 + 3 * 2 ^ 10 + bytes * 2 ^ 16 + (if ioc then 2 ^ 31 else 0))
unfolding qtd_make_token
qtd_make_token_lem pid bytes ioc hp hb =
    let whole : u32 (pid <<< 8) ≡ pid * 2 ^ 8 = omega (arith, hp) in
    let length_is : bit_and bytes 0x7fff ≡ bytes = omega (arith, bit_and_mask 15 bytes, hb) in
    let first : bit_or (pid * 2 ^ 8) (3 * 2 ^ 10) ≡ 3 * 2 ^ 10 + pid * 2 ^ 8 =
      or_above 10 3 (pid * 2 ^ 8) (omega (arith, hp)) (omega (arith, hp)) (omega arith) in
    let low = 3 * 2 ^ 10 + pid * 2 ^ 8 in
    let second : bit_or low (bytes * 2 ^ 16) ≡ bytes * 2 ^ 16 + low =
      or_above 16 bytes low (omega (arith, hp)) (omega (arith, hp)) (omega (arith, hb)) in
    let token = bytes * 2 ^ 16 + low in
    let third : bit_or token (1 * 2 ^ 31) ≡ 1 * 2 ^ 31 + token =
      or_above 31 1 token (omega (arith, hp, hb)) (omega (arith, hp, hb)) (omega arith) in
    let c = bytes * 2 ^ 8 + 12 + pid in
    rw (whole, length_is, first, second)
      (elim ioc
        as (λ b.
          bit_or (if b then bit_or token (2 ^ 31) else token) (2 ^ 7)
          ≡ 2 ^ 7 + (pid * 2 ^ 8 + 3 * 2 ^ 10 + bytes * 2 ^ 16 + (if b then 2 ^ 31 else 0))) [
            | true ↦
                ap (λ t. bit_or t (2 ^ 7)) third
                ∙ active_last (c + 2 ^ 23) (1 * 2 ^ 31 + token) (omega arith)
                ∙ omega arith
            | false ↦ active_last c token (omega arith) ∙ omega arith
          ])

-- The toggle bit is put in the link: the link of a descriptor whose next one lies below 2 GiB is
-- 2 GiB more than that address.
pub qtd_prepare-toggle :
    (next_phys token buf : ℕ)
    → next_phys < 2 ^ 31
    → (qtd_prepare next_phys token true buf).next_qtd ≡ next_phys + 2 ^ 31
unfolding qtd_prepare
qtd_prepare-toggle next_phys token buf h =
    or_above 31 1 next_phys h (omega (arith, h)) (omega arith) ∙ omega arith
