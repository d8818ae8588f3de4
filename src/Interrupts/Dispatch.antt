-- ===== src/Interrupts/Dispatch.antt =====
-- The dispatch of interrupts by irq.c.
use apsyde.Common.{
  ℕ, ◌+◌, ◌<◌, ◌≡◌, ◌∷◌, leb, ◌==◌, if◌then◌else◌, ◌-◌, refl, inl, inr, false, ◌||◌, arith, ltb,
  Bool-cases, if-both,
}
use apsyde.Interrupts.{
  irq_dispatch, pic_send_eoi, irq_register, Irqs, pic1_cmd, irq_count, pic_eoi, pic2_cmd,
  run_handler,
}

-- Whatever the vector, the dispatch ends with one end-of-interrupt command to the first
-- controller, before it one to the second if the vector is of its range or above, and no other
-- write.
pub irq_dispatch-acknowledges :
    {S : Type 0} (vector : ℕ) (q : Irqs S) (st : S)
    → (irq_dispatch vector q st).1.pics.sent
      ≡ (pic1_cmd, pic_eoi)
        ∷ (if leb 40 vector then (pic2_cmd, pic_eoi) ∷ q.pics.sent else q.pics.sent)
unfolding irq_dispatch pic_send_eoi
irq_dispatch-acknowledges {S} vector q st =
    let e : leb 8 (vector - 32) ≡ leb 40 vector = ground arith in
    if-both
      (λ (r : S × Irqs S).
        r.1.pics.sent
        ≡ (pic1_cmd, pic_eoi)
          ∷ (if leb 40 vector then (pic2_cmd, pic_eoi) ∷ q.pics.sent else q.pics.sent))
      (ltb vector 32 || leb irq_count (vector - 32)) _ _ (λ _. rw e refl) (λ _. rw e refl)

-- A handler that is registered for one of the 16 interrupts runs at its interrupt, and does not
-- run at the others: these do what they did before.
pub irq_dispatch-irq_register :
    {S : Type 0} (irq other : ℕ) (h : S → S) (q : Irqs S) (st : S)
    → irq < irq_count
    → other < irq_count
    → (irq_dispatch (32 + other) (irq_register irq h q) st).0
      ≡ (if irq == other then h st else (irq_dispatch (32 + other) q st).0)
unfolding irq_dispatch irq_register run_handler
irq_dispatch-irq_register {S} irq other h q st low low' =
    let known : leb irq_count irq ≡ false = ground (arith, low) in
    let m : 32 + other - 32 ≡ other = omega arith in
    let taken : (ltb (32 + other) 32 || leb irq_count other) ≡ false = ground (arith, low') in
    elim (Bool-cases (irq == other)) [
      | inl here ↦ rw (known, m, taken, here) refl
      | inr elsewhere ↦ rw (known, m, taken, elsewhere) refl
    ]
