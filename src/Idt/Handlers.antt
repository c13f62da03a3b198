-- ===== src/Idt/Handlers.antt =====
-- The dispatch of interrupts to the handlers that were registered.
use vv4os.Base.{
  ℕ, ◌+◌, ◌-◌, ◌^◌, ◌≤◌, ◌<◌, ◌≡◌, refl, ◌≢◌, Bool, false, some, List, [], ◌∷◌, arith, ltb, leb,
  ◌==◌, if◌then◌else◌, u32, inl, inr, Bool-cases,
}
use vv4os.Process.State.{Ptr, null, CpuState}
use vv4os.Idt.{
  Interrupts, called, ignored, register_isr_handler, register_soft_int_handler,
  register_irq_handler, isr_dispatch, soft_int_dispatch, irq_dispatch, irq_handler, irq_end,
}

from_base : (n base : ℕ) → base ≤ n → n < 256 → u32 (n + 2 ^ 32 - base) ≡ n - base
from_base n base h small = omega arith

isr_step :
    (n : ℕ) (h : Ptr) (t : Interrupts) (s : CpuState)
    → n < 32
    → h ≢ null
    → isr_dispatch (record t { isr_handlers = λ k. if k == n then h else t.isr_handlers k }) s
      ≡ (if s.interrupt == n then called h else isr_dispatch t s)
unfolding isr_dispatch
isr_step n h t s small live = ground arith

-- Registering a handler for an exception, where the vector is below 32, changes what that vector
-- calls, and nothing else of what the exceptions call.
pub isr_dispatch-register_isr_handler :
    (n : ℕ) (h : Ptr) (t : Interrupts)
    → n < 32
    → h ≢ null
    → (t' : Interrupts) × (register_isr_handler n h t ≡ some t')
      × ((s : CpuState)
          → isr_dispatch t' s ≡ (if s.interrupt == n then called h else isr_dispatch t s))
unfolding register_isr_handler
isr_dispatch-register_isr_handler n h t small live =
    let inside : leb 32 n ≡ false = ground arith in
    (
      record t { isr_handlers = λ k. if k == n then h else t.isr_handlers k },
      rw inside refl,
      λ s. isr_step n h t s small live,
    )

abbrev with_irq : ℕ → Ptr → Interrupts → Interrupts
with_irq n h t = record t { irq_handlers = λ k. if k == n - 0x20 then h else t.irq_handlers k }

abbrev with_soft : ℕ → Ptr → Interrupts → Interrupts
with_soft n h t = record t {
  soft_int_handlers = λ k. if k == n - 0x30 then h else t.soft_int_handlers k;
}

with_irq-dispatch :
    (n : ℕ) (h : Ptr) (t : Interrupts) (s : CpuState)
    → 0x20 ≤ n
    → n < 0x30
    → 0x20 ≤ s.interrupt
    → s.interrupt < 256
    → h ≢ null
    → irq_dispatch (with_irq n h t) s ≡ (if s.interrupt == n then called h else irq_dispatch t s)
unfolding irq_dispatch
with_irq-dispatch n h t s above below low small live =
    let index = from_base s.interrupt 0x20 low small in rw index (ground arith)

with_soft-dispatch :
    (n : ℕ) (h : Ptr) (t : Interrupts) (s : CpuState)
    → 0x30 ≤ n
    → n < 256
    → 0x30 ≤ s.interrupt
    → s.interrupt < 256
    → h ≢ null
    → soft_int_dispatch (with_soft n h t) s
      ≡ (if s.interrupt == n then called h else soft_int_dispatch t s)
unfolding soft_int_dispatch
with_soft-dispatch n h t s above below low small live =
    let index = from_base s.interrupt 0x30 low small in rw index (ground arith)

-- The same for a hardware interrupt, where the vector is from 0x20 to 0x2F.
pub irq_dispatch-register_irq_handler :
    (n : ℕ) (h : Ptr) (t : Interrupts)
    → 0x20 ≤ n
    → n < 0x30
    → h ≢ null
    → (t' : Interrupts) × (register_irq_handler n h t ≡ some t')
      × ((s : CpuState)
          → 0x20 ≤ s.interrupt
          → s.interrupt < 256
          → irq_dispatch t' s ≡ (if s.interrupt == n then called h else irq_dispatch t s))
unfolding register_irq_handler
irq_dispatch-register_irq_handler n h t above below live =
    let a : ltb n 0x20 ≡ false = ground arith in
    let b : leb 0x30 n ≡ false = ground arith in
    (
      with_irq n h t,
      rw (a, b) refl,
      λ s low small. with_irq-dispatch n h t s above below low small live,
    )

-- The same for a software interrupt, where the vector is from 0x30 to 0xFF.
pub soft_int_dispatch-register_soft_int_handler :
    (n : ℕ) (h : Ptr) (t : Interrupts)
    → 0x30 ≤ n
    → n < 256
    → h ≢ null
    → (t' : Interrupts) × (register_soft_int_handler n h t ≡ some t')
      × ((s : CpuState)
          → 0x30 ≤ s.interrupt
          → s.interrupt < 256
          → soft_int_dispatch t' s ≡ (if s.interrupt == n then called h else soft_int_dispatch t s))
unfolding register_soft_int_handler
soft_int_dispatch-register_soft_int_handler n h t above below live =
    let a : ltb n 0x30 ≡ false = ground arith in
    (
      with_soft n h t,
      rw a refl,
      λ s low small. with_soft-dispatch n h t s above below low small live,
    )

abbrev ending : CpuState → List (ℕ × ℕ)
ending s = ((if ltb 0x27 s.interrupt then 0xA0 else 0x20), 0x20) ∷ []

irq_dispatch-inside :
    (t : Interrupts) (s : CpuState)
    → 0x20 ≤ s.interrupt
    → s.interrupt < 0x30
    → irq_dispatch t s ≡ (
        if t.irq_handlers (s.interrupt - 0x20) == null
        then ignored
        else called (t.irq_handlers (s.interrupt - 0x20)))
unfolding irq_dispatch
irq_dispatch-inside t s low small =
    let index = from_base s.interrupt 0x20 low (omega arith) in
    let inside : leb 16 (s.interrupt - 0x20) ≡ false = ground arith in rw (index, inside) refl

-- For a hardware interrupt, the handler, if there is one, is called inside the array, and the end of
-- the interrupt is told to one controller, the slave from vector 0x28 on and else the master, unless
-- the handler does not come back.
pub irq_handler-end :
    (returns : Ptr → Bool) (t : Interrupts) (s : CpuState)
    → 0x20 ≤ s.interrupt
    → s.interrupt < 0x30
    → irq_handler returns t s ≡ (
        if t.irq_handlers (s.interrupt - 0x20) == null then (ignored, ending s) else (
          called (t.irq_handlers (s.interrupt - 0x20)),
          if returns (t.irq_handlers (s.interrupt - 0x20)) then ending s else [],
        ))
unfolding irq_handler irq_end
irq_handler-end returns t s low small =
    let d = irq_dispatch-inside t s low small in
    elim (Bool-cases (t.irq_handlers (s.interrupt - 0x20) == null)) [
      | inl none_there ↦ ground (arith, d, none_there)
      | inr there ↦ ground (arith, d, there)
    ]
