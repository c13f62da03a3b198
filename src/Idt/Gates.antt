-- ===== src/Idt/Gates.antt =====
-- The gates after `X86IdtInit`.
use vv4os.Base.{
  ℕ, zero, suc, ◌+◌, ◌-◌, ◌*◌, ◌/◌, ◌%◌, ◌^◌, ◌≤◌, ◌<◌, ◌≡◌, refl, true, ◌&&◌, some, List, ◌∷◌,
  arith, ltb, leb, ◌==◌, if◌then◌else◌, ◌∙◌, ap, inl, inr, Bool-cases, bit_or,
}
use native.Mathlib.Nat.{mod-eq_of_lt}
use vv4os.Process.State.{Ptr}
use vv4os.Idt.{
  IdtEntry, EntryPoints, Interrupts, gate, register_interrupt, register_from, register_isrs,
  register_irqs, register_soft_ints_below, register_soft_ints_from, register_gates,
  register_irq_handler, update_idt, idt_init, start_interrupts, interrupt_32_ring0,
  interrupt_32_ring3, set_timer, remap_pics, empty_entry,
}

-- The table after gates for the vectors from `n` were registered.
abbrev pub gates_from : (count n : ℕ) → (ℕ → Ptr) → (ℕ → IdtEntry) → ℕ → IdtEntry
gates_from count n handler idt k =
    if leb n k && ltb k (n + count) then gate (handler k) interrupt_32_ring0 else idt k

-- A run that changes the table of gates and nothing else.
abbrev pub Regates : Interrupts → Interrupts → (ℕ → IdtEntry) → Type 0
Regates t t' idt = (b : ℕ → IdtEntry) × (t' ≡ record t { idt = b }) × ((k : ℕ) → b k ≡ idt k)

gates_step :
    (count n : ℕ) (handler : ℕ → Ptr) (idt : ℕ → IdtEntry) (k : ℕ)
    → gates_from count
        (n + 1)
        handler
        (λ j. if j == n then gate (handler n) interrupt_32_ring0 else idt j)
        k
      ≡ gates_from (suc count) n handler idt k
gates_step count n handler idt k = elim (Bool-cases (k == n)) [
  | inl here ↦ let e : k ≡ n = ground arith in rw e (ground arith)
  | inr away ↦ elim (Bool-cases (leb n k)) [ inl after ↦ ground arith | inr before ↦ ground arith ]
]

abbrev one_gate : ℕ → Ptr → ℕ → (ℕ → IdtEntry) → ℕ → IdtEntry
one_gate n handler kind idt k = if k == n then gate handler kind else idt k

register_interrupt-ok :
    (n : ℕ) (handler : Ptr) (kind : ℕ) (t : Interrupts)
    → n < 256
    → register_interrupt n handler kind t ≡ record t { idt = one_gate n handler kind t.idt }
unfolding register_interrupt
register_interrupt-ok n handler kind t h =
    ap (λ (m : ℕ). record t { idt = λ k. if k == m then gate handler kind else t.idt k })
      (mod-eq_of_lt h)

register_from-Regates :
    (count n : ℕ) (handler : ℕ → Ptr) (t : Interrupts)
    → n + count ≤ 256
    → Regates t (register_from count n handler t) (gates_from count n handler t.idt)
unfolding register_from
register_from-Regates zero n handler t h = (t.idt, refl, λ k. ground arith)
register_from-Regates (suc count) n handler t h =
    let t' : Interrupts = record t { idt = one_gate n (handler n) interrupt_32_ring0 t.idt } in
    let (b, run, is) = register_from-Regates count (n + 1) handler t' (omega arith) in
    (
      b,
      ap (register_from count (n + 1) handler)
            (register_interrupt-ok n (handler n) interrupt_32_ring0 t (omega arith))
          ∙ run,
      λ k. is k ∙ gates_step count n handler t.idt k,
    )

register_isrs-Regates :
    (e : EntryPoints) (t : Interrupts) → Regates t (register_isrs e t) (gates_from 32 0 e.isr t.idt)
unfolding register_isrs
register_isrs-Regates e t =
    let (b₁, run₁, is₁) = register_from-Regates 12 0 e.isr t (omega arith) in
    let t₁ : Interrupts = record t { idt = b₁ } in
    let t₂ : Interrupts = record t { idt = one_gate 31 (e.isr 31) interrupt_32_ring0 b₁ } in
    let (b₃, run₃, is₃) = register_from-Regates 19 12 e.isr t₂ (omega arith) in
    (
      b₃,
      ap (λ a. register_from 19 12 e.isr (register_interrupt 31 (e.isr 31) interrupt_32_ring0 a))
            run₁
          ∙ ap (register_from 19 12 e.isr)
              (register_interrupt-ok 31 (e.isr 31) interrupt_32_ring0 t₁ (omega arith))
          ∙ run₃,
      λ k. is₃ k ∙ isrs_joined e.isr b₁ t.idt k (is₁ k),
    )
  where
    isrs_joined :
        (isr : ℕ → Ptr) (b idt : ℕ → IdtEntry) (k : ℕ)
        → b k ≡ gates_from 12 0 isr idt k
        → gates_from 19 12 isr (one_gate 31 (isr 31) interrupt_32_ring0 b) k
          ≡ gates_from 32 0 isr idt k
    isrs_joined isr b idt k is = elim (Bool-cases (k == 31)) [
      | inl last ↦ (let e : k ≡ 31 = ground arith in rw e refl)
      | inr other ↦ elim (Bool-cases (ltb k 12)) [
        | inl low ↦ ground (arith, is)
        | inr high ↦ ground (arith, is)
      ]
    ]

-- The gate of each vector: the exceptions, the sixteen hardware interrupts, the software interrupts,
-- and the system call.
abbrev pub gate_of : EntryPoints → ℕ → IdtEntry
gate_of e k =
    if k == 0x80
    then gate e.syscall interrupt_32_ring3
    else if ltb k 0x20
    then gate (e.isr k) interrupt_32_ring0
    else if ltb k 0x30
    then gate (e.irq (k - 0x20)) interrupt_32_ring0
    else gate (e.soft_int k) interrupt_32_ring0

gates_joined :
    (e : EntryPoints) (b₀ b₁ b₂ b₃ b₄ : ℕ → IdtEntry) (k : ℕ)
    → k < 256
    → b₁ k ≡ gates_from 32 0 e.isr b₀ k
    → b₂ k ≡ gates_from 16 0x20 (λ v. e.irq (v - 0x20)) b₁ k
    → b₃ k ≡ gates_from 80 0x30 e.soft_int b₂ k
    → b₄ k ≡ gates_from 128 0x80 e.soft_int b₃ k
    → one_gate 0x80 e.syscall interrupt_32_ring3 b₄ k ≡ gate_of e k
gates_joined e b₀ b₁ b₂ b₃ b₄ k h is₁ is₂ is₃ is₄ = elim (Bool-cases (k == 0x80)) [
  | inl call ↦ rw call refl
  | inr other ↦ elim (Bool-cases (ltb k 0x20)) [
    | inl exception ↦ ground (arith, is₁, is₂, is₃, is₄)
    | inr above ↦ elim (Bool-cases (ltb k 0x30)) [
      | inl hardware ↦ ground (arith, is₂, is₃, is₄)
      | inr soft ↦ elim (Bool-cases (ltb k 0x80)) [
        | inl low ↦ ground (arith, is₃, is₄)
        | inr high ↦ ground (arith, is₄)
      ]
    ]
  ]
]

register_gates-gate_of :
    (e : EntryPoints) (t : Interrupts)
    → (b : ℕ → IdtEntry) × (register_gates e t ≡ record t { idt = b })
      × ((k : ℕ) → k < 256 → b k ≡ gate_of e k)
unfolding register_gates register_irqs register_soft_ints_below register_soft_ints_from
register_gates-gate_of e t =
    let irqs : ℕ → Ptr = λ v. e.irq (v - 0x20) in
    let last : Interrupts → Interrupts = register_interrupt 0x80 e.syscall interrupt_32_ring3 in
    let below : Interrupts → Interrupts = register_from 80 0x30 e.soft_int in
    let from : Interrupts → Interrupts = register_from 128 0x80 e.soft_int in
    let (b₁, run₁, is₁) = register_isrs-Regates e t in
    let t₁ : Interrupts = record t { idt = b₁ } in
    let (b₂, run₂, is₂) = register_from-Regates 16 0x20 irqs t₁ (omega arith) in
    let t₂ : Interrupts = record t { idt = b₂ } in
    let (b₃, run₃, is₃) = register_from-Regates 80 0x30 e.soft_int t₂ (omega arith) in
    let t₃ : Interrupts = record t { idt = b₃ } in
    let (b₄, run₄, is₄) = register_from-Regates 128 0x80 e.soft_int t₃ (omega arith) in
    let t₄ : Interrupts = record t { idt = b₄ } in
    (
      one_gate 0x80 e.syscall interrupt_32_ring3 b₄,
      ap (λ a. last (from (below (register_from 16 0x20 irqs a)))) run₁
          ∙ ap (λ a. last (from (below a))) run₂
          ∙ ap (λ a. last (from a)) run₃
          ∙ ap last run₄
          ∙ register_interrupt-ok 0x80 e.syscall interrupt_32_ring3 t₄ (omega arith),
      λ k h. gates_joined e t.idt b₁ b₂ b₃ b₄ k h (is₁ k) (is₂ k) (is₃ k) (is₄ k),
    )

-- What the processor reads from a gate: the address of the entry point, and the least privileged
-- ring that may call it with an `int` instruction.
abbrev pub offset_of : IdtEntry → ℕ
offset_of g = g.offset_low + g.offset_high * 2 ^ 16

abbrev pub ring_of : IdtEntry → ℕ
ring_of g = g.kind / 2 ^ 5 % 4

-- The entry point that serves a vector.
abbrev pub entry_of : EntryPoints → ℕ → Ptr
entry_of e k =
    if k == 0x80
    then e.syscall
    else if ltb k 0x20
    then e.isr k
    else if ltb k 0x30
    then e.irq (k - 0x20)
    else e.soft_int k

-- A present gate of the kernel's code segment.
pub record IsGate (g : IdtEntry) (entry : Ptr) (ring : ℕ) : Type 0 where
  pub offset_is : offset_of g ≡ entry
  pub ring_is : ring_of g ≡ ring
  pub code : g.segment.index ≡ 1
  pub present : g.kind / 2 ^ 7 ≡ 1

gate-IsGate0 : (h : Ptr) → h < 2 ^ 32 → IsGate (gate h interrupt_32_ring0) h 0
gate-IsGate0 h small = record {
  offset_is = omega arith;
  ring_is = refl;
  code = refl;
  present = refl;
}

gate-IsGate3 : (h : Ptr) → h < 2 ^ 32 → IsGate (gate h interrupt_32_ring3) h 3
gate-IsGate3 h small = record {
  offset_is = omega arith;
  ring_is = refl;
  code = refl;
  present = refl;
}

gate_of-IsGate :
    (e : EntryPoints) (k : ℕ)
    → entry_of e k < 2 ^ 32
    → IsGate (gate_of e k) (entry_of e k) (if k == 0x80 then 3 else 0)
gate_of-IsGate e k small = elim (Bool-cases (k == 0x80)) [
  | inl call ↦ rw call (gate-IsGate3 e.syscall (ground arith))
  | inr other ↦ elim (Bool-cases (ltb k 0x20)) [
    | inl exception ↦ rw (other, exception) (gate-IsGate0 (e.isr k) (ground arith))
    | inr above ↦ elim (Bool-cases (ltb k 0x30)) [
      | inl hardware ↦ rw (other, above, hardware) (gate-IsGate0 (e.irq (k - 0x20)) (ground arith))
      | inr soft ↦ rw (other, above, soft) (gate-IsGate0 (e.soft_int k) (ground arith))
    ]
  ]
]

-- After `X86IdtInit` with entry points below `2 ^ 32`, interrupts are enabled and each of the 256
-- vectors has a present gate to its own entry point. User code may call only the gate for system
-- calls. The timer interrupt goes to the scheduler's tick, and the last port write masks it.
pub idt_init-IsGate :
    (e : EntryPoints) (idt tick mask : ℕ) (t : Interrupts)
    → ((k : ℕ) → entry_of e k < 2 ^ 32)
    → (t' : Interrupts) × (idt_init e idt tick mask t ≡ some t')
      × (t'.enabled ≡ true)
      × (t'.idtr_base ≡ idt)
      × (t'.irq_handlers 0 ≡ tick)
      × (rest : List (ℕ × ℕ)) × (t'.port_writes ≡ (0x21, bit_or mask 0x01) ∷ rest)
      × ((k : ℕ) → k < 256 → IsGate (t'.idt k) (entry_of e k) (if k == 0x80 then 3 else 0))
unfolding idt_init start_interrupts register_irq_handler update_idt set_timer remap_pics
idt_init-IsGate e idt tick mask t small =
    let (b, run, is) =
      register_gates-gate_of e (update_idt idt (record t { idt = λ k. empty_entry })) in
    (
      _,
      ap (start_interrupts tick mask) run,
      refl,
      refl,
      refl,
      _,
      refl,
      λ k h. rw (is k h) (gate_of-IsGate e k (small k)),
    )
