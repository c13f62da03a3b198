-- ===== src/Idt.antt =====
-- arch/x86/dt/idt_x86.c and idt_x86.h: the interrupt descriptor table and the dispatch of interrupts.
-- The addresses of the entry points in idt_x86.asm are parameters, and so is what the port of the
-- interrupt controller's mask reads. The writes to ports are kept, newest first, as port and value.
mod Gates
mod Handlers
mod Tests
use vv4os.Base.{
  ℕ, zero, suc, ◌+◌, ◌-◌, ◌*◌, ◌/◌, ◌%◌, ◌^◌, bit_or, Bool, true, false, Option, none, some, List,
  [], ◌∷◌, ltb, leb, ◌==◌, if◌then◌else◌, u8, u16, u32,
}
use vv4os.Gdt.{GdtSelector}
use vv4os.Process.State.{Ptr, null, CpuState}

pub record IdtEntry : Type 0 where
  pub offset_low : ℕ
  pub segment : GdtSelector
  pub zero_byte : ℕ
  pub kind : ℕ
  pub offset_high : ℕ

-- `IDT_ENTRY_TYPE_INTERRUPT_32_RING0` and `IDT_ENTRY_TYPE_INTERRUPT_32_RING3`
abbrev pub interrupt_32_ring0 : ℕ
interrupt_32_ring0 = 0x8E

abbrev pub interrupt_32_ring3 : ℕ
interrupt_32_ring3 = 0xEE

-- `X86Isr0` and so on, `X86Irq0` and so on, `X86SoftInt30h` and so on (by the vector), `X86Syscall`.
pub record EntryPoints : Type 0 where
  pub isr : ℕ → Ptr
  pub irq : ℕ → Ptr
  pub soft_int : ℕ → Ptr
  pub syscall : Ptr

-- The static variables, of which `idtr` is as `X86SetIdtr` last loaded it, and the interrupt flag.
pub record Interrupts : Type 0 where
  pub isr_handlers : ℕ → Ptr
  pub irq_handlers : ℕ → Ptr
  pub soft_int_handlers : ℕ → Ptr
  pub idt : ℕ → IdtEntry
  pub idtr_base : Ptr
  pub idtr_size : ℕ
  pub port_writes : List (ℕ × ℕ)
  pub enabled : Bool

abbrev pub irq_vector : ℕ → ℕ
irq_vector n = n + 0x20

abbrev pub user_syscall_interrupt : ℕ
user_syscall_interrupt = 0x80

unfoldable pub update_idt : Ptr → Interrupts → Interrupts
update_idt idt t = record t { idtr_base = idt; idtr_size = 8 * 256 }

abbrev pub gate : Ptr → ℕ → IdtEntry
gate handler kind = record {
  offset_low = u16 handler;
  segment = record { rpl = 0; ldt = false; index = 1 };
  zero_byte = 0;
  kind = kind;
  offset_high = u16 (handler / 2 ^ 16);
}

-- The interrupt flag is off during the writes and then as before.
unfoldable pub register_interrupt : ℕ → Ptr → ℕ → Interrupts → Interrupts
register_interrupt n handler kind t = record t {
  idt = λ k. if k == u8 n then gate handler kind else t.idt k;
}

-- Calls of `RegisterInterrupt` for the vectors from `n`, in order.
unfoldable pub register_from : (count n : ℕ) → (ℕ → Ptr) → Interrupts → Interrupts
register_from zero n handler t = t
register_from (suc count) n handler t =
    register_from count (n + 1) handler (register_interrupt n (handler n) interrupt_32_ring0 t)

-- The exceptions; the last one comes after the first twelve.
unfoldable pub register_isrs : EntryPoints → Interrupts → Interrupts
register_isrs e t =
    let t₁ = register_from 12 0 e.isr t in
    let t₂ = register_interrupt 31 (e.isr 31) interrupt_32_ring0 t₁ in register_from 19 12 e.isr t₂

unfoldable pub register_irqs : EntryPoints → Interrupts → Interrupts
register_irqs e t = register_from 16 (irq_vector 0) (λ v. e.irq (v - irq_vector 0)) t

-- The software interrupts below the one for system calls, and from it on.
unfoldable pub register_soft_ints_below : EntryPoints → Interrupts → Interrupts
register_soft_ints_below e = register_from 80 0x30 e.soft_int

unfoldable pub register_soft_ints_from : EntryPoints → Interrupts → Interrupts
register_soft_ints_from e = register_from 128 0x80 e.soft_int

abbrev pub port_write : ℕ → ℕ → Interrupts → Interrupts
port_write p v t = record t { port_writes = (p, v) ∷ t.port_writes }

-- `none` is a write outside the array.
unfoldable pub register_isr_handler : ℕ → Ptr → Interrupts → Option Interrupts
register_isr_handler n h t =
    if leb 32 n
    then none
    else some (record t { isr_handlers = λ k. if k == n then h else t.isr_handlers k })

-- The index is a signed number; a vector below the first one is outside the array.
unfoldable pub register_soft_int_handler : ℕ → Ptr → Interrupts → Option Interrupts
register_soft_int_handler n h t =
    if ltb n 0x30
    then none
    else some
        (record t { soft_int_handlers = λ k. if k == n - 0x30 then h else t.soft_int_handlers k })

unfoldable pub register_irq_handler : ℕ → Ptr → Interrupts → Option Interrupts
register_irq_handler n h t =
    if ltb n (irq_vector 0)
    then none
    else if leb (irq_vector 16) n
    then none
    else some
        (record t { irq_handlers = λ k. if k == n - irq_vector 0 then h else t.irq_handlers k })

-- The initialisation of the two interrupt controllers.
unfoldable pub remap_pics : Interrupts → Interrupts
remap_pics t =
    let m = port_write 0x21 0x00 (
      port_write 0x21 0x01
        (port_write 0x21 0x04 (port_write 0x21 (irq_vector 0) (port_write 0x20 0x11 t)))) in
    port_write 0xA1 0x00 (
      port_write 0xA1 0x01
        (port_write 0xA1 0x02 (port_write 0xA1 (irq_vector 8) (port_write 0xA0 0x11 m))))

-- `1.193182 * USER_PROCESS_TIME_SLICE_US`, cut to an integer.
abbrev pub timer_divisor : ℕ
timer_divisor = u16 (1193182 * 2000 / 1000000)

unfoldable pub set_timer : Interrupts → Interrupts
set_timer t = port_write 0x40 (u8 (timer_divisor / 2 ^ 8)) (port_write 0x40 (u8 timer_divisor) t)

abbrev pub empty_entry : IdtEntry
empty_entry = record {
  offset_low = 0;
  segment = record { rpl = 0; ldt = false; index = 0 };
  zero_byte = 0;
  kind = 0;
  offset_high = 0;
}

unfoldable pub register_gates : EntryPoints → Interrupts → Interrupts
register_gates e t =
    let t₁ = register_irqs e (register_isrs e t) in
    let t₂ = register_soft_ints_from e (register_soft_ints_below e t₁) in
    register_interrupt user_syscall_interrupt e.syscall interrupt_32_ring3 t₂

-- The end of `X86IdtInit` after the gates, where port 0x21 reads `mask` and `tick` is
-- `X86SchedulerTick`.
unfoldable pub start_interrupts : (tick : Ptr) → (mask : ℕ) → Interrupts → Option Interrupts
start_interrupts tick mask t = elim (register_irq_handler (irq_vector 0) tick t) [
  | none ↦ none
  | some t₁ ↦
      some
        (record (port_write 0x21 (bit_or mask 0x01) (set_timer (remap_pics t₁))) { enabled = true })
]

unfoldable pub idt_init :
    EntryPoints → (idt tick : Ptr) → (mask : ℕ) → Interrupts → Option Interrupts
idt_init e idt tick mask t =
    start_interrupts tick mask
      (register_gates e (update_idt idt (record t { idt = λ k. empty_entry })))

-- What an interrupt does: it calls a handler or none, or reads outside the array of handlers.
pub data Dispatch : Type 0 where
  called : Ptr → Dispatch
  ignored : Dispatch
  out_of_bounds : Dispatch

abbrev pub dispatch : (size : ℕ) → (ℕ → Ptr) → ℕ → Dispatch
dispatch size handlers n =
    if leb size n
    then out_of_bounds
    else if handlers n == null
    then ignored
    else called (handlers n)

unfoldable pub isr_dispatch : Interrupts → CpuState → Dispatch
isr_dispatch t s = dispatch 32 t.isr_handlers s.interrupt

unfoldable pub soft_int_dispatch : Interrupts → CpuState → Dispatch
soft_int_dispatch t s = dispatch 208 t.soft_int_handlers (u32 (s.interrupt + 2 ^ 32 - 0x30))

unfoldable pub irq_dispatch : Interrupts → CpuState → Dispatch
irq_dispatch t s = dispatch 16 t.irq_handlers (u32 (s.interrupt + 2 ^ 32 - irq_vector 0))

-- The end of an `X86IrqHandler` whose handler came back: the port to which 0x20 is written.
unfoldable pub irq_end : CpuState → ℕ
irq_end s = if ltb (irq_vector 7) s.interrupt then 0xA0 else 0x20

-- `X86IrqHandler`: the dispatch, and the ports written, where `returns` tells of each handler
-- whether it comes back; the timer's does not.
unfoldable pub irq_handler : (Ptr → Bool) → Interrupts → CpuState → Dispatch × List (ℕ × ℕ)
irq_handler returns t s = elim (irq_dispatch t s) [
  | out_of_bounds ↦ (out_of_bounds, [])
  | ignored ↦ (ignored, (irq_end s, 0x20) ∷ [])
  | called h ↦ (called h, if returns h then (irq_end s, 0x20) ∷ [] else [])
]
