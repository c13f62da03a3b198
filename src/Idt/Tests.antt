-- ===== src/Idt/Tests.antt =====
-- The theorems on interrupts at a concrete table.
use vv4os.Base.{ℕ, ◌≡◌, ◌<◌, ◌^◌, true, false, some, List, [], ◌∷◌, arith, ◌==◌, if◌then◌else◌}
use vv4os.Process.State.{CpuState}
use vv4os.Process.Start.{initial_state}
use vv4os.Idt.{EntryPoints, Interrupts, empty_entry, idt_init}
use vv4os.Idt.Gates.{entry_of, IsGate, idt_init-IsGate}

abbrev points : EntryPoints
points = record {
  isr = λ k. 0xC0101000;
  irq = λ k. 0xC0102000;
  soft_int = λ k. 0xC0103000;
  syscall = 0xC0104000;
}

abbrev zeroed : Interrupts
zeroed = record {
  isr_handlers = λ k. 0;
  irq_handlers = λ k. 0;
  soft_int_handlers = λ k. 0;
  idt = λ k. empty_entry;
  idtr_base = 0;
  idtr_size = 0;
  port_writes = [];
  enabled = false;
}

-- The state of an interrupt with a vector.
abbrev at : ℕ → CpuState
at n = record (initial_state 0) { interrupt = n }

small : (k : ℕ) → entry_of points k < 2 ^ 32
small k = ground arith

idt_init-IsGate_example :
    (t' : Interrupts) × (idt_init points 0xC0200000 0xC0106000 0xFF zeroed ≡ some t')
    × (t'.enabled ≡ true)
    × (t'.idtr_base ≡ 0xC0200000)
    × (t'.irq_handlers 0 ≡ 0xC0106000)
    × (rest : List (ℕ × ℕ)) × (t'.port_writes ≡ (0x21, 0xFF) ∷ rest)
    × ((k : ℕ) → k < 256 → IsGate (t'.idt k) (entry_of points k) (if k == 0x80 then 3 else 0))
idt_init-IsGate_example = idt_init-IsGate points 0xC0200000 0xC0106000 0xFF zeroed small
