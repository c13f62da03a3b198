-- ===== src/Gdt.antt =====
-- arch/x86/dt/gdt_x86.c and gdt_x86.h: the global descriptor table. The addresses of the table and of
-- the task state segment are parameters.
mod Descriptors
mod Tests
use vv4os.Base.{
  ℕ, ◌+◌, ◌-◌, ◌*◌, ◌/◌, ◌%◌, ◌^◌, bit_and, bit_or, Bool, ◌==◌, if◌then◌else◌, u8, u16, u32,
}

pub record Tss : Type 0 where
  pub esp0 : ℕ
  pub ss0 : ℕ
  pub iopb : ℕ

-- `sizeof(Tss)`: the packed fields, with 46 unused words.
abbrev pub tss_size : ℕ
tss_size = 4 + 4 + 2 + 46 * 2 + 2

pub record GdtEntry : Type 0 where
  pub limit_low : ℕ
  pub base_low : ℕ
  pub access_byte : ℕ
  pub granularity : ℕ
  pub base_high : ℕ

-- `sizeof(GdtEntry)`
abbrev pub gdt_entry_size : ℕ
gdt_entry_size = 8

pub record GdtSelector : Type 0 where
  pub rpl : ℕ
  pub ldt : Bool
  pub index : ℕ

-- The static variables; `gdtr` is as `X86SetGdtr` last loaded it.
pub record DescriptorTable : Type 0 where
  pub gdt : ℕ → GdtEntry
  pub gdtr_base : ℕ
  pub gdtr_size : ℕ
  pub tss : Tss

unfoldable pub update_gdt : (gdt entries : ℕ) → DescriptorTable → DescriptorTable
update_gdt gdt entries t = record t {
  gdtr_base = gdt;
  gdtr_size = u16 (entries * gdt_entry_size + 2 ^ 32 - 1);
}

unfoldable pub gdt_entry : (base limit access_byte granularity : ℕ) → GdtEntry
gdt_entry base limit access granularity = record {
  limit_low = u16 limit;
  base_low = base % 2 ^ 24;
  access_byte = access;
  granularity = bit_or (bit_and granularity 0xF0) (bit_and (limit / 2 ^ 16) 0x0F);
  base_high = u8 (base / 2 ^ 24);
}

abbrev pub put_entry : ℕ → GdtEntry → DescriptorTable → DescriptorTable
put_entry n e t = record t { gdt = λ k. if k == n then e else t.gdt k }

unfoldable pub set_gdt_entry :
    (n base limit access_byte granularity : ℕ) → DescriptorTable → DescriptorTable
set_gdt_entry n base limit access granularity =
    put_entry n (gdt_entry base limit access granularity)

unfoldable pub set_kernel_stack : ℕ → DescriptorTable → DescriptorTable
set_kernel_stack stack t = record t { tss = record t.tss { esp0 = stack } }

-- `GDT_ENTRY_ACCESS_*` and `GDT_ENTRY_GRANULARITY_PAGE_32_BIT`
abbrev pub readable_code_ring0 : ℕ
readable_code_ring0 = 0x9A

abbrev pub rw_data_ring0 : ℕ
rw_data_ring0 = 0x92

abbrev pub readable_code_ring3 : ℕ
readable_code_ring3 = 0xFA

abbrev pub rw_data_ring3 : ℕ
rw_data_ring3 = 0xF2

abbrev pub page_32_bit : ℕ
page_32_bit = 0xC0

abbrev pub null_entry : GdtEntry
null_entry = record { limit_low = 0; base_low = 0; access_byte = 0; granularity = 0; base_high = 0 }

-- `X86GdtInit`; the stack segment that it stores first is cleared again by `memset`.
unfoldable pub gdt_init : (gdt tss : ℕ) → DescriptorTable → DescriptorTable
gdt_init gdt tss t =
    let t₀ = put_entry 0 null_entry t in
    let t₁ = set_gdt_entry 1 0 0xFFFFF readable_code_ring0 page_32_bit t₀ in
    let t₂ = set_gdt_entry 2 0 0xFFFFF rw_data_ring0 page_32_bit t₁ in
    let t₃ = set_gdt_entry 3 0 0xFFFFF readable_code_ring3 page_32_bit t₂ in
    let t₄ = set_gdt_entry 4 0 0xFFFFF rw_data_ring3 page_32_bit t₃ in
    let t₅ : DescriptorTable = record t₄ {
      tss = record { esp0 = 0; ss0 = 0x10; iopb = tss_size };
    } in
    let t₆ = set_gdt_entry 5 tss tss_size 0x89 page_32_bit t₅ in update_gdt gdt 6 t₆
