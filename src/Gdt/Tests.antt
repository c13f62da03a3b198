-- ===== src/Gdt/Tests.antt =====
-- The theorems on descriptors at concrete addresses.
use vv4os.Gdt.{DescriptorTable, null_entry}

abbrev zeroed : DescriptorTable
zeroed = record {
  gdt = λ k. null_entry;
  gdtr_base = 0;
  gdtr_size = 0;
  tss = record { esp0 = 0; ss0 = 0; iopb = 0 };
}
