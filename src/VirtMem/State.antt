-- ===== src/VirtMem/State.antt =====
-- The state that arch/x86/mem/virt_mem_mgr_x86.c works on, and how the processor reaches memory at
-- addresses of the kernel's half, whose page tables are `kernel_page_table` in every address space.
use vv4os.Base.{ℕ, ◌+◌, ◌*◌, ◌/◌, ◌%◌, Option, none, some, ◌&&◌, leb, ltb, ◌==◌, if◌then◌else◌}
use vv4os.Bitmap.{Bitmap}
use vv4os.VirtMem.Entry.{Pte, virtual_addr, decode_pte}

-- Physical memory as words of 32 bits, the map of its frames, and the static variables.
-- `kernel_page_table` and `kernel_page_directory` start at the words `table_base` and
-- `directory_base` of physical memory.
pub record Space : Type 0 where
  pub ram : ℕ → ℕ
  pub frames : Bitmap
  pub table_base : ℕ
  pub directory_base : ℕ
  pub kernel_page_directory : ℕ
  pub current_page_directory : ℕ
  pub cr3 : ℕ

-- A page fault or a failed assertion is a `fault`.
pub data Outcome (A : Type 0) : Type 0 where
  done : A → Space → Outcome A
  fault : Outcome A
  out_of_fuel : Outcome A

abbrev pub Vm : Type 0 → Type 0
Vm A = Space → Outcome A

module _ {A B : Type 0} where
  abbrev pub and_then : Outcome A → (A → Vm B) → Outcome B
  and_then (done a s) f = f a s
  and_then fault f = fault
  and_then out_of_fuel f = out_of_fuel

  infixl 5 ◌>>=◌ ◌>>◌
  abbrev pub ◌>>=◌ : Vm A → (A → Vm B) → Vm B
  m >>= f = λ s. and_then (m s) f

  abbrev pub ◌>>◌ : Vm A → Vm B → Vm B
  m >> n = m >>= λ _. n

abbrev pub pure : {A : Type 0} → A → Vm A
pure = done

abbrev pub get : Vm Space
get s = done s s

abbrev pub modify : (Space → Space) → Vm (Unit {0})
modify f s = done tt (f s)

abbrev pub give : {A : Type 0} → Option A → Vm A
give none = λ _. fault
give (some a) = pure a

-- A word of memory, and the words of a frame.
unfoldable pub put : (ℕ → ℕ) → ℕ → ℕ → ℕ → ℕ
put ram a w b = if b == a then w else ram b

unfoldable pub clear_frame : (ℕ → ℕ) → ℕ → ℕ → ℕ
clear_frame ram f b = if leb (f * 1024) b && ltb b (f * 1024 + 1024) then 0 else ram b

-- The number of the page that an address lies in.
unfoldable pub page : ℕ → ℕ
page linear = let v = virtual_addr linear in v.directory_entry * 1024 + v.table_entry

-- `kernel_page_table[vaddr.page.directory_entry * 1024 + vaddr.page.table_entry]`
unfoldable pub kernel_pte : Space → ℕ → Pte
kernel_pte s p = decode_pte (s.ram (s.table_base + p))

-- The word of physical memory at an address of the kernel's half.
unfoldable pub translate : Space → ℕ → Option ℕ
translate s v =
    let pte = kernel_pte s (page v) in
    if pte.present then some (pte.page_frame_addr * 1024 + v % 4096 / 4) else none

unfoldable pub read_word : ℕ → Vm ℕ
read_word v s = give (elim (translate s v) [ none ↦ none | some a ↦ some (s.ram a) ]) s

unfoldable pub write_word : ℕ → ℕ → Vm (Unit {0})
write_word v w s = elim (translate s v) [
  | none ↦ fault
  | some a ↦ done tt (record s { ram = put s.ram a w })
]
