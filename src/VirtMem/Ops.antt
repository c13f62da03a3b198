-- ===== src/VirtMem/Ops.antt =====
-- The functions of arch/x86/mem/virt_mem_mgr_x86.c on one page: reading, writing and searching the
-- tables. What they do to the table of the kernel, they do in place; the table of another directory
-- is first mapped to a free page of the kernel. The reload of `cr3` in `SetPte` only drops what the
-- processor has cached.
use vv4os.Base.{
  ℕ, zero, suc, ◌+◌, ◌-◌, ◌*◌, ◌/◌, ◌^◌, Bool, true, false, not, none, some, ◌==◌, if◌then◌else◌,
  u32,
}
use vv4os.PhysMem.{phys_allocate_frame, phys_free_frame}
use vv4os.VirtMem.Entry.{
  Pte, Pde, virtual_addr, encode_pte, encode_pde, decode_pte, decode_pde, zero_pte, zero_pde,
}
use vv4os.VirtMem.State.{
  Vm, done, fault, out_of_fuel, ◌>>=◌, ◌>>◌, pure, get, put, clear_frame, page, kernel_pte,
  read_word, write_word,
}

abbrev pub kernel_static_mem_start : ℕ
kernel_static_mem_start = 0xC0000000

-- As many pages as an address space has.
abbrev pub all_pages : ℕ
all_pages = 2 ^ 20

unfoldable pub phys_allocate : Vm ℕ
phys_allocate s = elim (phys_allocate_frame s.frames) [
  | none ↦ fault
  | some (ptr, b) ↦ done ptr (record s { frames = b })
]

unfoldable pub phys_free : ℕ → Vm (Unit {0})
phys_free ptr s = elim (phys_free_frame s.frames ptr) [
  | none ↦ fault
  | some b ↦ done tt (record s { frames = b })
]

-- `GetPte` and `SetPte` on `kernel_page_directory`
unfoldable pub get_kernel_pte : ℕ → Vm Pte
get_kernel_pte vaddr s = done (kernel_pte s (page vaddr)) s

unfoldable pub set_kernel_pte : ℕ → Pte → Vm (Unit {0})
set_kernel_pte vaddr pte s =
    done tt (record s { ram = put s.ram (s.table_base + page vaddr) (encode_pte pte) })

unfoldable pub frame_pte : (physical : ℕ) (writable cached user : Bool) → Pte
frame_pte physical writable cached user = record {
  present = true;
  writable = writable;
  user = user;
  write_through_caching = false;
  cache_disable = not cached;
  dirty = false;
  zero = 0;
  global = false;
  ignored = 0;
  available = 0;
  page_frame_addr = physical / 2 ^ 12;
}

-- `MapFrame`, where `set` is `SetPte` on its directory
unfoldable pub map_frame_by :
    (ℕ → Pte → Vm (Unit {0})) → (virtual physical : ℕ) (writable cached user : Bool) → Vm (Unit {0})
map_frame_by set virtual physical writable cached user =
    let vaddr = virtual_addr virtual in
    if vaddr.directory_entry == 0
    then (if vaddr.table_entry == 0
        then pure tt
        else set virtual (frame_pte physical writable cached user))
    else set virtual (frame_pte physical writable cached user)

-- The loop of `FindContiguousFreeFrames` from `frame` on, where `mapped` is `IsMapped` on its
-- directory and `found` frames before `frame` are free
unfoldable pub find_contiguous_loop : (ℕ → Vm Bool) → (fuel frames frame found : ℕ) → Vm ℕ
find_contiguous_loop mapped zero frames frame found = λ _. out_of_fuel
find_contiguous_loop mapped (suc fuel) frames frame found = if frame == 0 then pure 0 else do
  hit ← mapped frame
  if hit
      then find_contiguous_loop mapped fuel frames (u32 (frame + 0x1000)) 0
      else if u32 (found + 1) == frames
      then pure (u32 (frame + 2 ^ 32 - u32 (frames * 0x1000) + 0x1000))
      else find_contiguous_loop mapped fuel frames (u32 (frame + 0x1000)) (u32 (found + 1))

abbrev pub search_start : Bool → ℕ
search_start kernel = (if kernel then kernel_static_mem_start else 0) + 0x1000

unfoldable pub is_kernel_mapped : ℕ → Vm Bool
is_kernel_mapped frame = do pte ← get_kernel_pte frame; pure pte.present

unfoldable pub unmap_kernel_frame : ℕ → Vm (Unit {0})
unmap_kernel_frame virtual = set_kernel_pte virtual zero_pte

unfoldable pub allocate_map : ℕ → Vm ℕ
allocate_map phys = do
  virt ← find_contiguous_loop is_kernel_mapped all_pages 1 (search_start true) 0
  map_frame_by set_kernel_pte virt phys true true false
  pure virt

-- `directory[vaddr.page.directory_entry]`
unfoldable pub load_pde : (directory vaddr : ℕ) → Vm Pde
load_pde directory vaddr = do
  w ← read_word (u32 (directory + 4 * (virtual_addr vaddr).directory_entry))
  pure (decode_pde w)

-- `GetPte` once the directory gave the frame of the table
unfoldable pub read_entry : (phys table_entry : ℕ) → Vm Pte
read_entry phys table_entry = do
  table ← allocate_map phys
  w ← read_word (u32 (table + 4 * table_entry))
  unmap_kernel_frame table
  pure (decode_pte w)

unfoldable pub get_pte : (vaddr directory : ℕ) → Vm Pte
get_pte vaddr directory = do
  s ← get
  if directory == s.kernel_page_directory then get_kernel_pte vaddr else do
    pde ← load_pde directory vaddr
    if pde.present
        then read_entry (u32 (pde.page_table_addr * 2 ^ 12)) (virtual_addr vaddr).table_entry
        else pure zero_pte

-- `memset(virt, 0, FRAME_SIZE)` on a page of the kernel's half
unfoldable pub clear_page : ℕ → Vm (Unit {0})
clear_page virt s =
    let pte = kernel_pte s (page virt) in
    if pte.present
    then done tt (record s { ram = clear_frame s.ram pte.page_frame_addr })
    else fault

unfoldable pub table_pde : ℕ → Pde
table_pde phys = record zero_pde {
  writable = true;
  user = true;
  page_table_addr = phys / 2 ^ 12;
  present = true;
}

unfoldable pub create_page_table : (vaddr directory : ℕ) → Vm (Unit {0})
create_page_table vaddr directory = do
  phys ← phys_allocate
  virt ← allocate_map phys
  clear_page virt
  unmap_kernel_frame virt
  write_word (u32 (directory + 4 * (virtual_addr vaddr).directory_entry))
      (encode_pde (table_pde phys))

-- `SetPte` once the directory gave the frame of the table
unfoldable pub store_entry : (phys table_entry : ℕ) → Pte → Vm (Unit {0})
store_entry phys table_entry pte = do
  table ← allocate_map phys
  write_word (u32 (table + 4 * table_entry)) (encode_pte pte)
  unmap_kernel_frame table

-- The rest of `SetPte` once the directory has a table for the address
unfoldable pub set_table_entry : (vaddr directory : ℕ) → Pte → Vm (Unit {0})
set_table_entry vaddr directory pte = do
  pde ← load_pde directory vaddr
  store_entry (u32 (pde.page_table_addr * 2 ^ 12)) (virtual_addr vaddr).table_entry pte

unfoldable pub set_pte : (vaddr directory : ℕ) → Pte → Vm (Unit {0})
set_pte vaddr directory pte = do
  s ← get
  if directory == s.kernel_page_directory then set_kernel_pte vaddr pte else do
    pde ← load_pde directory vaddr
    if pde.present then pure tt else create_page_table vaddr directory
    set_table_entry vaddr directory pte

unfoldable pub map_frame :
    (virtual physical : ℕ) (writable cached user : Bool) (directory : ℕ) → Vm (Unit {0})
map_frame virtual physical writable cached user directory =
    map_frame_by (λ v p. set_pte v directory p) virtual physical writable cached user

unfoldable pub is_mapped : (frame directory : ℕ) → Vm Bool
is_mapped frame directory = do pte ← get_pte frame directory; pure pte.present

unfoldable pub find_contiguous_free_frames : (frames directory : ℕ) (kernel : Bool) → Vm ℕ
find_contiguous_free_frames frames directory kernel =
    find_contiguous_loop (λ frame. is_mapped frame directory) all_pages frames (search_start kernel)
      0

unfoldable pub unmap_frame : (virtual directory : ℕ) → Vm (Unit {0})
unmap_frame virtual directory = set_pte virtual directory zero_pte
