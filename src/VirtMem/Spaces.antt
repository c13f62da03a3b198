-- ===== src/VirtMem/Spaces.antt =====
-- The functions of arch/x86/mem/virt_mem_mgr_x86.c on ranges of pages and on address spaces, and
-- mem/liballoc/hooks.c, which gives the kernel's heap its pages.
use vv4os.Base.{
  ℕ, zero, suc, ◌+◌, ◌-◌, ◌*◌, ◌/◌, ◌^◌, Bool, true, false, ◌==◌, ltb, if◌then◌else◌, u32,
}
use vv4os.PhysMem.{frame_size, kernel_frames, kernel_len}
use vv4os.Process.Ops.{user_process_base}
use vv4os.VirtMem.Entry.{Pde, encode_pde, zero_pde}
use vv4os.VirtMem.State.{
  Space, Vm, out_of_fuel, ◌>>=◌, ◌>>◌, pure, get, modify, put, page, kernel_pte, write_word,
}
use vv4os.VirtMem.Ops.{
  kernel_static_mem_start, all_pages, phys_allocate, phys_free, get_pte, set_pte, map_frame,
  allocate_map, clear_page, find_contiguous_free_frames, unmap_frame,
}

-- `MapRange` for the frames from `frame` on, `n` of which are left
unfoldable pub map_range_loop :
    (n frame virt_base phys_base : ℕ) (writable cached user : Bool) (directory : ℕ) → Vm (Unit {0})
map_range_loop zero frame virt_base phys_base writable cached user directory = pure tt
map_range_loop (suc n) frame virt_base phys_base writable cached user directory =
    let offset = u32 (frame * frame_size) in
    (do
      map_frame (u32 (virt_base + offset)) (u32 (phys_base + offset)) writable cached user directory
      map_range_loop n (frame + 1) virt_base phys_base writable cached user directory)

unfoldable pub map_range :
    (virt_base phys_base frames : ℕ) (writable cached user : Bool) (directory : ℕ) → Vm (Unit {0})
map_range virt_base phys_base frames writable cached user directory =
    map_range_loop frames 0 virt_base phys_base writable cached user directory

unfoldable pub switch_page_directory : ℕ → Vm (Unit {0})
switch_page_directory directory = modify λ s. record s {
  current_page_directory = directory;
  cr3 =
      if directory == s.kernel_page_directory
      then u32 (directory + 2 ^ 32 - kernel_static_mem_start)
      else u32 ((kernel_pte s (page directory)).page_frame_addr * 2 ^ 12);
}

unfoldable pub switch_address_space : ℕ → Vm (Unit {0})
switch_address_space address_space s =
    if address_space == 0
    then switch_page_directory s.kernel_page_directory s
    else switch_page_directory address_space s

-- The loop of `X86AllocateContiguousVirtualFrames` from `frame` on
unfoldable pub allocate_loop : (n frame base : ℕ) → Vm (Unit {0})
allocate_loop zero frame base = pure tt
allocate_loop (suc n) frame base = do
  phys ← phys_allocate
  s ← get
  map_frame (u32 (base + u32 (frame * 0x1000))) phys true true false s.current_page_directory
  allocate_loop n (frame + 1) base

unfoldable pub allocate_contiguous_virtual_frames : (frames : ℕ) (kernel : Bool) → Vm ℕ
allocate_contiguous_virtual_frames frames kernel = do
  s ← get
  base ← find_contiguous_free_frames frames s.current_page_directory kernel
  allocate_loop frames 0 base
  pure base

-- What `X86FreeContiguousVirtualFrames` does with one page
unfoldable pub free_page : ℕ → Vm (Unit {0})
free_page addr = do
  s ← get
  pte ← get_pte addr s.current_page_directory
  let phys = u32 (pte.page_frame_addr * 2 ^ 12)
  if pte.present
      then (do
        if phys == 0 then pure tt else phys_free phys
        unmap_frame addr s.current_page_directory)
      else pure tt

unfoldable pub free_loop : (n frame base : ℕ) → Vm (Unit {0})
free_loop zero frame base = pure tt
free_loop (suc n) frame base = do
  free_page (u32 (base + u32 (frame * 0x1000)))
  free_loop n (frame + 1) base

unfoldable pub free_contiguous_virtual_frames : (base frames : ℕ) → Vm (Unit {0})
free_contiguous_virtual_frames base frames = free_loop frames 0 base

-- `liballoc_alloc` and `liballoc_free`
unfoldable pub liballoc_alloc : ℕ → Vm ℕ
liballoc_alloc pages = allocate_contiguous_virtual_frames pages true

unfoldable pub liballoc_free : (base pages : ℕ) → Vm ℕ
liballoc_free base pages = do free_contiguous_virtual_frames base pages; pure 0

-- The first loop of `MapProcess` from `i` on: the frames of the kernel's pages are entered
unfoldable pub share_loop : (n i k_base dir : ℕ) → Vm (Unit {0})
share_loop zero i k_base dir = pure tt
share_loop (suc n) i k_base dir = do
  s ← get
  pte ← get_pte (u32 (k_base + i * frame_size)) s.kernel_page_directory
  set_pte (u32 (user_process_base + i * frame_size)) dir
      (record pte { writable = true; user = true })
  share_loop n (i + 1) k_base dir

-- The second loop of `MapProcess`: the kernel's entries are copied
unfoldable pub copy_pde_loop : (n i dir : ℕ) → Vm (Unit {0})
copy_pde_loop zero i dir = pure tt
copy_pde_loop (suc n) i dir = do
  s ← get
  write_word (u32 (dir + 4 * i)) (s.ram (s.directory_base + i))
  copy_pde_loop n (i + 1) dir

abbrev pub first_kernel_pde : ℕ
first_kernel_pde = kernel_static_mem_start / 2 ^ 22

unfoldable pub map_process : (k_base frames : ℕ) → Vm ℕ
map_process k_base frames = do
  phys ← phys_allocate
  dir ← allocate_map phys
  clear_page dir
  share_loop frames 0 k_base dir
  copy_pde_loop (1024 - first_kernel_pde) first_kernel_pde dir
  pure dir

unfoldable pub unmap_loop : (n i k_base : ℕ) → Vm (Unit {0})
unmap_loop zero i k_base = pure tt
unmap_loop (suc n) i k_base = do
  s ← get
  unmap_frame (u32 (k_base + i * frame_size)) s.kernel_page_directory
  unmap_loop n (i + 1) k_base

unfoldable pub create_address_space : (k_base frames : ℕ) → Vm ℕ
create_address_space k_base frames = do
  ret ← map_process k_base frames
  unmap_loop frames 0 k_base
  pure ret

-- The loop of `X86CreateStack` from `i` on; whether it found all its frames
unfoldable pub stack_loop : (n i bottom dir : ℕ) → Vm Bool
stack_loop zero i bottom dir = pure true
stack_loop (suc n) i bottom dir = do
  phys ← phys_allocate
  if phys == 0 then pure false else do
    map_frame (u32 (bottom + i * frame_size)) phys true true true dir
    stack_loop n (i + 1) bottom dir

unfoldable pub create_stack : (address_space top size : ℕ) → Vm ℕ
create_stack address_space top size = do
  let frames = kernel_frames size
  let bottom = u32 (top + 2 ^ 32 - u32 (frames * frame_size))
  complete ← stack_loop frames 0 bottom address_space
  pure (if complete then top / 0x1000 * 0x1000 else 0)

-- What both loops of `X86DeleteAddressSpace` do with a frame; whether they go on
unfoldable pub delete_page : (frame address_space : ℕ) → Vm Bool
delete_page frame address_space = do
  pte ← get_pte frame address_space
  if pte.present
      then (do
        unmap_frame frame address_space
        let phys = u32 (pte.page_frame_addr * 2 ^ 12)
        if phys == 0 then pure tt else phys_free phys
        pure true)
      else pure false

unfoldable pub delete_up_loop : (fuel frame address_space : ℕ) → Vm (Unit {0})
delete_up_loop zero frame address_space = λ _. out_of_fuel
delete_up_loop (suc fuel) frame address_space =
    if ltb frame kernel_static_mem_start
    then (do
      more ← delete_page frame address_space
      if more then delete_up_loop fuel (u32 (frame + 0x1000)) address_space else pure tt)
    else pure tt

unfoldable pub delete_down_loop : (fuel frame address_space : ℕ) → Vm (Unit {0})
delete_down_loop zero frame address_space = λ _. out_of_fuel
delete_down_loop (suc fuel) frame address_space = if frame == 0 then pure tt else do
  more ← delete_page frame address_space
  if more then delete_down_loop fuel (u32 (frame + 2 ^ 32 - 0x1000)) address_space else pure tt

unfoldable pub x86_delete_address_space : ℕ → Vm (Unit {0})
x86_delete_address_space address_space = do
  delete_up_loop all_pages 0 address_space
  delete_down_loop all_pages kernel_static_mem_start address_space

-- The entry of `kernel_page_directory` for the part of `kernel_page_table` at the word `table`
unfoldable pub kernel_pde : ℕ → Pde
kernel_pde table = record zero_pde {
  user = true;
  cache_disable = true;
  write_through_caching = true;
  writable = true;
  present = true;
  page_table_addr = table * 4 / 2 ^ 12;
}

-- The loop of `X86VirtMemMgrInit` from `i` on
unfoldable pub init_pde_loop : (n i : ℕ) → Space → Space
init_pde_loop zero i s = s
init_pde_loop (suc n) i s = init_pde_loop n (i + 1) (record s {
  ram = put s.ram (s.directory_base + i) (encode_pde (kernel_pde (s.table_base + i * 1024)));
})

-- `memset` of `n` words from word `first` on
unfoldable pub clear_words : (ℕ → ℕ) → (first n : ℕ) → ℕ → ℕ
clear_words ram first n b = if ltb b first then ram b else if ltb b (first + n) then 0 else ram b

-- `X86VirtMemMgrInit`, for a kernel that ends at `mem_end`; the handler of interrupt 14 is
-- registered with the interrupts.
unfoldable pub virt_mem_mgr_init : (mem_end : ℕ) → Vm (Unit {0})
virt_mem_mgr_init mem_end = do
  modify λ s. record s { ram = clear_words s.ram s.directory_base 1024 }
  modify λ s. record s { ram = clear_words s.ram s.table_base all_pages }
  modify (init_pde_loop 1024 0)
  s ← get
  map_range 0x1000 0x1000 (1048576 / frame_size - 1) true false false s.kernel_page_directory
  map_range (kernel_static_mem_start + 0x1000) 0x1000
      (kernel_frames (kernel_len kernel_static_mem_start mem_end)) true true false
      s.kernel_page_directory
  switch_page_directory s.kernel_page_directory
