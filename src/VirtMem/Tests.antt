-- ===== src/VirtMem/Tests.antt =====
-- The theorems on virtual memory at a kernel with one process.
use vv4os.Base.{
  ℕ, ◌+◌, ◌*◌, ◌≤◌, ◌<◌, ◌≡◌, refl, ◌∙◌, sym, inr, true, false, arith, ◌==◌, if◌then◌else◌,
}
use vv4os.Bitmap.{Bitmap, get_bit}
use vv4os.Bitmap.Marks.{marked}
use vv4os.PhysMem.{kernel_frames, kernel_len}
use vv4os.PhysMem.Laws.{IsFrameMap, in_use}
use vv4os.VirtMem.Entry.{Pte, IsPte, decode_pte, decode_pde, virtual_addr, flag}
use vv4os.VirtMem.State.{Space, done, page, kernel_pte}
use vv4os.VirtMem.Ops.{get_pte, set_pte, all_pages, find_contiguous_free_frames}
use vv4os.VirtMem.Spaces.{
  x86_delete_address_space, virt_mem_mgr_init, allocate_contiguous_virtual_frames,
  free_contiguous_virtual_frames,
}
use vv4os.VirtMem.Scratch.{kernel_used}
use vv4os.VirtMem.Walk.{
  IsKernel, IsProcess, IsUser, frame_of, pde_of, walk, get_pte-walk, user_pdes, entry_word,
}
use vv4os.VirtMem.Fresh.{HasFrame}
use vv4os.VirtMem.Search.{Searches, IsFreeRun}
use vv4os.VirtMem.Heap.{IsKernelCurrent}
use vv4os.VirtMem.Delete.{SharesKernel, x86_delete_address_space-idle}
use vv4os.VirtMem.Init.{IsImage, IsInitial, virt_mem_mgr_init-IsInitial}
use vv4os.VirtMem.Contiguous.{
  Grants, find-IsSearch, allocate_contiguous-Grants, free_contiguous-allocate,
}
use vv4os.VirtMem.SetPte.{Stores, set_pte-IsStored}

abbrev frames : Bitmap
frames = record {
  words = λ i. if i == 0 then 3 else 0;
  len = 1056;
  dead_zone = 1024;
  first_free = 1024;
}

abbrev dir : ℕ
dir = 0xC0001000

-- The directory of the process is frame 1024, and its one table is frame 1025.
abbrev ram : ℕ → ℕ
ram a =
    if a == 0xC0001
    then 1024 * 4096 + 3
    else if a == 0xC0300
    then 768 * 4096 + 7
    else if a == 1024 * 1024
    then 1025 * 4096 + 7
    else if a == 1024 * 1024 + 768
    then 768 * 4096 + 7
    else 0

space : Space
space = record {
  ram = ram;
  frames = frames;
  table_base = 0;
  directory_base = 0x200000;
  kernel_page_directory = 0xC0100000;
  current_page_directory = 0xC0100000;
  cr3 = 0;
}

frames-IsFrameMap : IsFrameMap frames
frames-IsFrameMap = record {
  valid = record {
    dead = omega arith;
    room = omega arith;
    small = omega arith;
    hint_small = omega arith;
    hint = λ i a b c. absurd (omega arith);
  };
  frames = omega arith;
  reserved = omega arith;
}

space-IsKernel : IsKernel space
unfolding space kernel_pte decode_pte flag
space-IsKernel = record {
  frame_map = frames-IsFrameMap;
  image = omega arith;
  clean = λ p h free. ground arith;
  scratch = (0xC0002, omega arith, omega arith, refl);
}

only_table : (i : ℕ) → i < user_pdes → (pde_of space dir i).present ≡ true → i ≡ 0
unfolding space kernel_pte decode_pte flag page virtual_addr frame_of pde_of decode_pde
only_table i h e = ground arith

space-IsProcess : IsProcess space dir
unfolding space kernel_pte decode_pte flag page virtual_addr frame_of pde_of decode_pde marked
    get_bit
space-IsProcess = record {
  other = λ e. omega (arith, e);
  small = omega arith;
  aligned = refl;
  mapped = refl;
  owned = record { above = omega arith; taken = refl };
  tables = λ i h e. rw (only_table i h e) (record { above = omega arith; taken = refl });
  apart = λ i h e. rw (only_table i h e) (λ same. omega (arith, same));
  distinct = λ i j hi hj ei ej same. only_table i hi ei ∙ sym (only_table j hj ej);
}

low_page-IsUser : IsUser 0x2000
unfolding virtual_addr
low_page-IsUser = omega arith

high_page-IsUser : IsUser 0x400000
unfolding virtual_addr
high_page-IsUser = omega arith

abbrev entry : Pte
entry = record {
  present = true;
  writable = true;
  user = true;
  write_through_caching = false;
  cache_disable = false;
  dirty = false;
  zero = 0;
  global = false;
  ignored = 0;
  available = 5;
  page_frame_addr = 0x12345;
}

entry-IsPte : IsPte entry
entry-IsPte = record {
  zero_small = omega arith;
  ignored_small = omega arith;
  available_small = omega arith;
  frame_small = omega arith;
}

get_pte-walk_example : get_pte 0x2000 dir space ≡ done (walk space dir 0x2000) space
get_pte-walk_example = get_pte-walk space dir 0x2000 space-IsKernel space-IsProcess low_page-IsUser

free_frame : HasFrame space.frames
unfolding space marked get_bit
free_frame = (1026, omega arith, omega arith, refl)

set_pte-IsStored_example : Stores space dir 0x400000 entry (set_pte 0x400000 dir entry space)
set_pte-IsStored_example =
    set_pte-IsStored space dir 0x400000 space-IsKernel space-IsProcess high_page-IsUser free_frame
      entry entry-IsPte

space-SharesKernel : SharesKernel space dir
unfolding space kernel_pte decode_pte flag page virtual_addr frame_of pde_of decode_pde
space-SharesKernel = record { present = refl; table = refl }

not_mapped : ((walk space dir 0).present ≡ false) × (kernel_used space 0xC0000 ≡ false)
unfolding space kernel_pte decode_pte flag page virtual_addr frame_of pde_of decode_pde walk
    entry_word
not_mapped = (refl, refl)

x86_delete_address_space-idle_example : x86_delete_address_space dir space ≡ done tt space
x86_delete_address_space-idle_example =
    x86_delete_address_space-idle space dir space-IsKernel space-IsProcess space-SharesKernel
      not_mapped.0 not_mapped.1

find-IsSearch_example :
    Searches
      (kernel_used space)
      3
      0xC0001
      space
      (find_contiguous_free_frames 3 space.kernel_page_directory true space)
find-IsSearch_example = find-IsSearch space 3 true (omega arith)

space-current : IsKernelCurrent space
unfolding space
space-current = refl

space-frames : IsFrameMap space.frames
unfolding space
space-frames = frames-IsFrameMap

-- The kernel's pages from 0xC0002 on are not mapped, up to the one at 0xC0300.
free_pages : IsFreeRun (kernel_used space) 0xC0010 3
unfolding space kernel_pte decode_pte flag
free_pages j lo hi = ground arith

allocate_contiguous-Grants_example : Grants space 3 true
allocate_contiguous-Grants_example =
    allocate_contiguous-Grants space 3 true space-frames space-current 0xC0010 (omega arith)
      (omega arith) (omega arith) free_pages

free_contiguous-allocate_example :
    (base : ℕ) × (t : Space) × (u : Space) × (allocate_contiguous_virtual_frames 3 true space
      ≡ done base t)
    × (free_contiguous_virtual_frames base 3 t ≡ done tt u)
    × ((p : ℕ) → p < all_pages → kernel_pte u p ≡ kernel_pte space p)
    × ((g : ℕ) → space.frames.dead_zone ≤ g → in_use u.frames g ≡ in_use space.frames g)
    × IsFrameMap u.frames
free_contiguous-allocate_example =
    free_contiguous-allocate space 3 true space-frames space-current 0xC0010 (omega arith)
      (omega arith) (omega arith) free_pages space-IsKernel.clean

-- Before initialisation the memory holds anything.
blank : Space
blank = record {
  ram = λ a. a;
  frames = frames;
  table_base = 0;
  directory_base = 0x200000;
  kernel_page_directory = 0xC0800000;
  current_page_directory = 0;
  cr3 = 0;
}

blank-IsImage : IsImage blank
unfolding blank
blank-IsImage = record { disjoint = inr (omega arith); small = omega arith }

blank-frames : IsFrameMap blank.frames
unfolding blank
blank-frames = frames-IsFrameMap

blank-dead : blank.table_base + all_pages ≤ blank.frames.dead_zone * 1024
unfolding blank
blank-dead = omega arith

image_small : kernel_frames (kernel_len 0xC0000000 0xC0900001) ≤ 0x3FFFE
unfolding kernel_frames kernel_len
image_small = omega arith

virt_mem_mgr_init-IsInitial_example :
    (t : Space) × (virt_mem_mgr_init 0xC0900001 blank ≡ done tt t)
    × IsInitial blank (kernel_frames (kernel_len 0xC0000000 0xC0900001)) t
virt_mem_mgr_init-IsInitial_example =
    virt_mem_mgr_init-IsInitial blank 0xC0900001 blank-IsImage image_small blank-frames blank-dead
