-- ===== src/VirtMem/CreateTests.antt =====
-- `MapProcess` at a kernel that has two pages of a program.
use vv4os.Base.{
  Bool-cases, ==_iff, inl, zero, suc, ℕ, ◌+◌, ◌*◌, ◌≤◌, ◌<◌, ◌≡◌, refl, inr, true, false, arith,
  ◌==◌, if◌then◌else◌,
}
use vv4os.Bitmap.{Bitmap, get_bit}
use vv4os.Bitmap.Marks.{marked}
use vv4os.PhysMem.Laws.{IsFrameMap, in_use}
use vv4os.VirtMem.Entry.{decode_pte, virtual_addr, flag}
use vv4os.VirtMem.State.{Space, page, kernel_pte}
use vv4os.VirtMem.Scratch.{kernel_used}
use vv4os.VirtMem.Walk.{IsKernel}
use vv4os.VirtMem.Init.{IsImage}
use vv4os.VirtMem.Spaces.{map_process}
use vv4os.VirtMem.Supply.{HasFrames}
use vv4os.VirtMem.Directory.{HasTwoPages}
use vv4os.VirtMem.Create.{Creates, map_process-Creates}

abbrev free_frames : Bitmap
free_frames = record { words = λ i. 0; len = 4128; dead_zone = 4096; first_free = 4096 }

-- The kernel has mapped its directory and the two pages of a program.
abbrev loaded_ram : ℕ → ℕ
loaded_ram a =
    if a == 0xC0800
    then 0x800 * 4096 + 3
    else if a == 0xC0900
    then 0x900 * 4096 + 3
    else if a == 0xC0901
    then 0x905 * 4096 + 3
    else 0

loaded : Space
loaded = record {
  ram = loaded_ram;
  frames = free_frames;
  table_base = 0;
  directory_base = 0x200000;
  kernel_page_directory = 0xC0800000;
  current_page_directory = 0xC0800000;
  cr3 = 0;
}

free_frames-IsFrameMap : IsFrameMap free_frames
free_frames-IsFrameMap = record {
  valid = record {
    dead = omega arith;
    room = omega arith;
    small = omega arith;
    hint_small = omega arith;
    hint = λ i a b c. absurd (omega arith);
  };
  frames = omega arith;
  reserved = omega arith;
}

loaded-IsKernel : IsKernel loaded
unfolding loaded kernel_pte decode_pte flag
loaded-IsKernel = record {
  frame_map = free_frames-IsFrameMap;
  image = omega arith;
  clean = λ p h free. ground arith;
  scratch = (0xC0002, omega arith, omega arith, refl);
}

loaded-IsImage : IsImage loaded
unfolding loaded
loaded-IsImage = record { disjoint = inr (omega arith); small = omega arith }

loaded-dead : loaded.directory_base + 1024 ≤ loaded.frames.dead_zone * 1024
unfolding loaded
loaded-dead = omega arith

loaded-HasTwoPages : HasTwoPages loaded
unfolding loaded kernel_pte decode_pte flag
loaded-HasTwoPages = record {
  first = 0xC0002;
  second = 0xC0003;
  different = λ e. omega (arith, e);
  first_free = record { above = omega arith; below = omega arith; free = refl };
  second_free = record { above = omega arith; below = omega arith; free = refl };
}

loaded-directory : kernel_used loaded (page loaded.kernel_page_directory) ≡ true
unfolding loaded kernel_pte decode_pte flag page virtual_addr
loaded-directory = refl

unused : (i : ℕ) → i < 3 → in_use free_frames (4096 + i) ≡ false
unfolding marked get_bit
unused zero h = refl
unused (suc zero) h = refl
unused (suc (suc zero)) h = refl
unused (suc (suc (suc i))) h = absurd (omega (arith, h))

loaded-HasFrames : HasFrames loaded.frames 3
unfolding loaded
loaded-HasFrames = record {
  frame = λ i. 4096 + i;
  inside = λ i h. (omega arith, omega (arith, h));
  free = unused;
  distinct = λ i j hi hj e. omega (arith, e);
}

program_pages : (j : ℕ) → j < 2 → kernel_used loaded (0xC0900 + j) ≡ true
unfolding loaded kernel_pte decode_pte flag
program_pages j h = elim (Bool-cases (j == 0)) [
  | inl first ↦ rw ((==_iff j 0).0 first) refl
  | inr other ↦ let e : j ≡ 1 = ground arith in rw e refl
]

map_process-Creates_example : Creates loaded 0xC0900 2 (map_process (0xC0900 * 4096) 2 loaded)
map_process-Creates_example =
    map_process-Creates loaded 0xC0900 2 loaded-IsKernel loaded-IsImage loaded-dead
      loaded-HasTwoPages loaded-directory loaded-HasFrames program_pages (omega arith) (omega arith)
