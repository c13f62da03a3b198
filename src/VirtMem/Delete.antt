-- ===== src/VirtMem/Delete.antt =====
-- What `X86DeleteAddressSpace` does to the directory of a process.
use vv4os.Base.{ℕ, suc, ◌+◌, ◌*◌, ◌≡◌, refl, ◌∙◌, true, false, arith, ap}
use vv4os.VirtMem.Entry.{Pte, virtual_addr, decode_pte}
use vv4os.VirtMem.State.{Space, done, kernel_pte}
use vv4os.VirtMem.Ops.{all_pages, get_pte, kernel_static_mem_start}
use vv4os.VirtMem.Spaces.{delete_page, delete_up_loop, delete_down_loop, x86_delete_address_space}
use vv4os.VirtMem.Through.{read_entry_lem}
use vv4os.VirtMem.Scratch.{kernel_used}
use vv4os.VirtMem.Walk.{
  IsKernel, IsProcess, IsUser, pde_of, walk, table-lt, load_pde-walk, get_pte-walk, get_pte-present,
}

delete_page-absent :
    (s : Space) (dir v : ℕ) (pte : Pte)
    → get_pte v dir s ≡ done pte s
    → pte.present ≡ false
    → delete_page v dir s ≡ done false s
unfolding delete_page
delete_page-absent s dir v pte reads absent = rw (reads, absent) refl

delete_up_loop-first :
    (s : Space) (dir fuel : ℕ)
    → delete_page 0 dir s ≡ done false s
    → delete_up_loop (suc fuel) 0 dir s ≡ done tt s
unfolding delete_up_loop
delete_up_loop-first s dir fuel stops = rw stops refl

delete_down_loop-first :
    (s : Space) (dir fuel : ℕ)
    → delete_page kernel_static_mem_start dir s ≡ done false s
    → delete_down_loop (suc fuel) kernel_static_mem_start dir s ≡ done tt s
unfolding delete_down_loop
delete_down_loop-first s dir fuel stops = rw stops refl

-- The directory has the kernel's entry for the table of the addresses from 0xC0000000 on.
pub record SharesKernel (s : Space) (dir : ℕ) : Type 0 where
  pub present : (pde_of s dir 768).present ≡ true
  pub table : (pde_of s dir 768).page_table_addr * 1024 ≡ s.table_base + 768 * 1024

module _ (s : Space) (dir : ℕ) (k : IsKernel s) (p : IsProcess s dir)
    (shares : SharesKernel s dir) where
  -- The page at 0xC0000000 is the kernel's page in every process.
  get_pte-kernel_start : get_pte kernel_static_mem_start dir s ≡ done (kernel_pte s 0xC0000) s
  unfolding virtual_addr kernel_pte
  get_pte-kernel_start =
      get_pte-present s dir kernel_static_mem_start p (pde_of s dir 768)
        (load_pde-walk s dir p kernel_static_mem_start) shares.present
      ∙ read_entry_lem s (pde_of s dir 768).page_table_addr 0 k.scratch k.clean (table-lt s dir 768)
          (omega arith) (λ q above below e. omega (arith, shares.table, e))
      ∙ ap (λ a. done (decode_pte (s.ram a)) s) (omega (arith, shares.table))

  zero_page-IsUser : IsUser 0
  unfolding virtual_addr
  zero_page-IsUser = omega arith

  -- `X86DeleteAddressSpace` changes nothing: it unmaps no page and frees no frame, because its loops
  -- stop at the first page that is not mapped, and pages 0 and 0xC0000 are not, whatever else the
  -- process has.
  pub x86_delete_address_space-idle :
      (walk s dir 0).present ≡ false
      → kernel_used s 0xC0000 ≡ false
      → x86_delete_address_space dir s ≡ done tt s
  unfolding x86_delete_address_space
  x86_delete_address_space-idle low high =
      let up : delete_up_loop all_pages 0 dir s ≡ done tt s = delete_up_loop-first s dir 0xFFFFF (
        delete_page-absent s dir 0 (walk s dir 0) (get_pte-walk s dir 0 k p zero_page-IsUser)
          low) in
      rw up (
        delete_down_loop-first s dir 0xFFFFF (
          delete_page-absent s dir kernel_static_mem_start (kernel_pte s 0xC0000)
            get_pte-kernel_start high))
