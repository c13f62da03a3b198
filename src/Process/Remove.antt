-- ===== src/Process/Remove.antt =====
-- `RemoveProcess`: the process leaves the list, and what it held is released.
use vv4os.Base.{ℕ, ◌<◌, ◌≡◌, refl, Bool, Option, none, List, [], ◌∷◌, if◌then◌else◌, length}
use vv4os.File.{File}
use vv4os.Process.State.{Ptr, Process, Kernel, fault, write}
use vv4os.Process.Ops.{
  stack_base, remove_process_entry, remove_process, start_scheduler, stop_scheduler,
}
use vv4os.Process.Chain.{Cells, ProcessChain, find}
use vv4os.Process.Lookup.{has_pid}
use vv4os.Process.Unlink.{unlink_missing}

-- The store of files without those of a list.
abbrev pub without_files : (Ptr → Option File) → Cells File → Ptr → Option File
without_files files [] = files
without_files files ((p, _) ∷ fs) = without_files (write files p none) fs

-- The pointers that `free` was given, newest first, after the files of a list.
abbrev pub released_files : Cells File → List Ptr → List Ptr
released_files [] acc = acc
released_files ((p, _) ∷ fs) acc = released_files fs (p ∷ acc)

-- The state after a removal.
abbrev pub removed : Kernel → Ptr → (Ptr → Option Process) → Process → Cells File → Kernel
removed k head' procs' c fs = record k {
  head = head';
  procs = procs';
  files = without_files k.files fs;
  released = released_files fs (c.last_state ∷ stack_base c.kernel_stack ∷ k.released);
  deleted_spaces = c.address_space ∷ k.deleted_spaces;
}

abbrev pub restarted : Bool → Kernel → Kernel
restarted restart k = if restart then start_scheduler k else k

-- If no process of the list has the pid, `RemoveProcess` reads through a `NULL` pointer.
pub remove_process_missing :
    (fuel pid : ℕ) (k : Kernel) {xs : Cells Process}
    → ProcessChain k.procs k.head xs
    → length xs < fuel
    → find (has_pid pid) xs ≡ none
    → remove_process fuel pid k ≡ fault
unfolding remove_process remove_process_entry stop_scheduler
remove_process_missing fuel pid k s enough absent =
    rw (unlink_missing fuel pid (stop_scheduler k) s enough absent) refl
