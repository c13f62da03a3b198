-- ===== src/Syscall/Caller.antt =====
-- The process that makes a system call, and its files.
use vv4os.Base.{
  ℕ, ◌<◌, ◌≡◌, ◌≢◌, some, Option, arith, ◌==◌, length, Bool-cases, ◌∙◌, sym, ap, subst, inl, inr,
}
use vv4os.File.{File}
use vv4os.Process.State.{Ptr, null, Process, Kernel, ok}
use vv4os.Process.Ops.{user_process_current}
use vv4os.Process.Chain.{
  Cells, ProcessChain, FileChain, file_body, nil, cons, find, pointer, load_process-ok,
}
use vv4os.Process.Lookup.{has_pid, has_id, find-in_store, user_process_local_file-find}
use vv4os.Syscall.{current_file}

-- The process `c` at `p` is the running one and the first with its pid, `fs` are its files, and there
-- is fuel for both lists.
pub record IsCaller (fuel : ℕ) (k : Kernel) (xs : Cells Process) (p : Ptr) (c : Process)
    (fs : Cells File) : Type 0 where
  pub chain : ProcessChain k.procs k.head xs
  pub enough : length xs < fuel
  pub running : k.current ≡ p
  pub found : find (has_pid c.pid) xs ≡ some (p, c)
  pub files : FileChain k.files c.local_files fs
  pub enough_files : length fs < fuel

current_step :
    (k : Kernel) {d : Process}
    → k.current ≢ null
    → k.procs k.current ≡ some d
    → user_process_current k ≡ ok d.pid k
unfolding user_process_current
current_step k live at_cur = ground (arith, load_process-ok k live at_cur)

pub user_process_current-ok :
    (fuel : ℕ) (k : Kernel) {xs : Cells Process} {p : Ptr} {c : Process} {fs : Cells File}
    → IsCaller fuel k xs p c fs
    → user_process_current k ≡ ok c.pid k
user_process_current-ok fuel k {c} h =
    let (ne, d, at_p, body, _) = find-in_store k c.pid h.chain h.found in
    let live = subst (λ a. a ≢ null) (sym h.running) ne in
    let at_cur = subst (λ a. k.procs a ≡ some d) (sym h.running) at_p in
    current_step k live at_cur ∙ ap (λ b. ok b.pid k) body

pub current_file-find :
    (fuel id : ℕ) (k : Kernel) {xs : Cells Process} {p : Ptr} {c : Process} {fs : Cells File}
    → IsCaller fuel k xs p c fs
    → current_file fuel id k ≡ ok (pointer (find (has_id id) fs)) k
unfolding current_file
current_file-find fuel id k {p} {c} {fs} h = rw (user_process_current-ok fuel k h) (
    (user_process_local_file-find fuel c.pid id k h.chain h.enough).1 p c fs h.found h.files
      h.enough_files)

-- A descriptor that the search finds.
pub find-live :
    {files : Ptr → Option File} {p q : Ptr} {f : File} {fs : Cells File} (id : ℕ)
    → FileChain files p fs
    → find (has_id id) fs ≡ some (q, f)
    → (q ≢ null) × (d : File) × (files q ≡ some d) × (file_body d ≡ f)
find-live id (nil e) h = absurd (cc)
find-live {q} {f} id (cons {p} d ne e b out s) h = elim (Bool-cases (d.local_id == id)) [
  | inl hit ↦ (ground arith, d, ground arith, ground arith)
  | inr miss ↦ find-live id s (ground arith)
]
