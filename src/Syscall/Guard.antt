-- ===== src/Syscall/Guard.antt =====
-- The test of `SyscallRead` and `SyscallWrite` on the buffer.
use vv4os.Base.{
  ℕ, ◌+◌, ◌-◌, ◌^◌, ◌≤◌, ◌<◌, ◌≡◌, refl, ◌≢◌, none, some, arith, ◌∙◌, ap, if◌then◌else◌, u32, true,
  false,
}
use native.Mathlib.Nat.{mod-eq_of_lt}
use vv4os.File.{File}
use vv4os.Process.State.{Ptr, null, Process, Kernel, Run, ok}
use vv4os.Process.Chain.{Cells, find, pointer, load_file-ok}
use vv4os.Process.Lookup.{has_id}
use vv4os.Syscall.{AccessOp, failure, current_file, in_kernel, syscall_read, syscall_write}
use vv4os.Syscall.Caller.{IsCaller, current_file-find, find-live}

wrap_once : (n : ℕ) → 2 ^ 32 ≤ n → n < 2 ^ 32 + 2 ^ 32 → u32 n ≡ n - 2 ^ 32
wrap_once n low high = omega arith

read_step :
    (access : AccessOp) (start fuel id buf len : ℕ) (k : Kernel) {p : Ptr} {f : File}
    → current_file fuel id k ≡ ok p k
    → p ≢ null
    → k.files p ≡ some f
    → syscall_read access start fuel id buf len k
      ≡ (if in_kernel start buf len then ok failure k else access f.read_op p len buf k)
unfolding syscall_read
read_step access start fuel id buf len k {p} is_p ne e = ground (arith, is_p, load_file-ok k ne e)

write_step :
    (access : AccessOp) (start fuel id buf len : ℕ) (k : Kernel) {p : Ptr} {f : File}
    → current_file fuel id k ≡ ok p k
    → p ≢ null
    → k.files p ≡ some f
    → syscall_write access start fuel id buf len k
      ≡ (if in_kernel start buf len then ok failure k else access f.write_op p len buf k)
unfolding syscall_write
write_step access start fuel id buf len k {p} is_p ne e = ground (arith, is_p, load_file-ok k ne e)

-- A call's result `r` in state `k` where `run` is what the operation behind the descriptor does.
pub record IsGuarded (start buf len : ℕ) (k : Kernel) (r run : Run ℕ) : Type 0 where
  pub below : buf + len < start → r ≡ run
  pub reaches : buf + len < 2 ^ 32 → start ≤ buf + len → r ≡ ok failure k
  pub wraps : 2 ^ 32 ≤ buf + len → buf + len < 2 ^ 32 + start → r ≡ run

guard-IsGuarded :
    (start buf len : ℕ) (k : Kernel) {r run : Run ℕ}
    → start < 2 ^ 32
    → r ≡ (if in_kernel start buf len then ok failure k else run)
    → IsGuarded start buf len k r run
guard-IsGuarded start buf len k {r} {run} small e = record {
  below = λ h.
      e
      ∙ (let w : u32 (buf + len) ≡ buf + len = mod-eq_of_lt (omega arith) in
          let out : in_kernel start buf len ≡ false = rw w (ground arith) in rw out refl);
  reaches = λ h h'.
      e
      ∙ (let w : u32 (buf + len) ≡ buf + len = mod-eq_of_lt (omega arith) in
          let out : in_kernel start buf len ≡ true = rw w (ground arith) in rw out refl);
  wraps = λ h h'.
      e
      ∙ (let w : u32 (buf + len) ≡ buf + len - 2 ^ 32 = wrap_once (buf + len) h (omega arith) in
          let out : in_kernel start buf len ≡ false = rw w (ground arith) in rw out refl);
}

-- For a caller with a descriptor of that id, `read` calls the descriptor's operation where the
-- buffer ends below the kernel's memory, and fails without any effect where it reaches into it
-- and ends within the address space; but a length with which the end wraps round to below the
-- kernel's memory passes the test, wherever the buffer starts.
pub syscall_read-IsGuarded :
    (access : AccessOp) (start fuel id buf len : ℕ) (k : Kernel) {xs : Cells Process} {p q : Ptr}
    {c : Process} {fs : Cells File} {f : File}
    → IsCaller fuel k xs p c fs
    → find (has_id id) fs ≡ some (q, f)
    → start < 2 ^ 32
    → IsGuarded start buf len k
        (syscall_read access start fuel id buf len k)
        (access f.read_op q len buf k)
syscall_read-IsGuarded access start fuel id buf len k {q} {f} h found small =
    let (ne, d, at_q, body) = find-live id h.files found in
    let is_q = current_file-find fuel id k h ∙ ap (λ o. ok (pointer o) k) found in
    guard-IsGuarded start buf len k small (
      read_step access start fuel id buf len k is_q ne at_q
      ∙ ap (λ b. if in_kernel start buf len then ok failure k else access b.read_op q len buf k)
          body)

-- As `read`, so `write`.
pub syscall_write-IsGuarded :
    (access : AccessOp) (start fuel id buf len : ℕ) (k : Kernel) {xs : Cells Process} {p q : Ptr}
    {c : Process} {fs : Cells File} {f : File}
    → IsCaller fuel k xs p c fs
    → find (has_id id) fs ≡ some (q, f)
    → start < 2 ^ 32
    → IsGuarded start buf len k
        (syscall_write access start fuel id buf len k)
        (access f.write_op q len buf k)
syscall_write-IsGuarded access start fuel id buf len k {q} {f} h found small =
    let (ne, d, at_q, body) = find-live id h.files found in
    let is_q = current_file-find fuel id k h ∙ ap (λ o. ok (pointer o) k) found in
    guard-IsGuarded start buf len k small (
      write_step access start fuel id buf len k is_q ne at_q
      ∙ ap (λ b. if in_kernel start buf len then ok failure k else access b.write_op q len buf k)
          body)

missing_step :
    (access : AccessOp) (start fuel id buf len : ℕ) (k : Kernel)
    → current_file fuel id k ≡ ok null k
    → (syscall_read access start fuel id buf len k ≡ ok failure k)
      × (syscall_write access start fuel id buf len k ≡ ok failure k)
unfolding syscall_read syscall_write
missing_step access start fuel id buf len k is_null = (rw is_null refl, rw is_null refl)

-- Without a descriptor of that id, `read` and `write` fail without any effect.
pub syscall_missing_file :
    (access : AccessOp) (start fuel id buf len : ℕ) (k : Kernel) {xs : Cells Process} {p : Ptr}
    {c : Process} {fs : Cells File}
    → IsCaller fuel k xs p c fs
    → find (has_id id) fs ≡ none
    → (syscall_read access start fuel id buf len k ≡ ok failure k)
      × (syscall_write access start fuel id buf len k ≡ ok failure k)
syscall_missing_file access start fuel id buf len k h absent =
    missing_step access start fuel id buf len k
      (current_file-find fuel id k h ∙ ap (λ o. ok (pointer o) k) absent)
