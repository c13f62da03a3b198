-- ===== src/Process/Ops.antt =====
-- The functions of user/process.c and of its x86 part.
use vv4os.Base.{
  ℕ, zero, suc, ◌+◌, ◌-◌, ◌^◌, bit_and, bit_or, Bool, true, false, none, ◌∷◌, ◌==◌, if◌then◌else◌,
  u32,
}
use vv4os.Process.State.{
  Ptr, null, Kernel, ok, out_of_fuel, Cmd, ◌>>=◌, ◌>>◌, pure, get, modify, write, load_process,
  load_file, store_process,
}

abbrev pub kernel_syscall_stack : ℕ
kernel_syscall_stack = 16384

abbrev pub user_process_base : ℕ
user_process_base = 0x00100000

-- `process->kernel_stack - KERNEL_SYSCALL_STACK`
abbrev pub stack_base : Ptr → Ptr
stack_base top = u32 (top + 2 ^ 32 - kernel_syscall_stack)

-- `X86StopScheduler` and `X86StartScheduler` mask and unmask the timer interrupt.
unfoldable pub mask_timer : Kernel → Kernel
mask_timer k = record k { pic_mask = bit_or k.pic_mask 0x01 }

unfoldable pub unmask_timer : Kernel → Kernel
unmask_timer k = record k { pic_mask = bit_and k.pic_mask 0xFE }

unfoldable pub start_scheduler : Kernel → Kernel
unfolding unmask_timer
start_scheduler k = unmask_timer (record k { scheduling = true })

unfoldable pub stop_scheduler : Kernel → Kernel
unfolding mask_timer
stop_scheduler k = mask_timer (record k { scheduling = false })

-- The loop of `GetProcess` from `p`.
unfoldable pub get_process_loop : ℕ → ℕ → Ptr → Cmd Ptr
get_process_loop pid zero p = λ _. out_of_fuel
get_process_loop pid (suc fuel) p =
    if p == null
    then pure null
    else do c ← load_process p; if c.pid == pid then pure p else get_process_loop pid fuel c.next

unfoldable pub get_process : ℕ → ℕ → Cmd Ptr
unfolding get_process_loop
get_process fuel pid k = get_process_loop pid fuel k.head k

unfoldable pub user_process_current : Cmd ℕ
user_process_current k =
    if k.current == null then ok 0 k else (do c ← load_process k.current; pure c.pid) k

-- The loop of `UserProcessLocalFile` from `p`.
unfoldable pub local_file_loop : ℕ → ℕ → Ptr → Cmd Ptr
local_file_loop id zero p = λ _. out_of_fuel
local_file_loop id (suc fuel) p =
    if p == null
    then pure null
    else do c ← load_file p; if c.local_id == id then pure p else local_file_loop id fuel c.next

unfoldable pub user_process_local_file : (fuel pid local_id : ℕ) → Cmd Ptr
user_process_local_file fuel pid id = do
  p ← get_process fuel pid
  if p == null then pure null else do c ← load_process p; local_file_loop id fuel c.local_files

-- Where a `Process**` points: to `head`, or to the `next` field of a process.
pub data Link : Type 0 where
  head_link : Link
  next_link : Ptr → Link

unfoldable pub read_link : Link → Cmd Ptr
read_link head_link = do k ← get; pure k.head
read_link (next_link p) = do c ← load_process p; pure c.next

unfoldable pub write_link : Link → Ptr → Cmd (Unit {0})
write_link head_link q = modify λ k. record k { head = q }
write_link (next_link p) q = do c ← load_process p; store_process p (record c { next = q })

-- The loop of `_RemoveProcess`: it unlinks the process with the pid and returns it.
unfoldable pub unlink_loop : ℕ → ℕ → Link → Cmd Ptr
unfolding read_link write_link
unlink_loop pid zero l = λ _. out_of_fuel
unlink_loop pid (suc fuel) l = do
  p ← read_link l
  c ← load_process p
  if c.pid == pid then (do write_link l c.next; pure p) else unlink_loop pid fuel (next_link p)

unfoldable pub release : Ptr → Cmd (Unit {0})
release p = modify λ k. record k { released = p ∷ k.released }

-- The loop that frees the local files.
unfoldable pub release_files : ℕ → Ptr → Cmd (Unit {0})
unfolding release
release_files zero p = λ _. out_of_fuel
release_files (suc fuel) p = if p == null then pure tt else do
  c ← load_file p
  modify λ k. record k { files = write k.files p none }
  release p
  release_files fuel c.next

-- `X86DeleteAddressSpace`, here only recorded.
unfoldable pub delete_address_space : Ptr → Cmd (Unit {0})
delete_address_space a = modify λ k. record k { deleted_spaces = a ∷ k.deleted_spaces }

unfoldable pub remove_process_entry : (fuel pid : ℕ) → Bool → Cmd (Unit {0})
unfolding release delete_address_space
remove_process_entry fuel pid restart = do
  p ← unlink_loop pid fuel head_link
  c ← load_process p
  delete_address_space c.address_space
  release (stack_base c.kernel_stack)
  release c.last_state
  release_files fuel c.local_files
  if restart then modify start_scheduler else pure tt

-- `RemoveProcess`, which goes on in `_RemoveProcess` on the kernel's own stack.
unfoldable pub remove_process : (fuel pid : ℕ) → Cmd (Unit {0})
remove_process fuel pid = do
  k ← get
  modify stop_scheduler
  remove_process_entry fuel pid k.scheduling
