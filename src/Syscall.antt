-- ===== src/Syscall.antt =====
-- user/syscall.c: the kernel's interface for user processes. The operations behind a descriptor are
-- a parameter, and so is the address of the kernel's memory, which the linker gives.
mod Caller
mod Guard
mod Seek
mod Tests
use vv4os.Base.{ℕ, ◌+◌, ◌-◌, ◌%◌, ◌^◌, Bool, Option, some, none, ◌==◌, leb, if◌then◌else◌, u32}
use vv4os.File.{File, FileType, fd_type_file, fd_type_directory, fd_type_tty}
use vv4os.Process.State.{
  Ptr, null, CpuState, Kernel, ok, Cmd, and_then, ◌>>=◌, ◌>>◌, pure, load_file, store_file,
}
use vv4os.Process.Ops.{user_process_current, user_process_local_file, remove_process}

-- `-1` as a `size_t`
abbrev pub failure : ℕ
failure = 2 ^ 32 - 1

-- A system call returns, or its process is gone.
pub data SyscallEnd : Type 0 where
  returned : ℕ → SyscallEnd
  never : SyscallEnd

-- A function pointer of a descriptor and its arguments to what the call does.
abbrev pub AccessOp : Type 0
AccessOp = (op : ℕ) → (file : Ptr) → (size : ℕ) → (buf : Ptr) → Cmd ℕ

-- `UserProcessLocalFile(UserProcessCurrent(), local_id)`
unfoldable pub current_file : (fuel id : ℕ) → Cmd Ptr
current_file fuel id = do pid ← user_process_current; user_process_local_file fuel pid id

-- The end of the buffer, in 32 bits, as the pointer arithmetic computes it.
abbrev pub in_kernel : (start buf len : ℕ) → Bool
in_kernel start buf len = leb start (u32 (buf + len))

unfoldable pub syscall_read : AccessOp → (start fuel id buf len : ℕ) → Cmd ℕ
syscall_read access start fuel id buf len = do
  p ← current_file fuel id
  if p == null
      then pure failure
      else if in_kernel start buf len
      then pure failure
      else do c ← load_file p; access c.read_op p len buf

unfoldable pub syscall_write : AccessOp → (start fuel id buf len : ℕ) → Cmd ℕ
syscall_write access start fuel id buf len = do
  p ← current_file fuel id
  if p == null
      then pure failure
      else if in_kernel start buf len
      then pure failure
      else do c ← load_file p; access c.write_op p len buf

unfoldable pub syscall_exit : ℕ → Cmd SyscallEnd
syscall_exit fuel = do pid ← user_process_current; remove_process fuel pid; pure never

unfoldable pub syscall_getpid : Cmd ℕ
syscall_getpid = user_process_current

abbrev pub is_tty : FileType → ℕ
is_tty fd_type_tty = 1
is_tty fd_type_file = 0
is_tty fd_type_directory = 0

-- There is no test whether the descriptor exists.
unfoldable pub syscall_isatty : (fuel id : ℕ) → Cmd ℕ
syscall_isatty fuel id = do p ← current_file fuel id; c ← load_file p; pure (is_tty c.kind)

-- The `switch` on `origin_code`, whose `default` returns.
abbrev field : Ptr → (File → ℕ) → Cmd (Option ℕ)
field p get_field = do c ← load_file p; pure (some (u32 (get_field c)))

unfoldable pub seek_origin : ℕ → Ptr → Cmd (Option ℕ)
seek_origin code p =
    if code == 0
    then pure (some 0)
    else if code == 1
    then field p (λ c. c.seek)
    else if code == 2
    then field p (λ c. c.size)
    else pure none

unfoldable pub set_seek : Ptr → ℕ → Option ℕ → Cmd ℕ
set_seek p offset none = pure failure
set_seek p offset (some origin) = do
  c ← load_file p
  store_file p (record c { seek = u32 (origin + offset) })
  pure (u32 (origin + offset))

unfoldable pub syscall_lseek : (fuel id offset origin_code : ℕ) → Cmd ℕ
syscall_lseek fuel id offset code = do
  p ← current_file fuel id
  o ← seek_origin code p
  set_seek p offset o

abbrev pub returning : Cmd ℕ → Cmd SyscallEnd
returning m = do r ← m; pure (returned r)

-- `Syscall`; the arguments are taken from the list in order.
unfoldable pub syscall : (read write : AccessOp) → (start fuel code a b c : ℕ) → Cmd SyscallEnd
syscall read write start fuel code a b c =
    if code == 0
    then returning (syscall_read read start fuel a b c)
    else if code == 1
    then returning (syscall_write write start fuel a b c)
    else if code == 2
    then syscall_exit fuel
    else if code == 3
    then returning syscall_getpid
    else if code == 4
    then returning (syscall_isatty fuel a)
    else if code == 5
    then returning (syscall_lseek fuel a b c)
    else pure (returned failure)

-- `X86SyscallHandler`, with the result in the saved registers; `none` if the process is gone.
unfoldable pub syscall_handler :
    (read write : AccessOp) → (start fuel : ℕ) → CpuState → Cmd (Option CpuState)
syscall_handler read write start fuel s = do
  r ← syscall read write start fuel s.eax s.ebx s.ecx s.edx
  pure (elim r [ returned v ↦ some (record s { eax = v }) | never ↦ none ])
