-- ===== src/Process/Start.antt =====
-- `UserProcessLoad` and `X86GenInitialProcessState`. What they get from other parts is a parameter:
-- the pointers from `malloc` and the virtual memory manager, and what reading a file does to the
-- store of files.
use vv4os.Base.{ℕ, ◌+◌, ◌-◌, ◌^◌, Bool, Option, some, ◌==◌, if◌then◌else◌, u32}
use vv4os.File.{File}
use vv4os.Process.State.{
  Ptr, null, CpuState, ok, Cmd, ◌>>=◌, ◌>>◌, pure, modify, crash, write, load_file, store_file,
}
use vv4os.Process.Ops.{kernel_syscall_stack, user_process_base, mask_timer, start_scheduler}

-- A function pointer and its arguments to the new store of files. Reading ends, and touches nothing
-- else of this state.
abbrev pub ReadOp : Type 0
ReadOp =
    (op : ℕ) → (file : Ptr) → (size : ℕ) → (buf : Ptr) → (Ptr → Option File) → Ptr → Option File

-- What the calls of `malloc`, `calloc`, `AllocateContiguousVirtualFrames`, `CreateAddressSpace` and
-- `X86CreateStack` return.
pub record Fresh : Type 0 where
  pub buf : Ptr
  pub process : Ptr
  pub l_stdin : Ptr
  pub l_stdout : Ptr
  pub l_stderr : Ptr
  pub stack : Ptr
  pub address_space : Ptr
  pub state : Ptr
  pub user_stack : Ptr

-- The zeroed state with the fields that `X86GenInitialProcessState` sets.
abbrev pub initial_state : Ptr → CpuState
initial_state esp = record {
  ds = 0x23;
  edi = 0;
  esi = 0;
  ebp = 0;
  esp = esp;
  ebx = 0;
  edx = 0;
  ecx = 0;
  eax = 0;
  interrupt = 0;
  error_code = 0;
  eip = user_process_base;
  cs = 0x1B;
  eflags = 0x0202;
  user_esp = esp;
  ss = 0x23;
}

-- `memcpy` of a file descriptor, and its new `local_id` and `next`.
unfoldable pub copy_file : (dest src id next : ℕ) → Cmd (Unit {0})
copy_file dest src id next = do
  c ← load_file src
  if dest == null then crash else store_file dest (record c { local_id = id; next = next })

unfoldable pub store_new_process : Fresh → Cmd ℕ
store_new_process f k =
    if f.process == null
    then crash k
    else if f.state == null
    then crash k
    else let pid = u32 (k.last_pid + 1) in
      ok pid (record k {
        procs = write k.procs f.process (
            some (record {
              address_space = f.address_space;
              last_state = f.state;
              kernel_stack = u32 (f.stack + kernel_syscall_stack);
              local_files = f.l_stdin;
              next = k.head;
              pid = pid;
            }));
        states = write k.states f.state (some (initial_state f.user_stack));
        last_pid = pid;
        head = f.process;
      })

-- Reading the image, and the three copies.
unfoldable pub load_image : ReadOp → Fresh → (file stdin stdout stderr : Ptr) → Cmd (Unit {0})
load_image read f file stdin stdout stderr = do
  c ← load_file file
  store_file file (record c { seek = 0 })
  modify λ k. record k { files = read c.read_op file c.size f.buf k.files }
  copy_file f.l_stdin stdin 0 f.l_stdout
  copy_file f.l_stdout stdout 1 f.l_stderr
  copy_file f.l_stderr stderr 2 null

unfoldable pub load_process_image : ReadOp → Fresh → (file stdin stdout stderr : Ptr) → Bool → Cmd ℕ
load_process_image read f file stdin stdout stderr restart = do
  load_image read f file stdin stdout stderr
  pid ← store_new_process f
  if restart then modify start_scheduler else pure tt
  pure pid

unfoldable pub user_process_load : ReadOp → Fresh → (file stdin stdout stderr : Ptr) → Cmd ℕ
unfolding mask_timer
user_process_load read f file stdin stdout stderr k =
    if k.last_pid == 2 ^ 32 - 2
    then ok 0 (mask_timer k)
    else load_process_image read f file stdin stdout stderr k.scheduling (mask_timer k)
