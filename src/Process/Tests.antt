-- ===== src/Process/Tests.antt =====
-- The theorems on processes at a kernel with two processes.
use vv4os.Base.{ℕ, ◌≡◌, refl, true, Option, none, some, [], ◌∷◌, arith, ◌==◌, if◌then◌else◌, ◌+◌}
use vv4os.File.{File, fd_type_tty}
use vv4os.Process.State.{Ptr, Process, CpuState, Kernel, ok, fault, write}
use vv4os.Process.Ops.{user_process_local_file, remove_process}
use vv4os.Process.Chain.{Cells, ProcessChain, FileChain, nil, cons}
use vv4os.Process.Lookup.{user_process_local_file-find}
use vv4os.Process.Remove.{remove_process_missing}
use vv4os.Process.Start.{ReadOp, Fresh, initial_state, user_process_load}
use vv4os.Process.Image.{IsFresh}
use vv4os.Process.Load.{IsLoaded, user_process_load-IsLoaded}
use vv4os.Process.Tick.{resume, scheduler_tick}
use vv4os.Process.Schedule.{switched, scheduler_tick-next}

abbrev tty : (id next : ℕ) → File
tty id next = record {
  seek = 0;
  size = 0;
  volume = 0;
  internal = 0;
  traverse_op = 1;
  read_op = 2;
  write_op = 3;
  local_id = id;
  kind = fd_type_tty;
  next = next;
}

abbrev process : (pid state files next : ℕ) → Process
process pid state files next = record {
  address_space = 0x50000 + pid;
  last_state = state;
  kernel_stack = 0x94000;
  local_files = files;
  next = next;
  pid = pid;
}

abbrev procs : Ptr → Option Process
procs p =
    if p == 200
    then some (process 2 402 301 100)
    else if p == 100
    then some (process 1 401 0 0)
    else none

abbrev files : Ptr → Option File
files p = if p == 301 then some (tty 0 302) else if p == 302 then some (tty 1 0) else none

abbrev states : Ptr → Option CpuState
states p =
    if p == 401 then some (initial_state 1) else if p == 402 then some (initial_state 2) else none

abbrev kernel : Ptr → Kernel
kernel running = record {
  procs = procs;
  files = files;
  states = states;
  last_pid = 2;
  head = 200;
  current = running;
  next_up = 0;
  scheduling = true;
  pic_mask = 0xFE;
  released = [];
  deleted_spaces = [];
}

abbrev table : Cells Process
table = (200, process 2 402 301 0) ∷ (100, process 1 401 0 0) ∷ []

abbrev opened : Cells File
opened = (301, tty 0 0) ∷ (302, tty 1 0) ∷ []

chain : ProcessChain procs 200 table
chain =
    cons (process 2 402 301 100) (omega arith) refl refl refl
      (cons (process 1 401 0 0) (omega arith) refl refl refl (nil refl))

file_chain : FileChain files 301 opened
file_chain =
    cons (tty 0 302) (omega arith) refl refl refl
      (cons (tty 1 0) (omega arith) refl refl refl (nil refl))

second_file : user_process_local_file 3 2 1 (kernel 100) ≡ ok 302 (kernel 100)
second_file =
    (user_process_local_file-find 3 2 1 (kernel 100) chain (omega arith)).1 200
      (process 2 402 301 0) opened refl file_chain (omega arith)

remove_process_missing_example : remove_process 3 7 (kernel 100) ≡ fault
remove_process_missing_example = remove_process_missing 3 7 (kernel 100) chain (omega arith) refl

abbrev no_read : ReadOp
no_read op file size buf files = files

abbrev fresh : Fresh
fresh = record {
  buf = 0x1000;
  process = 300;
  l_stdin = 311;
  l_stdout = 312;
  l_stderr = 313;
  stack = 0xA0000;
  address_space = 0x50003;
  state = 403;
  user_stack = 0xBFFFF000;
}

fresh-IsFresh : IsFresh (kernel 100) fresh 301 302 302 table
fresh-IsFresh = record {
  process_live = omega arith;
  process_new = refl;
  state_live = omega arith;
  in_live = omega arith;
  out_live = omega arith;
  err_live = omega arith;
  in_out = omega arith;
  in_err = omega arith;
  out_err = omega arith;
  stdout_kept = omega arith;
  stderr_kept = (omega arith, omega arith);
  stdin_live = omega arith;
  stdout_live = omega arith;
  stderr_live = omega arith;
}

user_process_load-IsLoaded_example :
    (k' : Kernel) × (user_process_load no_read fresh 302 301 302 302 (kernel 100) ≡ ok 3 k')
    × IsLoaded (kernel 100) k' fresh (tty 0 302) (tty 1 0) (tty 1 0) table
user_process_load-IsLoaded_example =
    user_process_load-IsLoaded no_read (kernel 100) fresh chain refl (omega arith) fresh-IsFresh
      (omega arith) refl (unfold write in refl) (unfold write in refl) (unfold write in refl)

scheduler_tick-next_example :
    scheduler_tick 1 (kernel 100)
    ≡ ok (resume 200 0x94000 0x50002 (initial_state 2)) (switched (kernel 100) 200)
scheduler_tick-next_example =
    scheduler_tick-next 0 (kernel 100) 1 0 (initial_state 2) chain refl refl refl refl refl
      (omega arith, refl)
