-- ===== src/Syscall/Tests.antt =====
-- The theorems on system calls for a process with a terminal as its files 0 and 1.
use vv4os.Base.{ℕ, ◌≡◌, refl, true, none, some, [], ◌∷◌, arith, ◌==◌, if◌then◌else◌}
use vv4os.File.{File, fd_type_tty}
use vv4os.Process.State.{Process, Kernel, ok}
use vv4os.Process.Chain.{Cells, nil, cons}
use vv4os.Syscall.{AccessOp, syscall_read, syscall_write, syscall_lseek}
use vv4os.Syscall.Caller.{IsCaller}
use vv4os.Syscall.Guard.{IsGuarded, syscall_read-IsGuarded, syscall_write-IsGuarded}
use vv4os.Syscall.Seek.{set_in, syscall_lseek-syscall_lseek}

abbrev terminal : (id next : ℕ) → File
terminal id next = record {
  seek = 7;
  size = 100;
  volume = 0;
  internal = 0;
  traverse_op = 1;
  read_op = 2;
  write_op = 3;
  local_id = id;
  kind = fd_type_tty;
  next = next;
}

abbrev running : Process
running = record {
  address_space = 0x50000;
  last_state = 400;
  kernel_stack = 0x94000;
  local_files = 301;
  next = 0;
  pid = 1;
}

abbrev kernel : Kernel
kernel = record {
  procs = λ p. if p == 200 then some running else none;
  files = λ p.
      if p == 301 then some (terminal 0 302) else if p == 302 then some (terminal 1 0) else none;
  states = λ p. none;
  last_pid = 1;
  head = 200;
  current = 200;
  next_up = 0;
  scheduling = true;
  pic_mask = 0xFE;
  released = [];
  deleted_spaces = [];
}

abbrev table : Cells Process
table = (200, running) ∷ []

abbrev opened : Cells File
opened = (301, terminal 0 0) ∷ (302, terminal 1 0) ∷ []

caller : IsCaller 3 kernel table 200 running opened
caller = record {
  chain = cons running (omega arith) refl refl refl (nil refl);
  enough = omega arith;
  running = refl;
  found = refl;
  files =
      cons (terminal 0 302) (omega arith) refl refl refl
        (cons (terminal 1 0) (omega arith) refl refl refl (nil refl));
  enough_files = omega arith;
}

abbrev all_done : AccessOp
all_done op file size buf k = ok size k

abbrev start : ℕ
start = 0xC0100000

syscall_read-IsGuarded_example :
    IsGuarded start 0x100000 64 kernel
      (syscall_read all_done start 3 1 0x100000 64 kernel)
      (ok 64 kernel)
syscall_read-IsGuarded_example =
    syscall_read-IsGuarded all_done start 3 1 0x100000 64 kernel caller refl (omega arith)

-- A buffer inside the kernel passes.
kernel_is_written :
    syscall_write all_done start 3 0 0xC0200000 0x40000000 kernel ≡ ok 0x40000000 kernel
kernel_is_written =
    (syscall_write-IsGuarded all_done start 3 0 0xC0200000 0x40000000 kernel caller refl
        (omega arith)).wraps
      (omega arith) (omega arith)

syscall_lseek-syscall_lseek_example :
    (k' : Kernel) × (syscall_lseek 3 1 12 0 kernel ≡ ok 12 k')
    × IsCaller 3 k' table 200 running (set_in 302 12 opened)
    × (k'' : Kernel) × (syscall_lseek 3 1 0 1 k' ≡ ok 12 k'')
syscall_lseek-syscall_lseek_example = syscall_lseek-syscall_lseek 3 1 12 kernel caller refl
