-- ===== src/Process/Image.antt =====
-- The steps of `UserProcessLoad`: the image, the local files and the new structure.
use vv4os.Base.{
  ℕ, ◌+◌, ◌-◌, ◌^◌, ◌<◌, ◌≡◌, refl, ◌≢◌, Bool, true, false, Option, none, some, [], ◌∷◌, arith, ltb,
  leb, ◌==◌, ◌&&◌, u32,
}
use native.Mathlib.Nat.{mod-eq_of_lt}
use vv4os.File.{File}
use vv4os.Process.State.{Ptr, null, Process, Kernel, ok, write}
use vv4os.Process.Ops.{kernel_syscall_stack}
use vv4os.Process.Start.{ReadOp, Fresh, initial_state, copy_file, store_new_process, load_image}
use vv4os.Process.Chain.{Cells, FileChain, nil, cons, has, find, load_file-ok}
use vv4os.Process.Lookup.{has_pid}

-- Every process of the list has a pid from 1 to `n`.
abbrev pub pids_up_to : ℕ → Cells Process → Bool
pids_up_to n [] = true
pids_up_to n ((_, c) ∷ xs) = ltb 0 c.pid && leb c.pid n && pids_up_to n xs

pub pids_up_to-suc :
    (n : ℕ) (xs : Cells Process) → pids_up_to n xs ≡ true → pids_up_to (n + 1) xs ≡ true
pids_up_to-suc n [] h = refl
pids_up_to-suc n ((_, c) ∷ xs) h = ground (arith, pids_up_to-suc n xs)

pub find_beyond :
    (n : ℕ) (xs : Cells Process) → pids_up_to n xs ≡ true → find (has_pid (n + 1)) xs ≡ none
find_beyond n [] h = refl
find_beyond n ((_, c) ∷ xs) h = ground (arith, find_beyond n xs)

-- The store after the image was read.
abbrev pub files_read : ReadOp → Fresh → (file : Ptr) → File → Kernel → Ptr → Option File
files_read read f file c k =
    read c.read_op file c.size f.buf (write k.files file (some (record c { seek = 0 })))

-- What the allocator and the caller give: pointers to structures that are in no use.
pub record IsFresh (k : Kernel) (f : Fresh) (stdin stdout stderr : Ptr) (xs : Cells Process)
    : Type 0 where
  pub process_live : f.process ≢ null
  pub process_new : has f.process xs ≡ false
  pub state_live : f.state ≢ null
  pub in_live : f.l_stdin ≢ null
  pub out_live : f.l_stdout ≢ null
  pub err_live : f.l_stderr ≢ null
  pub in_out : f.l_stdin ≢ f.l_stdout
  pub in_err : f.l_stdin ≢ f.l_stderr
  pub out_err : f.l_stdout ≢ f.l_stderr
  pub stdout_kept : stdout ≢ f.l_stdin
  pub stderr_kept : (stderr ≢ f.l_stdin) × (stderr ≢ f.l_stdout)
  pub stdin_live : stdin ≢ null
  pub stdout_live : stdout ≢ null
  pub stderr_live : stderr ≢ null

abbrev pub new_process : Fresh → ℕ → Process
new_process f pid = record {
  address_space = f.address_space;
  last_state = f.state;
  kernel_stack = u32 (f.stack + kernel_syscall_stack);
  local_files = f.l_stdin;
  next = null;
  pid = pid;
}

abbrev pub local : File → ℕ → File
local c id = record c { local_id = id; next = null }

abbrev pub new_files : Fresh → (ci co ce : File) → Cells File
new_files f ci co ce =
    (f.l_stdin, local ci 0) ∷ (f.l_stdout, local co 1) ∷ (f.l_stderr, local ce 2) ∷ []

-- The state after a load that succeeds.
abbrev pub store_files : Fresh → (ci co ce : File) → (Ptr → Option File) → Ptr → Option File
store_files f ci co ce files =
    write
      (write (write files f.l_stdin (some (record ci { local_id = 0; next = f.l_stdout })))
        f.l_stdout (some (record co { local_id = 1; next = f.l_stderr })))
      f.l_stderr (some (record ce { local_id = 2; next = null }))

abbrev pub loaded : Kernel → Fresh → (Ptr → Option File) → Kernel
loaded k f files = record k {
  procs =
      write k.procs f.process (some (record (new_process f (k.last_pid + 1)) { next = k.head }));
  files = files;
  states = write k.states f.state (some (initial_state f.user_stack));
  last_pid = k.last_pid + 1;
  head = f.process;
}

pub copy_file-ok :
    (k : Kernel) (dest : Ptr) {src : Ptr} {c : File} (id next : ℕ)
    → dest ≢ null
    → src ≢ null
    → k.files src ≡ some c
    → copy_file dest src id next k
      ≡ ok tt
          (record k { files = write k.files dest (some (record c { local_id = id; next = next })) })
unfolding copy_file
copy_file-ok k dest id next ne ne' e = ground (arith, load_file-ok k ne' e)

pub load_image-ok :
    (read : ReadOp) (k : Kernel) (f : Fresh) {file stdin stdout stderr : Ptr} {c ci co ce : File}
    {xs : Cells Process}
    → IsFresh k f stdin stdout stderr xs
    → file ≢ null
    → k.files file ≡ some c
    → files_read read f file c k stdin ≡ some ci
    → files_read read f file c k stdout ≡ some co
    → files_read read f file c k stderr ≡ some ce
    → load_image read f file stdin stdout stderr k
      ≡ ok tt (record k { files = store_files f ci co ce (files_read read f file c k) })
unfolding load_image write
load_image-ok read k f {file} {stdin} {stdout} {stderr} {c} {ci} {co} {ce} new ne e ei eo ee =
    let k₁ : Kernel = record k { files = files_read read f file c k } in
    let k₂ : Kernel = record k₁ {
      files = write k₁.files f.l_stdin (some (record ci { local_id = 0; next = f.l_stdout }));
    } in
    let k₃ : Kernel = record k₂ {
      files = write k₂.files f.l_stdout (some (record co { local_id = 1; next = f.l_stderr }));
    } in
    let at_out : k₂.files stdout ≡ some co = ground (arith, new.stdout_kept) in
    let at_err : k₃.files stderr ≡ some ce = ground (arith, new.stderr_kept) in
    rw
      (
        load_file-ok k ne e,
        copy_file-ok k₁ f.l_stdin 0 f.l_stdout new.in_live new.stdin_live ei,
        copy_file-ok k₂ f.l_stdout 1 f.l_stderr new.out_live new.stdout_live at_out,
      )
      (copy_file-ok k₃ f.l_stderr 2 null new.err_live new.stderr_live at_err)

pub store_new_process-ok :
    (k : Kernel) (f : Fresh)
    → f.process ≢ null
    → f.state ≢ null
    → k.last_pid < 2 ^ 32 - 2
    → store_new_process f k ≡ ok (k.last_pid + 1) (loaded k f k.files)
unfolding store_new_process
store_new_process-ok k f ne ne' small =
    let id : u32 (k.last_pid + 1) ≡ k.last_pid + 1 = mod-eq_of_lt (omega arith) in
    let a : (f.process == null) ≡ false = ground arith in
    let b : (f.state == null) ≡ false = ground arith in rw (a, b, id) refl

pub FileChain-new_files :
    (k : Kernel) (f : Fresh) {stdin stdout stderr : Ptr} {xs : Cells Process} (ci co ce : File)
    (files : Ptr → Option File)
    → IsFresh k f stdin stdout stderr xs
    → FileChain (store_files f ci co ce files) f.l_stdin (new_files f ci co ce)
unfolding write
FileChain-new_files k f ci co ce files new =
    cons (record ci { local_id = 0; next = f.l_stdout }) new.in_live
      (ground (arith, new.in_out, new.in_err)) refl (ground (arith, new.in_out, new.in_err))
      (cons (record co { local_id = 1; next = f.l_stderr }) new.out_live
        (ground (arith, new.out_err)) refl (ground (arith, new.out_err))
        (cons (record ce { local_id = 2; next = null }) new.err_live (ground arith) refl refl
          (nil refl)))
