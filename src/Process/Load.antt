-- ===== src/Process/Load.antt =====
-- `UserProcessLoad`: the new process and its local files.
use vv4os.Base.{
  ◌+◌, ◌-◌, ◌^◌, bit_or, ◌<◌, ◌≡◌, refl, ◌≢◌, Bool, true, false, Option, none, some, ◌∷◌, arith,
  ltb, ◌==◌,
}
use vv4os.File.{File}
use vv4os.Process.State.{Ptr, null, Process, Kernel, ok, write}
use vv4os.Process.Ops.{start_scheduler, mask_timer}
use vv4os.Process.Start.{
  ReadOp, Fresh, initial_state, load_image, load_process_image, user_process_load,
}
use vv4os.Process.Chain.{Cells, ProcessChain, FileChain, cons, find, frame-write}
use vv4os.Process.Lookup.{has_pid}
use vv4os.Process.Remove.{restarted}
use vv4os.Process.Image.{
  pids_up_to, pids_up_to-suc, find_beyond, files_read, new_process, new_files, store_files, loaded,
  load_image-ok, store_new_process-ok, FileChain-new_files, IsFresh,
}

-- What a load leaves.
pub record IsLoaded (k k' : Kernel) (f : Fresh) (ci co ce : File) (xs : Cells Process)
    : Type 0 where
  pub chain : ProcessChain k'.procs k'.head ((f.process, new_process f (k.last_pid + 1)) ∷ xs)
  pub pids : pids_up_to k'.last_pid ((f.process, new_process f (k.last_pid + 1)) ∷ xs) ≡ true
  pub unused : find (has_pid (k.last_pid + 1)) xs ≡ none
  pub files : FileChain k'.files f.l_stdin (new_files f ci co ce)
  pub registers : k'.states f.state ≡ some (initial_state f.user_stack)
  pub running : k'.current ≡ k.current

IsLoaded-loaded :
    (k : Kernel) (f : Fresh) {stdin stdout stderr : Ptr} {xs : Cells Process} (ci co ce : File)
    (files : Ptr → Option File)
    → IsFresh k f stdin stdout stderr xs
    → ProcessChain k.procs k.head xs
    → pids_up_to k.last_pid xs ≡ true
    → IsLoaded k (loaded k f (store_files f ci co ce files)) f ci co ce xs
unfolding write
IsLoaded-loaded k f {xs} ci co ce files new s old =
    let bounded = pids_up_to-suc k.last_pid xs old in
    let own : ltb 0 (k.last_pid + 1) ≡ true = ground arith in
    record {
      chain =
          cons (record (new_process f (k.last_pid + 1)) { next = k.head }) new.process_live
            (ground arith) refl new.process_new (frame-write f.process _ s new.process_new);
      pids = ground (arith, bounded, own);
      unused = find_beyond k.last_pid xs old;
      files = FileChain-new_files k f ci co ce files new;
      registers = ground arith;
      running = refl;
    }

IsLoaded-restarted :
    (k k' : Kernel) (f : Fresh) {ci co ce : File} {xs : Cells Process} (restart : Bool)
    → IsLoaded k k' f ci co ce xs
    → IsLoaded k (restarted restart k') f ci co ce xs
unfolding start_scheduler
IsLoaded-restarted k k' f true l = record {
  chain = l.chain;
  pids = l.pids;
  unused = l.unused;
  files = l.files;
  registers = l.registers;
  running = l.running;
}
IsLoaded-restarted k k' f false l = l

load_process_image-ok :
    (read : ReadOp) (k : Kernel) (f : Fresh) (file stdin stdout stderr : Ptr) (restart : Bool)
    {F : Ptr → Option File}
    → load_image read f file stdin stdout stderr k ≡ ok tt (record k { files = F })
    → f.process ≢ null
    → f.state ≢ null
    → k.last_pid < 2 ^ 32 - 2
    → load_process_image read f file stdin stdout stderr restart k
      ≡ ok (k.last_pid + 1) (restarted restart (loaded k f F))
unfolding load_process_image
load_process_image-ok read k f file stdin stdout stderr true {F} image ne ne' small =
    rw (image, store_new_process-ok (record k { files = F }) f ne ne' small) refl
load_process_image-ok read k f file stdin stdout stderr false {F} image ne ne' small =
    rw (image, store_new_process-ok (record k { files = F }) f ne ne' small) refl

-- With fewer than `2 ^ 32 - 2` pids given out, all of them up to `last_pid`, fresh pointers from the
-- allocator and four descriptors that exist, `UserProcessLoad` ends without a fault and returns the
-- pid `last_pid + 1`, which no process had. The new process stands before the others, which are
-- left, with copies of the three descriptors as its local files 0, 1 and 2 and with the initial
-- registers; pids are still from 1 up to `last_pid`, and the running process is as before.
pub user_process_load-IsLoaded :
    (read : ReadOp) (k : Kernel) (f : Fresh) {file stdin stdout stderr : Ptr} {c ci co ce : File}
    {xs : Cells Process}
    → ProcessChain k.procs k.head xs
    → pids_up_to k.last_pid xs ≡ true
    → k.last_pid < 2 ^ 32 - 2
    → IsFresh k f stdin stdout stderr xs
    → file ≢ null
    → k.files file ≡ some c
    → files_read read f file c k stdin ≡ some ci
    → files_read read f file c k stdout ≡ some co
    → files_read read f file c k stderr ≡ some ce
    → (k' : Kernel) × (user_process_load read f file stdin stdout stderr k ≡ ok (k.last_pid + 1) k')
      × IsLoaded k k' f ci co ce xs
unfolding user_process_load mask_timer
user_process_load-IsLoaded read k f {file} {stdin} {stdout} {stderr} {c} {ci} {co} {ce} {xs} s old
      small new ne e ei eo ee =
    let k₁ : Kernel = mask_timer k in
    let files = store_files f ci co ce (files_read read f file c k) in
    let new₁ : IsFresh k₁ f stdin stdout stderr xs = record {
      process_live = new.process_live;
      process_new = new.process_new;
      state_live = new.state_live;
      in_live = new.in_live;
      out_live = new.out_live;
      err_live = new.err_live;
      in_out = new.in_out;
      in_err = new.in_err;
      out_err = new.out_err;
      stdout_kept = new.stdout_kept;
      stderr_kept = new.stderr_kept;
      stdin_live = new.stdin_live;
      stdout_live = new.stdout_live;
      stderr_live = new.stderr_live;
    } in
    let more : (k.last_pid == 2 ^ 32 - 2) ≡ false = ground arith in
    let image = load_image-ok read k₁ f new₁ ne e ei eo ee in
    let l = IsLoaded-loaded k₁ f ci co ce (files_read read f file c k) new₁ s old in
    (
      restarted k.scheduling (loaded k₁ f files),
      rw more (
          load_process_image-ok read k₁ f file stdin stdout stderr k.scheduling image
            new.process_live new.state_live small),
      record {
        chain = (IsLoaded-restarted k₁ _ f k.scheduling l).chain;
        pids = (IsLoaded-restarted k₁ _ f k.scheduling l).pids;
        unused = l.unused;
        files = (IsLoaded-restarted k₁ _ f k.scheduling l).files;
        registers = (IsLoaded-restarted k₁ _ f k.scheduling l).registers;
        running = (IsLoaded-restarted k₁ _ f k.scheduling l).running;
      },
    )

-- When the pids have run out, `UserProcessLoad` returns 0 and changes nothing but the mask of the
-- timer interrupt, which it leaves set although `scheduling` still says that the scheduler is on.
pub user_process_load_full :
    (read : ReadOp) (k : Kernel) (f : Fresh) (file stdin stdout stderr : Ptr)
    → k.last_pid ≡ 2 ^ 32 - 2
    → user_process_load read f file stdin stdout stderr k
      ≡ ok 0 (record k { pic_mask = bit_or k.pic_mask 0x01 })
unfolding user_process_load mask_timer
user_process_load_full read k f file stdin stdout stderr full = ground (arith, full)
