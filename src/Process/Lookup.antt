-- ===== src/Process/Lookup.antt =====
-- `GetProcess`, `UserProcessCurrent` and `UserProcessLocalFile` over a list of processes.
use vv4os.Base.{
  ℕ, zero, suc, ◌<◌, ◌≡◌, ◌≢◌, inl, inr, Bool, none, some, arith, ◌==◌, length, Bool-cases,
}
use vv4os.File.{File}
use vv4os.Process.State.{Ptr, null, Process, Kernel, ok}
use vv4os.Process.Ops.{get_process_loop, get_process, local_file_loop, user_process_local_file}
use vv4os.Process.Chain.{
  Cells, ProcessChain, FileChain, process_body, nil, cons, find, pointer, load_process-ok,
  load_file-ok,
}

abbrev pub has_pid : ℕ → Process → Bool
has_pid pid c = c.pid == pid

abbrev pub has_id : ℕ → File → Bool
has_id id c = c.local_id == id

get_process_loop-find :
    (fuel pid : ℕ) (k : Kernel) {p : Ptr} {xs : Cells Process}
    → ProcessChain k.procs p xs
    → length xs < fuel
    → get_process_loop pid fuel p k ≡ ok (pointer (find (has_pid pid) xs)) k
unfolding get_process_loop
get_process_loop-find zero pid k s enough = absurd (omega arith)
get_process_loop-find (suc fuel) pid k (nil e) enough = ground arith
get_process_loop-find (suc fuel) pid k (cons {p} c ne e b out s) enough =
    let next = get_process_loop-find fuel pid k s (omega arith) in
    ground (arith, load_process-ok k ne e, next)

local_file_loop-find :
    (fuel id : ℕ) (k : Kernel) {p : Ptr} {xs : Cells File}
    → FileChain k.files p xs
    → length xs < fuel
    → local_file_loop id fuel p k ≡ ok (pointer (find (has_id id) xs)) k
unfolding local_file_loop
local_file_loop-find zero id k s enough = absurd (omega arith)
local_file_loop-find (suc fuel) id k (nil e) enough = ground arith
local_file_loop-find (suc fuel) id k (cons {p} c ne e b out s) enough =
    let next = local_file_loop-find fuel id k s (omega arith) in
    ground (arith, load_file-ok k ne e, next)

-- With more fuel than there are processes, `GetProcess` ends without a fault, changes nothing, and
-- returns the first process of the list with that pid, or `NULL` if there is none.
pub get_process-find :
    (fuel pid : ℕ) (k : Kernel) {xs : Cells Process}
    → ProcessChain k.procs k.head xs
    → length xs < fuel
    → get_process fuel pid k ≡ ok (pointer (find (has_pid pid) xs)) k
unfolding get_process
get_process-find fuel pid k s enough = get_process_loop-find fuel pid k s enough

-- A process that the search finds is one of the list, and is not `NULL`.
pub find-in_store :
    (k : Kernel) {p q : Ptr} {c : Process} {xs : Cells Process} (pid : ℕ)
    → ProcessChain k.procs p xs
    → find (has_pid pid) xs ≡ some (q, c)
    → (q ≢ null) × (d : Process) × (k.procs q ≡ some d) × (process_body d ≡ c) × (c.pid ≡ pid)
find-in_store k pid (nil e) h = absurd (cc)
find-in_store k {q} {c} pid (cons {p} d ne e b out s) h = elim (Bool-cases (d.pid == pid)) [
  | inl hit ↦ (ground arith, d, ground arith, ground arith, ground arith)
  | inr miss ↦ find-in_store k pid s (ground arith)
]

-- With more fuel than there are processes and than the process has files, `UserProcessLocalFile`
-- ends without a fault and changes nothing. It returns `NULL` if no process has the pid, and else the
-- first local file of that process with that id, or `NULL` if there is none.
pub user_process_local_file-find :
    (fuel pid id : ℕ) (k : Kernel) {xs : Cells Process}
    → ProcessChain k.procs k.head xs
    → length xs < fuel
    → (find (has_pid pid) xs ≡ none → user_process_local_file fuel pid id k ≡ ok null k)
      × ((p : Ptr) (c : Process) (fs : Cells File)
          → find (has_pid pid) xs ≡ some (p, c)
          → FileChain k.files c.local_files fs
          → length fs < fuel
          → user_process_local_file fuel pid id k ≡ ok (pointer (find (has_id id) fs)) k)
user_process_local_file-find fuel pid id k {xs} s enough = (missing, present)
  where
    missing : find (has_pid pid) xs ≡ none → user_process_local_file fuel pid id k ≡ ok null k
    missing e =
        unfold user_process_local_file in ground (arith, get_process-find fuel pid k s enough)

    present :
        (p : Ptr) (c : Process) (fs : Cells File)
        → find (has_pid pid) xs ≡ some (p, c)
        → FileChain k.files c.local_files fs
        → length fs < fuel
        → user_process_local_file fuel pid id k ≡ ok (pointer (find (has_id id) fs)) k
    present p c fs e t enough' =
        let (ne, d, at_p, b, _) = find-in_store k pid s e in
        unfold user_process_local_file in
        ground (
          arith,
          get_process-find fuel pid k s enough,
          load_process-ok k ne at_p,
          local_file_loop-find fuel id k t enough',
        )
