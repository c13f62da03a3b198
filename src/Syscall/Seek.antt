-- ===== src/Syscall/Seek.antt =====
-- `SyscallLseek` and `SyscallIsatty`.
use vv4os.Base.{
  ℕ, suc, ◌+◌, ◌≡◌, refl, ◌≢◌, none, some, Option, [], ◌∷◌, arith, ltb, ◌==◌, length, Bool-cases,
  ◌∙◌, ap, subst, inl, inr, if◌then◌else◌, u32,
}
use vv4os.File.{File}
use vv4os.Process.State.{Ptr, null, Process, Kernel, Run, ok, fault, load_file, write}
use vv4os.Process.Chain.{Cells, FileChain, file_body, find, pointer, has, nil, cons, load_file-ok}
use vv4os.Process.Lookup.{has_id}
use vv4os.Syscall.{failure, current_file, seek_origin, set_seek, syscall_lseek, syscall_isatty}
use vv4os.Syscall.Caller.{IsCaller, current_file-find, find-live}

-- The state after the descriptor at `p` was set to position `n`.
abbrev pub seeked : Kernel → Ptr → File → ℕ → Kernel
seeked k p d n = record k { files = write k.files p (some (record d { seek = n })) }

abbrev pub origin : ℕ → File → Option ℕ
origin code f =
    if code == 0
    then some 0
    else if code == 1
    then some (u32 f.seek)
    else if code == 2
    then some (u32 f.size)
    else none

abbrev pub lseek_result : Kernel → Ptr → File → ℕ → Option ℕ → Run ℕ
lseek_result k q d offset none = ok failure k
lseek_result k q d offset (some o) = ok (u32 (o + offset)) (seeked k q d (u32 (o + offset)))

seek_origin-ok :
    (k : Kernel) (code : ℕ) (q : Ptr) {d : File}
    → q ≢ null
    → k.files q ≡ some d
    → seek_origin code q k ≡ ok (origin code d) k
unfolding seek_origin
seek_origin-ok k code q ne e = ground (arith, load_file-ok k ne e)

set_seek-ok :
    (k : Kernel) (q : Ptr) (offset : ℕ) (o : Option ℕ) {d : File}
    → q ≢ null
    → k.files q ≡ some d
    → set_seek q offset o k ≡ lseek_result k q d offset o
unfolding set_seek
set_seek-ok k q offset none ne e = refl
set_seek-ok k q offset (some o) ne e = ground (arith, load_file-ok k ne e)

lseek_step :
    (fuel id offset code : ℕ) (k : Kernel) {q : Ptr} {d : File}
    → current_file fuel id k ≡ ok q k
    → q ≢ null
    → k.files q ≡ some d
    → syscall_lseek fuel id offset code k ≡ lseek_result k q d offset (origin code d)
unfolding syscall_lseek
lseek_step fuel id offset code k {q} {d} is_q ne e =
    rw (is_q, seek_origin-ok k code q ne e) (set_seek-ok k q offset (origin code d) ne e)

-- For a caller with a descriptor of that id, `lseek` takes the start, the position or the size, cut
-- to 32 bits, by the code 0, 1 or 2, adds the offset in 32 bits, stores the sum as the position of
-- that descriptor alone and returns it; any other code fails without any effect.
pub syscall_lseek-result :
    (fuel id offset code : ℕ) (k : Kernel) {xs : Cells Process} {p q : Ptr} {c : Process}
    {fs : Cells File} {f : File}
    → IsCaller fuel k xs p c fs
    → find (has_id id) fs ≡ some (q, f)
    → (d : File) × (k.files q ≡ some d)
      × (file_body d ≡ f)
      × (syscall_lseek fuel id offset code k ≡ lseek_result k q d offset (origin code f))
syscall_lseek-result fuel id offset code k {q} {f} h found =
    let (ne, d, at_q, body) = find-live id h.files found in
    let is_q = current_file-find fuel id k h ∙ ap (λ o. ok (pointer o) k) found in
    (
      d,
      at_q,
      body,
      lseek_step fuel id offset code k is_q ne at_q
          ∙ ap (λ b. lseek_result k q d offset (origin code b)) body,
    )

-- The descriptors after one of them was set to a position.
abbrev pub set_in : Ptr → ℕ → Cells File → Cells File
set_in q n [] = []
set_in q n ((p, c) ∷ fs) = (if p == q then (p, record c { seek = n }) else (p, c)) ∷ set_in q n fs

has-set_in : (a q : Ptr) (n : ℕ) (fs : Cells File) → has a (set_in q n fs) ≡ has a fs
has-set_in a q n [] = refl
has-set_in a q n ((p, c) ∷ fs) = ground (arith, has-set_in a q n fs)

length-set_in : (q : Ptr) (n : ℕ) (fs : Cells File) → length (set_in q n fs) ≡ length fs
length-set_in q n [] = refl
length-set_in q n ((p, c) ∷ fs) = ap (λ l. suc l) (length-set_in q n fs)

FileChain-set_in :
    {files : Ptr → Option File} {p : Ptr} {fs : Cells File} (q : Ptr) (d : File) (n : ℕ)
    → files q ≡ some d
    → FileChain files p fs
    → FileChain (write files q (some (record d { seek = n }))) p (set_in q n fs)
FileChain-set_in q d n e (nil end) = nil end
FileChain-set_in {files} q d n e (cons {p} {b} {xs = fs} c ne at_p body away s) =
    let rest = FileChain-set_in q d n e s in
    let away' = has-set_in p q n fs ∙ away in
    elim (Bool-cases (p == q)) [
      | inl hit ↦
          let same : p ≡ q = ground arith in
          let is_d : c ≡ d = ground arith in
          rw hit (
            cons (record d { seek = n }) ne (unfold write in ground arith) (ground arith) away'
              (subst
                (λ a. FileChain (write files q (some (record d { seek = n }))) a (set_in q n fs))
                (ap (λ t. t.next) is_d) rest))
      | inr miss ↦ rw miss (cons c ne (unfold write in ground arith) body away' rest)
    ]

find-set_in :
    (id : ℕ) (q : Ptr) (n : ℕ) {f : File} (fs : Cells File)
    → find (has_id id) fs ≡ some (q, f)
    → find (has_id id) (set_in q n fs) ≡ some (q, record f { seek = n })
find-set_in id q n [] e = absurd (cc)
find-set_in id q n {f} ((p, c) ∷ fs) e = elim (Bool-cases (c.local_id == id)) [
  | inl hit ↦ ground arith
  | inr miss ↦
      let rest : find (has_id id) fs ≡ some (q, f) = ground arith in
      let found = find-set_in id q n fs rest in
      elim (Bool-cases (p == q)) [ inl here ↦ ground arith | inr away ↦ ground arith ]
]

-- The caller's descriptors after one of them was moved.
IsCaller-seeked :
    (fuel id n : ℕ) (k : Kernel) {xs : Cells Process} {p q : Ptr} {c : Process} {fs : Cells File}
    (d : File)
    → IsCaller fuel k xs p c fs
    → k.files q ≡ some d
    → IsCaller fuel (seeked k q d n) xs p c (set_in q n fs)
IsCaller-seeked fuel id n k {q} {fs} d h at_q = record {
  chain = h.chain;
  enough = h.enough;
  running = h.running;
  found = h.found;
  files = FileChain-set_in q d n at_q h.files;
  enough_files = rw (length-set_in q n fs) h.enough_files;
}

-- A position that `lseek` has set from the start of the file is the one that `lseek` from the
-- position, with offset 0, then gives, and the caller's other descriptors stay as they were.
pub syscall_lseek-syscall_lseek :
    (fuel id offset : ℕ) (k : Kernel) {xs : Cells Process} {p q : Ptr} {c : Process}
    {fs : Cells File} {f : File}
    → IsCaller fuel k xs p c fs
    → find (has_id id) fs ≡ some (q, f)
    → (k' : Kernel) × (syscall_lseek fuel id offset 0 k ≡ ok (u32 offset) k')
      × IsCaller fuel k' xs p c (set_in q (u32 offset) fs)
      × (k'' : Kernel) × (syscall_lseek fuel id 0 1 k' ≡ ok (u32 offset) k'')
syscall_lseek-syscall_lseek fuel id offset k {q} {fs} {f} h found =
    let (d, at_q, body, first) = syscall_lseek-result fuel id offset 0 k h found in
    let k' : Kernel = seeked k q d (u32 offset) in
    let h' = IsCaller-seeked fuel id (u32 offset) k d h at_q in
    let found' = find-set_in id q (u32 offset) fs found in
    let (d', _, _, again) = syscall_lseek-result fuel id 0 1 k' h' found' in
    let twice : u32 (u32 (u32 offset) + 0) ≡ u32 offset = omega arith in
    (
      k',
      first
          ∙ ap (λ n. ok (u32 n) (seeked k q d (u32 n)))
              (let z : 0 + offset ≡ offset = omega arith in z),
      h',
      seeked k' q d' (u32 offset),
      again ∙ ap (λ n. ok n (seeked k' q d' n)) twice,
    )

missing_isatty :
    (fuel id : ℕ) (k : Kernel)
    → current_file fuel id k ≡ ok null k
    → syscall_isatty fuel id k ≡ fault
unfolding syscall_isatty load_file
missing_isatty fuel id k is_null = rw is_null refl

missing_lseek :
    (fuel id offset code : ℕ) (k : Kernel)
    → current_file fuel id k ≡ ok null k
    → syscall_lseek fuel id offset code k ≡ (if ltb code 3 then fault else ok failure k)
unfolding syscall_lseek seek_origin set_seek load_file
missing_lseek fuel id offset code k is_null = rw is_null (ground arith)

-- Without a descriptor of that id, `isatty` reads through a `NULL` pointer, and so does `lseek` with
-- one of its three codes; with another code `lseek` fails without any effect.
pub syscall_missing_descriptor :
    (fuel id offset code : ℕ) (k : Kernel) {xs : Cells Process} {p : Ptr} {c : Process}
    {fs : Cells File}
    → IsCaller fuel k xs p c fs
    → find (has_id id) fs ≡ none
    → (syscall_isatty fuel id k ≡ fault)
      × (syscall_lseek fuel id offset code k ≡ (if ltb code 3 then fault else ok failure k))
syscall_missing_descriptor fuel id offset code k h absent =
    let is_null = current_file-find fuel id k h ∙ ap (λ o. ok (pointer o) k) absent in
    (missing_isatty fuel id k is_null, missing_lseek fuel id offset code k is_null)
