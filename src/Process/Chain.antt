-- ===== src/Process/Chain.antt =====
-- What a linked list of structures in a store stands for.
use vv4os.Base.{
  ◌≡◌, refl, ◌≢◌, Bool, true, false, ◌||◌, Option, none, some, List, [], ◌∷◌, arith, ◌==◌,
  if◌then◌else◌,
}
use vv4os.File.{File}
use vv4os.Process.State.{Ptr, null, Process, Kernel, ok, load_process, load_file, write}

-- The structures of a list, each with its address.
abbrev pub Cells : Type 0 → Type 0
Cells A = List (Ptr × A)

module _ {A : Type 0} where
  abbrev pub has : Ptr → Cells A → Bool
  has a [] = false
  has a ((p, _) ∷ xs) = (a == p) || has a xs

  -- The first structure with property `t`, if there is one.
  abbrev pub find : (A → Bool) → Cells A → Option (Ptr × A)
  find t [] = none
  find t ((p, c) ∷ xs) = if t c then some (p, c) else find t xs

  -- The list without that structure.
  abbrev pub without : (A → Bool) → Cells A → Cells A
  without t [] = []
  without t ((p, c) ∷ xs) = if t c then xs else (p, c) ∷ without t xs

  abbrev pub pointer : Option (Ptr × A) → Ptr
  pointer none = null
  pointer (some (p, _)) = p

-- Following `next` from `p` leads through the distinct structures `xs` to `NULL`. The list holds
-- what `forget` leaves of each structure: all but its link.
pub data Chain {A : Type 0} (next : A → Ptr) (forget : A → A) (store : Ptr → Option A)
    : Ptr → Cells A → Type 0 where
  nil : {p : Ptr} → p ≡ null → Chain next forget store p []
  cons :
      {p : Ptr} {b : A} {xs : Cells A} (c : A)
      → p ≢ null
      → store p ≡ some c
      → forget c ≡ b
      → has p xs ≡ false
      → Chain next forget store (next c) xs
      → Chain next forget store p ((p, b) ∷ xs)

abbrev pub process_body : Process → Process
process_body c = record c { next = null }

abbrev pub file_body : File → File
file_body c = record c { next = null }

abbrev pub ProcessChain : (Ptr → Option Process) → Ptr → Cells Process → Type 0
ProcessChain = Chain (λ c. c.next) process_body

abbrev pub FileChain : (Ptr → Option File) → Ptr → Cells File → Type 0
FileChain = Chain (λ c. c.next) file_body

pub load_process-ok :
    (k : Kernel) {p : Ptr} {c : Process} → p ≢ null → k.procs p ≡ some c → load_process p k ≡ ok c k
unfolding load_process
load_process-ok k ne e = ground arith

pub load_file-ok :
    (k : Kernel) {p : Ptr} {c : File} → p ≢ null → k.files p ≡ some c → load_file p k ≡ ok c k
unfolding load_file
load_file-ok k ne e = ground arith

pub has-without :
    {A : Type 0} (t : A → Bool) (a : Ptr) (xs : Cells A)
    → has a xs ≡ false
    → has a (without t xs) ≡ false
has-without t a [] h = refl
has-without t a ((p, c) ∷ xs) h = ground (arith, has-without t a xs)

module _ {A : Type 0} {next : A → Ptr} {forget : A → A} {store : Ptr → Option A} where
  -- A chain survives any change that spares its own structures.
  pub frame :
      {store' : Ptr → Option A} {p : Ptr} {xs : Cells A}
      → Chain next forget store p xs
      → ((a : Ptr) → has a xs ≡ true → store' a ≡ store a)
      → Chain next forget store' p xs
  frame (nil e) same = nil e
  frame (cons {p} c ne e b out s) same =
      cons c ne (ground (arith, same p)) b out (frame s λ a i. same a (ground arith))

  pub frame-write :
      {p : Ptr} {xs : Cells A} (a : Ptr) (c : Option A)
      → Chain next forget store p xs
      → has a xs ≡ false
      → Chain next forget (write store a c) p xs
  unfolding write
  frame-write a c s out = frame s (λ q i. ground arith)
