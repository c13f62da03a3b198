-- ===== src/Process/State.antt =====
-- The structures of user/process.h and arch/x86/dt/idt_x86.h, and the state of user/process.c.
use vv4os.Base.{ℕ, Bool, Option, none, some, List, ◌==◌, if◌then◌else◌}
use vv4os.File.{File}

abbrev pub Ptr : Type 0
Ptr = ℕ

abbrev pub null : Ptr
null = 0

pub record Process : Type 0 where
  pub address_space : Ptr
  pub last_state : Ptr
  pub kernel_stack : Ptr
  pub local_files : Ptr
  pub next : Ptr
  pub pid : ℕ

pub record CpuState : Type 0 where
  pub ds : ℕ
  pub edi : ℕ
  pub esi : ℕ
  pub ebp : ℕ
  pub esp : ℕ
  pub ebx : ℕ
  pub edx : ℕ
  pub ecx : ℕ
  pub eax : ℕ
  pub interrupt : ℕ
  pub error_code : ℕ
  pub eip : ℕ
  pub cs : ℕ
  pub eflags : ℕ
  pub user_esp : ℕ
  pub ss : ℕ

-- The static variables, the stores, the mask register of the interrupt controller at port 0x21, and
-- the pointers that were passed to `free` and the address spaces that were deleted, newest first.
pub record Kernel : Type 0 where
  pub procs : Ptr → Option Process
  pub files : Ptr → Option File
  pub states : Ptr → Option CpuState
  pub last_pid : ℕ
  pub head : Ptr
  pub current : Ptr
  pub next_up : Ptr
  pub scheduling : Bool
  pub pic_mask : ℕ
  pub released : List Ptr
  pub deleted_spaces : List Ptr

pub data Run (A : Type 0) : Type 0 where
  ok : A → Kernel → Run A
  fault : Run A
  out_of_fuel : Run A

abbrev pub Cmd : Type 0 → Type 0
Cmd A = Kernel → Run A

module _ {A B : Type 0} where
  abbrev pub and_then : Run A → (A → Cmd B) → Run B
  and_then (ok a k) f = f a k
  and_then fault f = fault
  and_then out_of_fuel f = out_of_fuel

  infixl 5 ◌>>=◌ ◌>>◌
  abbrev pub ◌>>=◌ : Cmd A → (A → Cmd B) → Cmd B
  m >>= f = λ k. and_then (m k) f

  abbrev pub ◌>>◌ : Cmd A → Cmd B → Cmd B
  m >> n = m >>= λ _. n

abbrev pub pure : {A : Type 0} → A → Cmd A
pure = ok

abbrev pub get : Cmd Kernel
get k = ok k k

abbrev pub modify : (Kernel → Kernel) → Cmd (Unit {0})
modify f k = ok tt (f k)

abbrev pub crash : {A : Type 0} → Cmd A
crash _ = fault

-- A store after a write.
unfoldable pub write : {A : Type 0} → (Ptr → Option A) → Ptr → Option A → Ptr → Option A
write store p c q = if q == p then c else store q

abbrev pub deref : {A : Type 0} → Option A → Cmd A
deref none = crash
deref (some a) = pure a

unfoldable pub load_process : Ptr → Cmd Process
load_process p k = if p == null then fault else deref (k.procs p) k

unfoldable pub load_file : Ptr → Cmd File
load_file p k = if p == null then fault else deref (k.files p) k

abbrev pub store_process : Ptr → Process → Cmd (Unit {0})
store_process p c = modify λ k. record k { procs = write k.procs p (some c) }

abbrev pub store_file : Ptr → File → Cmd (Unit {0})
store_file p c = modify λ k. record k { files = write k.files p (some c) }
