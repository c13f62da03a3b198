-- ===== src/VirtMem/Share.antt =====
-- The loop of `MapProcess` that gives a process the frames of pages of the kernel.
use vv4os.Base.{
  ℕ, zero, suc, ◌+◌, ◌-◌, ◌*◌, ◌/◌, ◌≤◌, ◌<◌, ◌≡◌, refl, ◌∙◌, inl, inr, true, false, arith, ap,
  ◌==◌, if◌then◌else◌, Bool-cases, ==_iff, u32,
}
use vv4os.Bitmap.Laws.{in_range}
use vv4os.Process.Ops.{user_process_base}
use vv4os.VirtMem.Entry.{Pte, IsPte, virtual_addr, decode_pte}
use vv4os.VirtMem.State.{Space, Outcome, done, page, kernel_pte}
use vv4os.VirtMem.Ops.{all_pages, get_pte, set_pte}
use vv4os.VirtMem.Spaces.{share_loop}
use vv4os.VirtMem.Pages.{page-multiple}
use vv4os.VirtMem.Walk.{IsKernel, IsProcess, IsUser, walk}
use vv4os.VirtMem.Heap.{get_pte-kernel}
use vv4os.VirtMem.Store.{IsStored}
use vv4os.VirtMem.SetPte.{set_pte-IsStored}
use vv4os.VirtMem.Supply.{HasFrames, HasFrames-HasFrame, taken-HasFrames}

-- An entry of the kernel as the process gets it.
abbrev pub shared_pte : Pte → Pte
shared_pte pte = record pte { writable = true; user = true }

-- The first page of a process.
abbrev pub base_page : ℕ
base_page = 256

kernel_pte-IsPte : (s : Space) (p : ℕ) → IsPte (shared_pte (kernel_pte s p))
unfolding kernel_pte decode_pte
kernel_pte-IsPte s p = record {
  zero_small = omega arith;
  ignored_small = omega arith;
  available_small = omega arith;
  frame_small = omega arith;
}

IsUser-page : (v : ℕ) → v / 4096 < 0xC0000 → IsUser v
unfolding virtual_addr
IsUser-page v h = omega (arith, h)

-- `t` is `s` with the `n` pages of the process from page `base_page + i` on shared with the kernel's
-- pages from `kp + i` on.
pub record IsShared (s : Space) (dir kp i n : ℕ) (t : Space) : Type 0 where
  pub kernel : IsKernel t
  pub process : IsProcess t dir
  pub entries :
      (u : ℕ)
      → IsUser u
      → walk t dir u ≡ (
          if in_range (base_page + i) n (page u)
          then shared_pte (kernel_pte s (kp + (page u - base_page)))
          else walk s dir u)
  pub kernel_same : (p : ℕ) → p < all_pages → kernel_pte t p ≡ kernel_pte s p
  pub same_dead : t.frames.dead_zone ≡ s.frames.dead_zone
  pub reserved : (a : ℕ) → a < s.frames.dead_zone * 1024 → t.ram a ≡ s.ram a
  pub same_directory : t.directory_base ≡ s.directory_base

share_step :
    {s1 : Space} (s : Space) (n i k_base dir : ℕ) (pte : Pte)
    → get_pte (u32 (k_base + i * 4096)) s.kernel_page_directory s ≡ done pte s
    → set_pte (u32 (user_process_base + i * 4096)) dir (shared_pte pte) s ≡ done tt s1
    → share_loop (suc n) i k_base dir s ≡ share_loop n (i + 1) k_base dir s1
unfolding share_loop
share_step s n i k_base dir pte a b = rw (a, b) refl

-- A page shared before the others.
IsShared-before :
    {s s1 t : Space} (dir kp i n v : ℕ)
    → page v ≡ base_page + i
    → kp + i < all_pages
    → kp + i + suc n ≤ all_pages
    → IsStored s dir v (shared_pte (kernel_pte s (kp + i))) s1
    → IsShared s1 dir kp (i + 1) n t
    → IsShared s dir kp i (suc n) t
IsShared-before {s} {s1} dir kp i n v at_v inside room st sh = record {
  kernel = sh.kernel;
  process = sh.process;
  entries = λ u hu. sh.entries u hu ∙ elim (Bool-cases (page u == base_page + i)) [
    | inl here ↦
        let e : page u ≡ base_page + i = (==_iff (page u) (base_page + i)).0 here in
        let out : in_range (base_page + (i + 1)) n (page u) ≡ false = ground arith in
        let within : in_range (base_page + i) (suc n) (page u) ≡ true = ground arith in
        let same : (page u == page v) ≡ true = ground arith in
        let index : kp + (page u - base_page) ≡ kp + i = omega (arith, e) in
        rw (out, within, index) (st.entries u hu ∙ rw same refl)
    | inr off ↦
        let same : (page u == page v) ≡ false = ground arith in
        let range : in_range (base_page + (i + 1)) n (page u)
            ≡ in_range (base_page + i) (suc n) (page u) =
          ground arith in
        rw range (elim (Bool-cases (in_range (base_page + i) (suc n) (page u))) [
          | inl within ↦
              rw within (
                ap shared_pte (st.kernel_same (kp + (page u - base_page)) (ground (arith, within))))
          | inr out ↦ rw out (st.entries u hu ∙ rw same refl)
        ])
  ];
  kernel_same = λ p h. sh.kernel_same p h ∙ st.kernel_same p h;
  same_dead = sh.same_dead ∙ st.same_dead;
  reserved = λ a h. sh.reserved a (rw st.same_dead h) ∙ st.reserved a h;
  same_directory = sh.same_directory ∙ st.same_directory;
}

abbrev pub Shares : Space → (dir kp i n : ℕ) → Outcome (Unit {0}) → Type 0
Shares s dir kp i n o = (t : Space) × (o ≡ done tt t) × IsShared s dir kp i n t

-- The loop, for as many pages as there are free frames at least, ends without a fault, and gives the
-- process these pages of the kernel, writable and for the user, at consecutive addresses from its
-- base on. It sees every other page as before, and the pages of the kernel stay as they were.
pub share_loop-IsShared :
    (dir kp : ℕ) (n i : ℕ) (s : Space)
    → IsKernel s
    → IsProcess s dir
    → HasFrames s.frames n
    → kp + i + n ≤ all_pages
    → base_page + i + n ≤ 0xC0000
    → Shares s dir kp i n (share_loop n i (kp * 4096) dir s)
unfolding share_loop
share_loop-IsShared dir kp zero i s k p supply room room' = (
  s,
  refl,
  record {
    kernel = k;
    process = p;
    entries =
        λ u hu. let out : in_range (base_page + i) 0 (page u) ≡ false = ground arith in rw out refl;
    kernel_same = λ p h. refl;
    same_dead = refl;
    reserved = λ a h. refl;
    same_directory = refl;
  },
)
share_loop-IsShared dir kp (suc n) i s k p supply room room' =
    let from : u32 (kp * 4096 + i * 4096) ≡ (kp + i) * 4096 = omega (arith, room) in
    let v = u32 (user_process_base + i * 4096) in
    let exact : v ≡ (base_page + i) * 4096 = omega (arith, room') in
    let at_v : page v ≡ base_page + i =
      ap page exact ∙ page-multiple (base_page + i) (omega (arith, room')) in
    let user : IsUser v = IsUser-page v (omega (arith, exact, room')) in
    let pte = kernel_pte s (kp + i) in
    let reads : get_pte (u32 (kp * 4096 + i * 4096)) s.kernel_page_directory s ≡ done pte s =
      get_pte-kernel s s.kernel_page_directory (u32 (kp * 4096 + i * 4096)) refl
      ∙ ap (λ q. done (kernel_pte s q) s)
          (ap page from ∙ page-multiple (kp + i) (omega (arith, room))) in
    let (s1, stores, st) =
      set_pte-IsStored s dir v k p user (HasFrames-HasFrame supply) (shared_pte pte)
        (kernel_pte-IsPte s (kp + i)) in
    let (t, runs, sh) =
      share_loop-IsShared dir kp n (i + 1) s1 st.kernel st.process (taken-HasFrames supply st.one)
        (omega (arith, room)) (omega (arith, room')) in
    (
      t,
      share_step s n i (kp * 4096) dir pte reads stores ∙ runs,
      IsShared-before dir kp i n v at_v (omega (arith, room)) (omega (arith, room)) st sh,
    )
