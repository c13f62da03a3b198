-- ===== src/Process/Schedule.antt =====
-- The scheduler goes round the list of processes.
use vv4os.Base.{
  ℕ, zero, suc, ◌%◌, ◌≤◌, ◌<◌, ◌≡◌, refl, ◌≢◌, inl, inr, Option, none, some, [], ◌∷◌, arith, ltb,
  ◌==◌, if◌then◌else◌, length, get_elem?, Bool-cases, ◌∙◌, sym, ap, subst,
}
use native.Mathlib.Nat.{mod-eq_of_lt, mod_self}
use vv4os.Process.State.{Ptr, null, Process, CpuState, Kernel, ok}
use vv4os.Process.Ops.{start_scheduler, stop_scheduler, unmask_timer}
use vv4os.Process.Tick.{resume, halt, load_state, restore_process, pick, tick_loop, scheduler_tick}
use vv4os.Process.Chain.{Cells, ProcessChain, process_body, nil, cons, pointer, load_process-ok}

-- What stands in the store for the `i`-th process of the list, whose link leads to the next one.
record IsNth (procs : Ptr → Option Process) (xs : Cells Process) (i : ℕ) (p : Ptr) (b : Process)
    : Type 0 where
  struct : Process
  live : p ≢ null
  at_p : procs p ≡ some struct
  body : process_body struct ≡ b
  link : struct.next ≡ pointer (get_elem? xs (suc i))

Chain-first :
    {procs : Ptr → Option Process} {p : Ptr} {xs : Cells Process}
    → ProcessChain procs p xs
    → p ≡ pointer (get_elem? xs 0)
Chain-first (nil e) = e
Chain-first (cons c ne e b out s) = refl

Chain-IsNth :
    {procs : Ptr → Option Process} {h : Ptr} {xs : Cells Process} (i : ℕ) {p : Ptr} {b : Process}
    → ProcessChain procs h xs
    → get_elem? xs i ≡ some (p, b)
    → IsNth procs xs i p b
Chain-IsNth i (nil _) e = absurd (cc)
Chain-IsNth {procs} zero {p} {b} (cons {p = q} {xs} c ne e body out s) at_i = record {
  struct = c;
  live = ground arith;
  at_p = ground arith;
  body = ground arith;
  link = Chain-first s;
}
Chain-IsNth (suc i) (cons c ne e body out s) at_i =
    let n = Chain-IsNth i s at_i in
    record { struct = n.struct; live = n.live; at_p = n.at_p; body = n.body; link = n.link }

-- Each process has its saved registers.
abbrev pub HasState : Kernel → Process → CpuState → Type 0
HasState k b s = (b.last_state ≢ null) × (k.states b.last_state ≡ some s)

-- The state in which the scheduler leaves for a process.
abbrev pub switched : Kernel → Ptr → Kernel
switched k p = start_scheduler (record (stop_scheduler k) { current = p })

restore_process-ok :
    (k : Kernel) (p : Ptr) (c : Process) (s : CpuState)
    → p ≢ null
    → k.procs p ≡ some c
    → HasState k c s
    → restore_process p k ≡ ok (resume p c.kernel_stack c.address_space s) k
unfolding restore_process load_state
restore_process-ok k p c s ne e (ne', e') = rw (load_process-ok k ne e) (ground arith)

pick-nth :
    (k : Kernel) {xs : Cells Process} (i : ℕ) {p : Ptr} {b : Process}
    → ProcessChain k.procs k.head xs
    → get_elem? xs i ≡ some (p, b)
    → k.current ≡ p
    → pick k
      ≡ ok
          (if pointer (get_elem? xs (suc i)) == null
            then k.head
            else pointer (get_elem? xs (suc i)))
          k
unfolding pick
pick-nth k i s at_i cur =
    let n = Chain-IsNth i s at_i in
    let live : k.current ≢ null = rw cur n.live in
    let at_cur : k.procs k.current ≡ some n.struct = rw cur n.at_p in
    ground (arith, load_process-ok k live at_cur, n.link)

-- One round of the loop, where `pick` gives a process of the list.
tick_loop-pick :
    (fuel : ℕ) (k : Kernel) {xs : Cells Process} (j : ℕ) {q : Ptr} {c : Process} (s : CpuState)
    → ProcessChain k.procs k.head xs
    → get_elem? xs j ≡ some (q, c)
    → k.head ≢ null
    → pick k ≡ ok q k
    → HasState k c s
    → tick_loop (suc fuel) k
      ≡ ok (resume q c.kernel_stack c.address_space s) (start_scheduler (record k { current = q }))
unfolding tick_loop start_scheduler unmask_timer
tick_loop-pick fuel k j {q} {c} s chain at_j more picks has =
    let n = Chain-IsNth j chain at_j in
    let k' : Kernel = start_scheduler (record k { current = q }) in
    let kept : HasState k' n.struct s =
      subst (λ a. (a ≢ null) × (k.states a ≡ some s)) (sym (ap (λ t. t.last_state) n.body)) has in
    ground (arith, picks, restore_process-ok k' q n.struct s n.live n.at_p kept, n.body)

get_elem?-lt :
    (xs : Cells Process) (i : ℕ) {x : Ptr × Process} → get_elem? xs i ≡ some x → i < length xs
get_elem?-lt [] i e = absurd (cc)
get_elem?-lt (x ∷ xs) zero e = omega arith
get_elem?-lt (x ∷ xs) (suc i) e = omega (arith, get_elem?-lt xs i e)

beyond-none : (xs : Cells Process) (i : ℕ) → length xs ≤ i → get_elem? xs i ≡ none
beyond-none [] i h = refl
beyond-none (x ∷ xs) zero h = absurd (omega arith)
beyond-none (x ∷ xs) (suc i) h = beyond-none xs i (omega arith)

-- The link of the `i`-th process, or the head at the end, leads to the process `(i + 1) % n`.
next-nth :
    (k : Kernel) {xs : Cells Process} (i j : ℕ) {p q : Ptr} {b c : Process}
    → ProcessChain k.procs k.head xs
    → get_elem? xs i ≡ some (p, b)
    → j ≡ suc i % length xs
    → get_elem? xs j ≡ some (q, c)
    → (if pointer (get_elem? xs (suc i)) == null then k.head else pointer (get_elem? xs (suc i)))
      ≡ q
next-nth k {xs} i j {q} {c} chain at_i is_j at_j = elim (Bool-cases (ltb (suc i) (length xs))) [
  | inl inside ↦
      let same : j ≡ suc i = is_j ∙ mod-eq_of_lt (ground arith) in
      let e : get_elem? xs (suc i) ≡ some (q, c) = rw (← same) at_j in
      ground (arith, e, (Chain-IsNth (suc i) chain e).live)
  | inr last ↦
      let full : suc i ≡ length xs = ground (arith, get_elem?-lt xs i at_i) in
      let wraps : j ≡ 0 = is_j ∙ rw full (mod_self (length xs)) in
      let e : get_elem? xs 0 ≡ some (q, c) = rw wraps at at_j in
      ground (arith, beyond-none xs (suc i), Chain-first chain, e)
]

head-live :
    {procs : Ptr → Option Process} {h : Ptr} {xs : Cells Process} (i : ℕ)
    → ProcessChain procs h xs
    → i < length xs
    → h ≢ null
head-live i (nil e) h = absurd (omega arith)
head-live i (cons c ne e b out s) h = ne

scheduler_tick-loop :
    (fuel : ℕ) (k : Kernel)
    → k.next_up ≡ null
    → scheduler_tick fuel k ≡ tick_loop fuel (stop_scheduler k)
unfolding scheduler_tick stop_scheduler
scheduler_tick-loop fuel k nothing = ground arith

-- A tick with the list `xs` of processes, of which the `i`-th runs, resumes the one after it, and
-- the first after the last, with its own stack, address space and registers.
pub scheduler_tick-next :
    (fuel : ℕ) (k : Kernel) {xs : Cells Process} (i j : ℕ) {p q : Ptr} {b c : Process}
    (s : CpuState)
    → ProcessChain k.procs k.head xs
    → get_elem? xs i ≡ some (p, b)
    → k.current ≡ p
    → k.next_up ≡ null
    → j ≡ suc i % length xs
    → get_elem? xs j ≡ some (q, c)
    → HasState k c s
    → scheduler_tick (suc fuel) k ≡ ok (resume q c.kernel_stack c.address_space s) (switched k q)
unfolding stop_scheduler
scheduler_tick-next fuel k {xs} i j {q} s chain at_i cur nothing is_j at_j has =
    let k' : Kernel = stop_scheduler k in
    let picks : pick k' ≡ ok q k' =
      pick-nth k' i chain at_i cur ∙ ap (λ r. ok r k') (next-nth k' i j chain at_i is_j at_j) in
    let more = head-live i chain (get_elem?-lt xs i at_i) in
    scheduler_tick-loop (suc fuel) k nothing ∙ tick_loop-pick fuel k' j s chain at_j more picks has

-- When no process has run yet, the tick resumes the first one of the list.
pub scheduler_tick-first :
    (fuel : ℕ) (k : Kernel) {xs : Cells Process} {q : Ptr} {c : Process} (s : CpuState)
    → ProcessChain k.procs k.head ((q, c) ∷ xs)
    → k.current ≡ null
    → k.next_up ≡ null
    → HasState k c s
    → scheduler_tick (suc fuel) k ≡ ok (resume q c.kernel_stack c.address_space s) (switched k q)
unfolding stop_scheduler pick
scheduler_tick-first fuel k {q} s chain cur nothing has =
    let k' : Kernel = stop_scheduler k in
    let at_q : k.head ≡ q = Chain-first chain in
    let picks : pick k' ≡ ok q k' = ground (arith, at_q, cur) in
    let more = head-live 0 chain (omega arith) in
    scheduler_tick-loop (suc fuel) k nothing ∙ tick_loop-pick fuel k' 0 s chain refl more picks has

-- The tick halts the kernel if the list is empty.
pub scheduler_tick-halt :
    (fuel : ℕ) (k : Kernel)
    → k.next_up ≡ null
    → k.head ≡ null
    → scheduler_tick (suc fuel) k ≡ ok halt (stop_scheduler k)
unfolding stop_scheduler tick_loop
scheduler_tick-halt fuel k nothing empty =
    scheduler_tick-loop (suc fuel) k nothing ∙ ground (arith, empty)
