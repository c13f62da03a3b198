-- ===== src/Process/Unlink.antt =====
-- The loop of `_RemoveProcess`: it takes the first process with the pid out of the list.
use vv4os.Base.{
  ℕ, zero, suc, ◌<◌, ◌≡◌, refl, ◌≢◌, inl, inr, true, false, Option, none, some, ◌∷◌, arith, ◌==◌,
  if◌then◌else◌, length, Bool-cases, ◌∙◌, ap, subst,
}
use vv4os.Process.State.{Ptr, null, Process, Kernel, ok, fault, load_process, write}
use vv4os.Process.Ops.{head_link, next_link, unlink_loop}
use vv4os.Process.Chain.{
  Cells, ProcessChain, process_body, nil, cons, has, find, without, load_process-ok, has-without,
  frame-write,
}
use vv4os.Process.Lookup.{has_pid}

-- What unlinking behind the process at `q` leaves.
record IsUnlinked (procs : Ptr → Option Process) (q : Ptr) (body : Process) (pid p : ℕ)
    (xs : Cells Process) (procs' : Ptr → Option Process) : Type 0 where
  front : Process
  at_front : procs' q ≡ some front
  same_body : process_body front ≡ body
  chain : ProcessChain procs' front.next (without (has_pid pid) xs)
  same : (a : Ptr) → a ≢ q → has a xs ≡ false → procs' a ≡ procs a
  kept : procs' p ≡ procs p

unlink_step :
    (fuel pid : ℕ) (k : Kernel) {q p : Ptr} {d c : Process}
    → q ≢ null
    → k.procs q ≡ some d
    → d.next ≡ p
    → p ≢ null
    → k.procs p ≡ some c
    → unlink_loop pid (suc fuel) (next_link q) k ≡ (
        if c.pid == pid
        then ok p (record k { procs = write k.procs q (some (record d { next = c.next })) })
        else unlink_loop pid fuel (next_link p) k)
unfolding unlink_loop
unlink_step fuel pid k {q} {p} {d} {c} neq eq link nep ep =
    ground (arith, load_process-ok k neq eq, load_process-ok k nep ep)

IsUnlinked-here :
    {procs : Ptr → Option Process} {q p : Ptr} (d c : Process) {b : Process} {pid : ℕ}
    {xs : Cells Process}
    → has q ((p, b) ∷ xs) ≡ false
    → procs p ≡ some c
    → process_body c ≡ b
    → c.pid ≡ pid
    → ProcessChain procs c.next xs
    → IsUnlinked procs q
        (process_body d)
        pid
        p
        ((p, b) ∷ xs)
        (write procs q (some (record d { next = c.next })))
unfolding write
IsUnlinked-here {q} d c {b = b'} {pid} out e b hit s = record {
  front = record d { next = c.next };
  at_front = ground arith;
  same_body = refl;
  chain =
      let first : (b'.pid == pid) ≡ true = ground arith in
      rw first (frame-write q (some (record d { next = c.next })) s (ground arith));
  same = λ a ne i. ground arith;
  kept = ground arith;
}

IsUnlinked-further :
    {procs procs' : Ptr → Option Process} {q p r : Ptr} (d c : Process) {b : Process} {pid : ℕ}
    {xs : Cells Process}
    → has q ((p, b) ∷ xs) ≡ false
    → p ≢ null
    → procs q ≡ some d
    → d.next ≡ p
    → process_body c ≡ b
    → has p xs ≡ false
    → (c.pid == pid) ≡ false
    → IsUnlinked procs p (process_body c) pid r xs procs'
    → IsUnlinked procs q (process_body d) pid r ((p, b) ∷ xs) procs'
IsUnlinked-further {procs} {q} {p} d c {b = b'} {pid} {xs} out ne e link b away miss u = record {
  front = d;
  at_front = u.same q (ground arith) (ground arith) ∙ e;
  same_body = refl;
  chain =
      let later : (b'.pid == pid) ≡ false = ground arith in
      rw (later, link)
        (cons u.front ne u.at_front (u.same_body ∙ b) (has-without (has_pid pid) p xs away)
          u.chain);
  same = λ a na i. u.same a (ground arith) (ground arith);
  kept = u.kept;
}

unlink_loop-IsUnlinked :
    (fuel pid : ℕ) (k : Kernel) {q : Ptr} {d : Process} {p₀ : Ptr} {xs : Cells Process} {p : Ptr}
    {b : Process}
    → q ≢ null
    → k.procs q ≡ some d
    → has q xs ≡ false
    → d.next ≡ p₀
    → ProcessChain k.procs p₀ xs
    → length xs < fuel
    → find (has_pid pid) xs ≡ some (p, b)
    → (procs' : Ptr → Option Process) × (unlink_loop pid fuel (next_link q) k
        ≡ ok p (record k { procs = procs' }))
      × IsUnlinked k.procs q (process_body d) pid p xs procs'
unlink_loop-IsUnlinked zero pid k ne e out link s enough found = absurd (omega arith)
unlink_loop-IsUnlinked (suc fuel) pid k ne e out link (nil _) enough found = absurd (cc)
unlink_loop-IsUnlinked (suc fuel) pid k {q} {d} {p} {b} ne e out link
      (cons {p = p₁} {b = b₁} {xs} c ne₁ e₁ body away s) enough found =
    elim (Bool-cases (c.pid == pid)) [
      | inl hit ↦
          let same : p ≡ p₁ = ground arith in
          (
            write k.procs q (some (record d { next = c.next })),
            rw same (unlink_step fuel pid k ne e link ne₁ e₁ ∙ rw hit refl),
            rw same (IsUnlinked-here d c out e₁ body (ground arith) s),
          )
      | inr miss ↦
          let rest : find (has_pid pid) xs ≡ some (p, b) = ground arith in
          let (procs', done, u) =
            unlink_loop-IsUnlinked fuel pid k ne₁ e₁ away refl s (omega arith) rest in
          (
            procs',
            unlink_step fuel pid k ne e link ne₁ e₁ ∙ rw miss done,
            IsUnlinked-further d c out ne₁ e link body away miss u,
          )
    ]

unlink_first :
    (fuel pid : ℕ) (k : Kernel) {c : Process}
    → k.head ≢ null
    → k.procs k.head ≡ some c
    → unlink_loop pid (suc fuel) head_link k ≡ (
        if c.pid == pid
        then ok k.head (record k { head = c.next })
        else unlink_loop pid fuel (next_link k.head) k)
unfolding unlink_loop
unlink_first fuel pid k ne e = ground (arith, load_process-ok k ne e)

-- The list after the loop, from the new head.
pub record IsUnlinkedList (k : Kernel) (pid p : ℕ) (xs : Cells Process) (head' : Ptr)
    (procs' : Ptr → Option Process) : Type 0 where
  pub chain : ProcessChain procs' head' (without (has_pid pid) xs)
  pub kept : procs' p ≡ k.procs p

unlink-IsUnlinkedList_from :
    (fuel pid : ℕ) (k : Kernel) {p₀ : Ptr} {xs : Cells Process} {p : Ptr} {b : Process}
    → k.head ≡ p₀
    → ProcessChain k.procs p₀ xs
    → length xs < fuel
    → find (has_pid pid) xs ≡ some (p, b)
    → (head' : Ptr) × (procs' : Ptr → Option Process) × (unlink_loop pid fuel head_link k
        ≡ ok p (record k { head = head'; procs = procs' }))
      × IsUnlinkedList k pid p xs head' procs'
unlink-IsUnlinkedList_from zero pid k at_head s enough found = absurd (omega arith)
unlink-IsUnlinkedList_from (suc fuel) pid k at_head (nil _) enough found = absurd (cc)
unlink-IsUnlinkedList_from (suc fuel) pid k {p} {b} at_head
      (cons {p = p₁} {b = b₁} {xs} c ne e body away s) enough found =
    let ne' : k.head ≢ null = rw at_head ne in
    let e' : k.procs k.head ≡ some c = rw at_head e in
    elim (Bool-cases (c.pid == pid)) [
      | inl hit ↦
          let same : p ≡ k.head = ground arith in
          let first : (b₁.pid == pid) ≡ true = ground arith in
          (
            c.next,
            k.procs,
            unlink_first fuel pid k ne' e' ∙ rw (hit, same) refl,
            record { chain = rw first s; kept = refl },
          )
      | inr miss ↦
          let rest : find (has_pid pid) xs ≡ some (p, b) = ground arith in
          let later : (b₁.pid == pid) ≡ false = ground arith in
          let away' : has k.head xs ≡ false = rw at_head away in
          let (procs', done, u) =
            unlink_loop-IsUnlinked fuel pid k ne' e' away' refl s (omega arith) rest in
          (
            p₁,
            procs',
            unlink_first fuel pid k ne' e'
                ∙ rw miss (done ∙ ap (λ h. ok p (record k { head = h; procs = procs' })) at_head),
            record {
              chain = rw later (
                  cons u.front ne (subst (λ a. procs' a ≡ some u.front) at_head u.at_front)
                    (u.same_body ∙ body) (has-without (has_pid pid) p₁ xs away) u.chain);
              kept = u.kept;
            },
          )
    ]

-- With more fuel than there are processes, and a process with the pid in the list, the loop returns
-- the first such process, whose structure it leaves alone, and the list is then without it.
pub unlink-IsUnlinkedList :
    (fuel pid : ℕ) (k : Kernel) {xs : Cells Process} {p : Ptr} {b : Process}
    → ProcessChain k.procs k.head xs
    → length xs < fuel
    → find (has_pid pid) xs ≡ some (p, b)
    → (head' : Ptr) × (procs' : Ptr → Option Process) × (unlink_loop pid fuel head_link k
        ≡ ok p (record k { head = head'; procs = procs' }))
      × IsUnlinkedList k pid p xs head' procs'
unlink-IsUnlinkedList fuel pid k s enough found =
    unlink-IsUnlinkedList_from fuel pid k refl s enough found

unlink_missing_from :
    (fuel pid : ℕ) (k : Kernel) {q : Ptr} {d : Process} {p : Ptr} {xs : Cells Process}
    → q ≢ null
    → k.procs q ≡ some d
    → d.next ≡ p
    → ProcessChain k.procs p xs
    → length xs < fuel
    → find (has_pid pid) xs ≡ none
    → unlink_loop pid fuel (next_link q) k ≡ fault
unfolding unlink_loop load_process
unlink_missing_from zero pid k ne e link s enough absent = absurd (omega arith)
unlink_missing_from (suc fuel) pid k ne e link (nil end) enough absent = ground arith
unlink_missing_from (suc fuel) pid k ne e link (cons c ne₁ e₁ body away s) enough absent =
    unlink_step fuel pid k ne e link ne₁ e₁
    ∙ ground (arith, unlink_missing_from fuel pid k ne₁ e₁ refl s)

unlink_missing_head :
    (fuel pid : ℕ) (k : Kernel) {p : Ptr} {xs : Cells Process}
    → k.head ≡ p
    → ProcessChain k.procs p xs
    → length xs < fuel
    → find (has_pid pid) xs ≡ none
    → unlink_loop pid fuel head_link k ≡ fault
unfolding unlink_loop load_process
unlink_missing_head zero pid k at_head s enough absent = absurd (omega arith)
unlink_missing_head (suc fuel) pid k at_head (nil end) enough absent = ground arith
unlink_missing_head (suc fuel) pid k at_head (cons {p = p₁} c ne e body away s) enough absent =
    let ne' : k.head ≢ null = rw at_head ne in
    let e' : k.procs k.head ≡ some c = rw at_head e in
    unlink_first fuel pid k ne' e' ∙ ground (arith, unlink_missing_from fuel pid k ne' e' refl s)

-- If no process of the list has the pid, the loop reads through the `NULL` at its end.
pub unlink_missing :
    (fuel pid : ℕ) (k : Kernel) {xs : Cells Process}
    → ProcessChain k.procs k.head xs
    → length xs < fuel
    → find (has_pid pid) xs ≡ none
    → unlink_loop pid fuel head_link k ≡ fault
unlink_missing fuel pid k s enough absent = unlink_missing_head fuel pid k refl s enough absent
