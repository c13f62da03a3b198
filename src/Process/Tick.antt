-- ===== src/Process/Tick.antt =====
-- `SchedulerTick`, and the timer interrupt that leads to it.
use vv4os.Base.{ℕ, zero, suc, some, ◌==◌, if◌then◌else◌}
use vv4os.Process.State.{
  Ptr, null, CpuState, ok, fault, out_of_fuel, Cmd, ◌>>=◌, ◌>>◌, pure, get, modify, deref, write,
  load_process,
}
use vv4os.Process.Ops.{start_scheduler, stop_scheduler, get_process, user_process_current}

-- How the tick ends: in a process with its kernel stack, address space and registers, or in `exit`.
pub data Switch : Type 0 where
  resume : (process kernel_stack address_space : Ptr) → CpuState → Switch
  halt : Switch

unfoldable pub load_state : Ptr → Cmd CpuState
load_state p k = if p == null then fault else deref (k.states p) k

-- `X86RestoreProcess`, which does not return.
unfoldable pub restore_process : Ptr → Cmd Switch
restore_process p = do
  c ← load_process p
  s ← load_state c.last_state
  pure (resume p c.kernel_stack c.address_space s)

-- The process after `current`, or the head of the list.
unfoldable pub pick : Cmd Ptr
pick k =
    if k.current == null
    then ok k.head k
    else (do c ← load_process k.current; pure (if c.next == null then k.head else c.next)) k

unfoldable pub tick_loop : ℕ → Cmd Switch
unfolding pick
tick_loop zero = λ _. out_of_fuel
tick_loop (suc fuel) = do
  k ← get
  if k.head == null then pure halt else do
    p ← pick
    modify λ k. record k { current = p }
    if p == null then tick_loop fuel else do modify start_scheduler; restore_process p

unfoldable pub scheduler_tick : ℕ → Cmd Switch
scheduler_tick fuel = do
  modify stop_scheduler
  k ← get
  if k.next_up == null then tick_loop fuel else do
    modify λ k. record k { current = k.next_up; next_up = null }
    restore_process k.next_up

-- `memcpy(process->last_state, state, sizeof(*state))`
unfoldable pub save_state : Ptr → CpuState → Cmd (Unit {0})
save_state p s = do
  c ← load_process p
  _ ← load_state c.last_state
  modify λ k. record k { states = write k.states c.last_state (some s) }

-- `X86SchedulerTick`, which keeps the registers of the process that was interrupted. Its switch to the
-- address space of the kernel changes nothing of this state.
unfoldable pub timer_interrupt : ℕ → CpuState → Cmd Switch
timer_interrupt fuel s = do
  pid ← user_process_current
  p ← get_process fuel pid
  if p == null then pure tt else save_state p s
  scheduler_tick fuel
