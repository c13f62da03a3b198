-- ===== src/VirtMem/PageFault.antt =====
-- `X86PageFaultHandler`: the process that caused a page fault is removed, and the kernel tells what
-- it did. The message itself goes to the screen.
use vv4os.Base.{ℕ, ◌==◌, ◌||◌, if◌then◌else◌}
use vv4os.Process.State.{Cmd, ◌>>=◌, ◌>>◌, pure, modify}
use vv4os.Process.Ops.{stop_scheduler, start_scheduler, user_process_current, remove_process}

pub data FaultAction : Type 0 where
  read_non_present read_protected write_non_present write_protected something_bad : FaultAction

unfoldable pub fault_action : ℕ → FaultAction
fault_action code =
    if (code == 0) || (code == 4)
    then read_non_present
    else if (code == 1) || (code == 5)
    then read_protected
    else if (code == 2) || (code == 6)
    then write_non_present
    else if (code == 3) || (code == 7)
    then write_protected
    else something_bad

-- It returns the pid and the action of the message.
unfoldable pub page_fault_handler : (fuel error_code : ℕ) → Cmd (ℕ × FaultAction)
page_fault_handler fuel error_code = do
  modify stop_scheduler
  pid ← user_process_current
  remove_process fuel pid
  modify start_scheduler
  pure (pid, fault_action error_code)
