-- ===== src/Sched.antt =====
-- The thread switch of kernel/src/sched/sched.c. A thread is named by its address; `none` is NULL. The
-- state that `xsave` stores and `xrstore` loads is one value. The message of an empty queue is left out.
pub mod Rounds
pub mod Turns
pub mod Threads
pub mod Tests
use nyaux.Base.{ℕ, zero, suc, Option, none, some, List, ◌==◌, if◌then◌else◌}

-- `struct StackFrame`: the code segment and all other registers.
pub record StackFrame : Type 0 where
  pub registers : List ℕ
  pub cs : ℕ

-- `struct thread_t` with its context and, of its process, the top-level page table.
pub record Thread : Type 0 where
  pub context : StackFrame
  pub fpu_state : ℕ
  pub next : Option ℕ
  pub fs : ℕ
  pub gs_base : ℕ
  pub pml4 : ℕ

-- The processor, with the interrupted frame, the FPU, the two segment registers and cr3, and the queue.
pub record Cpu : Type 0 where
  pub frame : StackFrame
  pub fpu : ℕ
  pub msr_gs : ℕ
  pub msr_fs : ℕ
  pub cr3 : ℕ
  pub threads : ℕ → Thread
  pub start_of_queue : Option ℕ
  pub current_thread : Option ℕ

abbrev pub put_thread : (ℕ → Thread) → ℕ → Thread → ℕ → Thread
put_thread threads t x a = if a == t then x else threads a

-- 0x40 | 3
abbrev pub user_code : ℕ
user_code = 67

-- What is saved of the running thread: the segment registers if its last saved context was in user
-- mode, then `save_context`.
unfoldable pub saved : Cpu → Thread → Thread
saved s t =
    if t.context.cs == user_code
    then record t { gs_base = s.msr_gs; fs = s.msr_fs; context = s.frame; fpu_state = s.fpu }
    else record t { context = s.frame; fpu_state = s.fpu }

unfoldable pub save_context : Cpu → ℕ → Cpu
save_context s c = record s { threads = put_thread s.threads c (saved s (s.threads c)) }

-- Thread `t` becomes the current one: `switch_context`, the segment registers, `update_cr3`.
unfoldable pub switch_context : Cpu → ℕ → Cpu
switch_context s t =
    let loaded : Cpu = record s {
      current_thread = some t;
      frame = (s.threads t).context;
      fpu = (s.threads t).fpu_state;
      cr3 = (s.threads t).pml4;
    } in
    if (s.threads t).context.cs == user_code
    then record loaded { msr_gs = (s.threads t).gs_base; msr_fs = (s.threads t).fs }
    else loaded

-- The switch from thread `c`, whose `next` is given, else to the start of the queue.
unfoldable pub switch_from : Cpu → (c : ℕ) → (next start : Option ℕ) → Cpu
switch_from s c (some n) start = switch_context (save_context s c) n
switch_from s c none (some n) = switch_context (save_context s c) n
switch_from s c none none = s

unfoldable pub switch_first : Cpu → Option ℕ → Cpu
switch_first s (some n) = switch_context s n
switch_first s none = s

unfoldable pub switch_current : Cpu → Option ℕ → Cpu
switch_current s (some c) = switch_from s c (s.threads c).next s.start_of_queue
switch_current s none = switch_first s s.start_of_queue

unfoldable pub switch_task : Cpu → Cpu
switch_task s = switch_current s s.current_thread
