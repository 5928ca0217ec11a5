-- ===== src/Sched/Threads.antt =====
-- The making of threads in kernel/src/sched/sched.c, and the queue that `sched_init` builds. What `kmalloc`
-- returns is an argument, and so is what stood in a new object where the code does not write it.
use nyaux.Base.{
  ℕ, ◌-◌, ◌≡◌, ◌≢◌, Option, none, some, List, set, ltb, ◌==◌, if◌then◌else◌, arith, refl, ap, sym,
  ne→==, ==_iff, Bool, true, false,
}
use nyaux.Keyboard.{KeyboardEvent, Keyboard}
use nyaux.Sched.{StackFrame, Thread, Cpu, put_thread}
use nyaux.Sched.Rounds.{IsQueue}

-- The fields of `struct fpu_state_t` that are set; the rest of the area is 0.
pub record FpuState : Type 0 where
  pub fcw : ℕ
  pub mxcsr : ℕ

-- `struct cpu_context_t`
pub record CpuContext : Type 0 where
  pub frame : StackFrame
  pub fpu_state : FpuState

-- The words of the frame that `new_context` sets, by their place in `struct StackFrame` without `cs`.
abbrev pub start_frame : List ℕ → (entry_func rsp cs ss : ℕ) → StackFrame
start_frame old entry_func rsp cs ss = record {
  registers = set (set (set (set (set old 17 entry_func) 19 rsp) 15 rsp) 18 0x202) 20 ss;
  cs = cs;
}

unfoldable pub new_context : List ℕ → (entry_func rsp : ℕ) → (user : Bool) → CpuContext
new_context old entry_func rsp false = record {
  frame = start_frame old entry_func rsp 0x28 0x30;
  fpu_state = record { fcw = 0x33F; mxcsr = 0x1F80 };
}
new_context old entry_func rsp true = record {
  frame = start_frame old entry_func rsp 0x43 0x3B;
  fpu_state = record { fcw = 0x1FE; mxcsr = 0xFC };
}

-- `create_thread`: the new object `old` with its context and without a successor.
abbrev pub create_thread : Thread → StackFrame → (fpu_state : ℕ) → Thread
create_thread old frame fpu_state = record old {
  context = frame;
  fpu_state = fpu_state;
  next = none;
}

-- `struct process_info`, without its descriptors.
pub record ProcessInfo : Type 0 where
  pub root_vfs : ℕ
  pub pagemap : ℕ
  pub cur_working_directory : ℕ
  pub name : List ℕ
  pub pid : ℕ

-- `root` is `root->list`, and `kernel_pagemap` the address of the kernel's pagemap.
abbrev pub make_process_info : (root kernel_pagemap : ℕ) → List ℕ → (pid : ℕ) → ProcessInfo
make_process_info root kernel_pagemap name pid = record {
  root_vfs = root;
  pagemap = kernel_pagemap;
  cur_working_directory = root;
  name = name;
  pid = pid;
}

-- `info` is the field of that name of a thread.
abbrev pub get_cur_process_info : (info : ℕ → Option ℕ) → (current_thread : Option ℕ) → Option ℕ
get_cur_process_info info (some t) = info t
get_cur_process_info info none = none

-- A current thread has a process; 0 is NULL.
abbrev pub get_current_pagemap_process :
    (process : ℕ → ProcessInfo) → (current_thread : Option ℕ) → ℕ
get_current_pagemap_process process (some t) = (process t).pagemap
get_current_pagemap_process process none = 0

-- One round of `kthread_start`: the newest event, if there is one, is taken.
unfoldable pub kthread_round : Keyboard → Keyboard × Option KeyboardEvent
kthread_round kb =
    if ltb 0 kb.event_count
    then (record kb { event_count = kb.event_count - 1 }, some (kb.events (kb.event_count - 1)))
    else (kb, none)

-- The queue of `sched_init`: the kernel's thread, and before it the thread that `load_elf_program`
-- returned, if it did.
abbrev pub queue_program : Cpu → (kthread : ℕ) → (fr : Option ℕ) → Cpu
queue_program s kthread none = s
queue_program s kthread (some fr) = record s {
  threads = put_thread s.threads fr (record (s.threads fr) { next = some kthread });
  start_of_queue = some fr;
}

unfoldable pub sched_init :
    Cpu
    → (kthread : ℕ) → (old : Thread) → StackFrame
    → (fpu_state gs_base : ℕ) → (fr : Option ℕ) → Cpu
sched_init s kthread old frame fpu_state gs_base fr =
    let created = record (create_thread old frame fpu_state) { gs_base = gs_base } in
    let queued : Cpu = record s {
      threads = put_thread s.threads kthread created;
      start_of_queue = some kthread;
    } in
    queue_program queued kthread fr

-- The thread at place `i` of the queue of `sched_init`.
abbrev pub boot_thread : (kthread : ℕ) → Option ℕ → ℕ → ℕ
boot_thread kthread none i = kthread
boot_thread kthread (some fr) i = if i == 0 then fr else kthread

abbrev pub boot_length : Option ℕ → ℕ
boot_length none = 1
boot_length (some fr) = 2

-- `sched_init` leaves a queue of the program's thread and the kernel's, or of the kernel's alone if the
-- program was not loaded. The two are different objects.
pub sched_init-IsQueue :
    (s : Cpu) (kthread : ℕ) (old : Thread) (frame : StackFrame) (fpu_state gs_base : ℕ)
    (fr : Option ℕ)
    → fr ≢ some kthread
    → IsQueue
        (sched_init s kthread old frame fpu_state gs_base fr)
        (boot_thread kthread fr)
        (boot_length fr)
unfolding sched_init
sched_init-IsQueue s kthread old frame fpu_state gs_base none other = record {
  starts = refl;
  links = λ i low. absurd (omega (arith, low));
  ends = λ i last. rw ((==_iff kthread kthread).1 refl) refl;
}
sched_init-IsQueue s kthread old frame fpu_state gs_base (some fr) other = record {
  starts = refl;
  links = λ i low.
      (let first : i ≡ 0 = omega (arith, low) in rw first (rw ((==_iff fr fr).1 refl) refl));
  ends = λ i last.
      (let second : i ≡ 1 = omega (arith, last) in
        rw second (
          rw (ne→== kthread fr (λ e. other (ap some (sym e))), (==_iff kthread kthread).1 refl)
            refl));
}
