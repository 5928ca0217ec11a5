-- ===== src/Sched/Tests.antt =====
-- The thread switch at concrete inputs.
use nyaux.Base.{ℕ, ◌≤◌, ◌<◌, ◌≡◌, ◌≢◌, arith, none, some, [], ◌∷◌, refl, ◌==◌, if◌then◌else◌}
use nyaux.Sched.{StackFrame, Cpu, switch_task}
use nyaux.Sched.Threads.{sched_init, boot_thread, boot_length, sched_init-IsQueue}
use nyaux.Sched.Rounds.{IsQueue, switches, place, worked, switches_lem, switch_task-switch_task}
use nyaux.Sched.Turns.{switches_reach}

-- Threads 100 and 200, of which 100 is running.
abbrev two : ℕ → ℕ
two i = if i == 0 then 100 else 200

abbrev kernel_frame : StackFrame
kernel_frame = record { registers = 7 ∷ []; cs = 40 }

abbrev cpu : Cpu
cpu = record {
  frame = kernel_frame;
  fpu = 5;
  msr_gs = 0;
  msr_fs = 0;
  cr3 = 4096;
  threads = λ a. record {
    context = kernel_frame;
    fpu_state = 1;
    next = if a == 100 then some 200 else none;
    fs = 0;
    gs_base = 0;
    pml4 = 4096;
  };
  start_of_queue = some 100;
  current_thread = some 100;
}

cpu-IsQueue : IsQueue cpu two 2
cpu-IsQueue = record { starts = refl; links = λ i low. ground arith; ends = λ i last. ground arith }

switches_lem_example :
    ((switches 3 cpu).current_thread ≡ some (two (place 2 3 0))) × IsQueue (switches 3 cpu) two 2
switches_lem_example = switches_lem 3 cpu two 2 0 cpu-IsQueue refl (omega arith)

switches_reach_example : (n : ℕ) × (0 < n) × (n ≤ 2) × ((switches n cpu).current_thread ≡ some 200)
switches_reach_example = switches_reach cpu two 2 0 1 cpu-IsQueue refl (omega arith) (omega arith)

-- The same with the threads in user mode.
abbrev user_frame : StackFrame
user_frame = record { registers = 7 ∷ []; cs = 67 }

abbrev user_cpu : Cpu
user_cpu = record cpu {
  frame = user_frame;
  msr_gs = 0x5000;
  msr_fs = 0x6000;
  threads = λ a. record (cpu.threads a) { context = user_frame };
}

user_cpu-IsQueue : IsQueue user_cpu two 2
user_cpu-IsQueue = record {
  starts = refl;
  links = λ i low. ground arith;
  ends = λ i last. ground arith;
}

-- The state after the second switch.
abbrev back : Cpu
back = switch_task (worked (switch_task user_cpu) kernel_frame 9 1 2)

switch_task-switch_task_example :
    (back.current_thread ≡ some 100)
    × (back.frame ≡ user_frame)
    × (back.fpu ≡ 5)
    × (back.cr3 ≡ 4096)
    × (user_frame.cs ≡ 67 → user_frame.cs ≡ 67 → (back.msr_gs ≡ 0x5000) × (back.msr_fs ≡ 0x6000))
switch_task-switch_task_example =
    switch_task-switch_task user_cpu two kernel_frame 9 1 2 user_cpu-IsQueue (omega arith) refl

three_four : ◌≢◌ {A = ℕ} 300 400
three_four = omega arith

-- The program's thread at 300 before the kernel's at 400.
sched_init-IsQueue_example :
    IsQueue
      (sched_init cpu 400 (cpu.threads 400) kernel_frame 0 5000 (some 300))
      (boot_thread 400 (some 300))
      (boot_length (some 300))
sched_init-IsQueue_example =
    sched_init-IsQueue cpu 400 (cpu.threads 400) kernel_frame 0 5000 (some 300)
      (λ e. three_four (cc))
