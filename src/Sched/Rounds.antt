-- ===== src/Sched/Rounds.antt =====
-- The order in which threads run, and that a thread gets its registers back.
use nyaux.Base.{
  ℕ, zero, suc, ◌+◌, ◌<◌, ◌≡◌, ◌≢◌, arith, Option, none, some, ◌==◌, if◌then◌else◌, refl, ap, sym,
  ◌∙◌, ne→==, ==_iff, Bool-cases, inl, inr,
}
use mathlib.Core.Path.{subst}
use nyaux.Sched.{
  StackFrame, Thread, Cpu, user_code, saved, save_context, switch_context, switch_from,
  switch_current, switch_task,
}

-- Thread `i` of `len`, counted from the start of the queue, is `ts i`.
pub record IsQueue (s : Cpu) (ts : ℕ → ℕ) (len : ℕ) : Type 0 where
  pub starts : s.start_of_queue ≡ some (ts 0)
  pub links : (i : ℕ) → i + 1 < len → (s.threads (ts i)).next ≡ some (ts (i + 1))
  pub ends : (i : ℕ) → i + 1 ≡ len → (s.threads (ts i)).next ≡ none

-- The place after place `i`.
abbrev pub wrap : (len i : ℕ) → ℕ
wrap len i = if (i + 1) == len then 0 else i + 1

saved_next : (s : Cpu) (t : Thread) → (saved s t).next ≡ t.next
unfolding saved
saved_next s t = elim (Bool-cases (t.context.cs == user_code)) [
  | inl user ↦ rw user refl
  | inr kernel ↦ rw kernel refl
]

switch_context_current : (s : Cpu) (t : ℕ) → (switch_context s t).current_thread ≡ some t
unfolding switch_context
switch_context_current s t = elim (Bool-cases ((s.threads t).context.cs == user_code)) [
  | inl user ↦ rw user refl
  | inr kernel ↦ rw kernel refl
]

switch_context_threads : (s : Cpu) (t : ℕ) → (switch_context s t).threads ≡ s.threads
unfolding switch_context
switch_context_threads s t = elim (Bool-cases ((s.threads t).context.cs == user_code)) [
  | inl user ↦ rw user refl
  | inr kernel ↦ rw kernel refl
]

switch_context_start : (s : Cpu) (t : ℕ) → (switch_context s t).start_of_queue ≡ s.start_of_queue
unfolding switch_context
switch_context_start s t = elim (Bool-cases ((s.threads t).context.cs == user_code)) [
  | inl user ↦ rw user refl
  | inr kernel ↦ rw kernel refl
]

save_context_next : (s : Cpu) (c a : ℕ) → ((save_context s c).threads a).next ≡ (s.threads a).next
unfolding save_context
save_context_next s c a = elim (Bool-cases (a == c)) [
  | inl same ↦
      rw same (
        saved_next s (s.threads c) ∙ ap (λ (t : ℕ). (s.threads t).next) (sym ((==_iff a c).0 same)))
  | inr other ↦ rw other refl
]

save_context_start : (s : Cpu) (c : ℕ) → (save_context s c).start_of_queue ≡ s.start_of_queue
unfolding save_context
save_context_start s c = refl

-- What a switch from a thread of the queue at place `i` is.
switch_task_at :
    (s : Cpu) (ts : ℕ → ℕ) (len i : ℕ)
    → IsQueue s ts len
    → s.current_thread ≡ some (ts i)
    → i < len
    → switch_task s ≡ switch_context (save_context s (ts i)) (ts (wrap len i))
unfolding switch_task switch_current switch_from
switch_task_at s ts len i queue current low =
    ap (switch_current s) current ∙ elim (Bool-cases ((i + 1) == len)) [
      | inl last ↦ rw last (
          ap (λ (o : Option ℕ). switch_from s (ts i) o s.start_of_queue)
            (queue.ends i (ground arith))
          ∙ ap (switch_from s (ts i) none) queue.starts)
      | inr more ↦ rw more (
          ap (λ (o : Option ℕ). switch_from s (ts i) o s.start_of_queue)
            (queue.links i (ground arith)))
    ]

IsQueue-switch :
    (s : Cpu) (ts : ℕ → ℕ) (len c t : ℕ)
    → IsQueue s ts len
    → IsQueue (switch_context (save_context s c) t) ts len
IsQueue-switch s ts len c t queue =
    let next_same : (a : ℕ)
        → ((switch_context (save_context s c) t).threads a).next ≡ (s.threads a).next =
      λ a.
        ap (λ (f : ℕ → Thread). (f a).next) (switch_context_threads (save_context s c) t)
        ∙ save_context_next s c a in
    record {
      starts = switch_context_start (save_context s c) t ∙ save_context_start s c ∙ queue.starts;
      links = λ i low. next_same (ts i) ∙ queue.links i low;
      ends = λ i last. next_same (ts i) ∙ queue.ends i last;
    }

-- `n` timer interrupts.
unfoldable pub switches : ℕ → Cpu → Cpu
switches zero s = s
switches (suc n) s = switches n (switch_task s)

-- The place `n` places on from `i`, the first after the last.
unfoldable pub place : (len n i : ℕ) → ℕ
place len zero i = i
place len (suc n) i = place len n (wrap len i)

-- Threads run in turn: `n` switches on, the current thread is the one `n` places on in the queue,
-- where the first follows the last, and the queue is as before.
pub switches_lem :
    (n : ℕ) (s : Cpu) (ts : ℕ → ℕ) (len i : ℕ)
    → IsQueue s ts len
    → s.current_thread ≡ some (ts i)
    → i < len
    → ((switches n s).current_thread ≡ some (ts (place len n i))) × IsQueue (switches n s) ts len
unfolding switches place
switches_lem zero s ts len i queue current low = (current, queue)
switches_lem (suc n) s ts len i queue current low =
    let e = switch_task_at s ts len i queue current low in
    switches_lem n (switch_task s) ts len (wrap len i)
      (subst (λ s'. IsQueue s' ts len) (sym e)
        (IsQueue-switch s ts len (ts i) (ts (wrap len i)) queue))
      (ap (λ (s' : Cpu). s'.current_thread) e
        ∙ switch_context_current (save_context s (ts i)) (ts (wrap len i)))
      (ground arith)

-- What a thread runs with once it is current.
abbrev pub RunsWith : Cpu → Thread → Type 0
RunsWith s t = (s.frame ≡ t.context) × (s.fpu ≡ t.fpu_state) × (s.cr3 ≡ t.pml4)

switch_context-RunsWith : (s : Cpu) (t : ℕ) → RunsWith (switch_context s t) (s.threads t)
unfolding switch_context
switch_context-RunsWith s t = elim (Bool-cases ((s.threads t).context.cs == user_code)) [
  | inl user ↦ rw user (refl, refl, refl)
  | inr kernel ↦ rw kernel (refl, refl, refl)
]

saved_state :
    (s : Cpu) (t : Thread)
    → ((saved s t).context ≡ s.frame)
      × ((saved s t).fpu_state ≡ s.fpu)
      × ((saved s t).pml4 ≡ t.pml4)
unfolding saved
saved_state s t = elim (Bool-cases (t.context.cs == user_code)) [
  | inl user ↦ rw user (refl, refl, refl)
  | inr kernel ↦ rw kernel (refl, refl, refl)
]

save_context_same : (s : Cpu) (c : ℕ) → (save_context s c).threads c ≡ saved s (s.threads c)
unfolding save_context
save_context_same s c = rw ((==_iff c c).1 refl) refl

save_context_other : (s : Cpu) (c a : ℕ) → a ≢ c → (save_context s c).threads a ≡ s.threads a
unfolding save_context
save_context_other s c a ne = rw (ne→== a c ne) refl

-- The processor after the running thread has changed its registers.
abbrev pub worked : Cpu → StackFrame → (fpu gs fs : ℕ) → Cpu
worked s frame fpu gs fs = record s { frame = frame; fpu = fpu; msr_gs = gs; msr_fs = fs }

-- The segment registers of a thread that was in user mode and returns there.
switch_context-user :
    (s : Cpu) (t : ℕ)
    → (s.threads t).context.cs ≡ user_code
    → ((switch_context s t).msr_gs ≡ (s.threads t).gs_base)
      × ((switch_context s t).msr_fs ≡ (s.threads t).fs)
unfolding switch_context
switch_context-user s t user = rw ((==_iff (s.threads t).context.cs user_code).1 user) (refl, refl)

saved-user :
    (s : Cpu) (t : Thread)
    → t.context.cs ≡ user_code
    → ((saved s t).gs_base ≡ s.msr_gs) × ((saved s t).fs ≡ s.msr_fs)
unfolding saved
saved-user s t user = rw ((==_iff t.context.cs user_code).1 user) (refl, refl)

-- With two threads in the queue, the first of which is running, the second switch runs the first again, with
-- the registers and the FPU state that it had and with its page tables, whatever the second thread did to the
-- registers, the FPU and the segment registers meanwhile. It has its two segment registers again too, if it
-- is in user mode, now and when it was last switched out.
pub switch_task-switch_task :
    (s : Cpu) (ts : ℕ → ℕ) (frame : StackFrame) (fpu gs fs : ℕ)
    → IsQueue s ts 2
    → ts 0 ≢ ts 1
    → s.current_thread ≡ some (ts 0)
    → ((switch_task (worked (switch_task s) frame fpu gs fs)).current_thread ≡ some (ts 0))
      × ((switch_task (worked (switch_task s) frame fpu gs fs)).frame ≡ s.frame)
      × ((switch_task (worked (switch_task s) frame fpu gs fs)).fpu ≡ s.fpu)
      × ((switch_task (worked (switch_task s) frame fpu gs fs)).cr3 ≡ (s.threads (ts 0)).pml4)
      × ((s.threads (ts 0)).context.cs ≡ user_code
          → s.frame.cs ≡ user_code
          → ((switch_task (worked (switch_task s) frame fpu gs fs)).msr_gs ≡ s.msr_gs)
            × ((switch_task (worked (switch_task s) frame fpu gs fs)).msr_fs ≡ s.msr_fs))
switch_task-switch_task s ts frame fpu gs fs queue different current =
    let e = switch_task_at s ts 2 0 queue current (omega arith) in
    let s1 = worked (switch_task s) frame fpu gs fs in
    let queue1 =
      subst (λ s'. IsQueue s' ts 2) (sym e) (IsQueue-switch s ts 2 (ts 0) (ts 1) queue) in
    let current1 : s1.current_thread ≡ some (ts 1) =
      ap (λ (s' : Cpu). s'.current_thread) e
      ∙ switch_context_current (save_context s (ts 0)) (ts 1) in
    let e1 =
      switch_task_at s1 ts 2 1
        (record { starts = queue1.starts; links = queue1.links; ends = queue1.ends }) current1
        (omega arith) in
    let kept : (save_context s1 (ts 1)).threads (ts 0) ≡ saved s (s.threads (ts 0)) =
      save_context_other s1 (ts 1) (ts 0) different
      ∙ ap (λ (s' : Cpu). s'.threads (ts 0)) e
      ∙ ap (λ (f : ℕ → Thread). f (ts 0)) (switch_context_threads (save_context s (ts 0)) (ts 1))
      ∙ save_context_same s (ts 0) in
    let (frame_is, fpu_is, cr3_is) = switch_context-RunsWith (save_context s1 (ts 1)) (ts 0) in
    let (frame_was, fpu_was, cr3_was) = saved_state s (s.threads (ts 0)) in
    (
      ap (λ (s' : Cpu). s'.current_thread) e1
          ∙ switch_context_current (save_context s1 (ts 1)) (ts 0),
      ap (λ (s' : Cpu). s'.frame) e1 ∙ frame_is ∙ ap (λ (t : Thread). t.context) kept ∙ frame_was,
      ap (λ (s' : Cpu). s'.fpu) e1 ∙ fpu_is ∙ ap (λ (t : Thread). t.fpu_state) kept ∙ fpu_was,
      ap (λ (s' : Cpu). s'.cr3) e1 ∙ cr3_is ∙ ap (λ (t : Thread). t.pml4) kept ∙ cr3_was,
      λ was_user is_user.
          let (gs_was, fs_was) = saved-user s (s.threads (ts 0)) was_user in
          let (gs_is, fs_is) = switch_context-user (save_context s1 (ts 1)) (ts 0) (
            ap (λ (t : Thread). t.context.cs) kept
            ∙ ap (λ (f : StackFrame). f.cs) frame_was
            ∙ is_user) in
          (
            ap (λ (s' : Cpu). s'.msr_gs) e1 ∙ gs_is ∙ ap (λ (t : Thread). t.gs_base) kept ∙ gs_was,
            ap (λ (s' : Cpu). s'.msr_fs) e1 ∙ fs_is ∙ ap (λ (t : Thread). t.fs) kept ∙ fs_was,
          ),
    )
