-- ===== src/Idt/Init.antt =====
-- What `init_idt` of kernel/src/idt.c leaves in the table.
use nyaux.Base.{
  ℕ, zero, suc, ◌+◌, ◌*◌, ◌/◌, ◌%◌, ◌^◌, ◌≤◌, ◌<◌, ◌≡◌, ◌≢◌, inl, inr, Option, some, ◌==◌, arith,
  refl, ap, sym, ◌∙◌, Bool-cases, ==_iff, ne→==, ==→ne,
}
use mathlib.Core.Path.{subst}
use nyaux.Idt.{
  IdtGateDescriptor, Idt, descriptor, interrupt_gate, set_interrupt_descriptor, register_handler,
  set_stubs, init_idt,
}

-- The address that the processor puts together from a descriptor.
abbrev pub handler_of : IdtGateDescriptor → ℕ
handler_of gate = gate.offset_low + gate.offset_mid * 2 ^ 16 + gate.offset_hi * 2 ^ 32

-- A gate for the handler as the processor reads it, in the kernel's code segment, on the current stack: bits 0
-- to 3 of the attributes are the type, 14 for an interrupt gate, bits 5 and 6 the ring, bit 7 says that it is
-- present.
pub record IsGateOf (handler : ℕ) (gate : IdtGateDescriptor) : Type 0 where
  pub handler_same : handler_of gate ≡ handler
  pub kernel_code : gate.segment_sel ≡ 0x28
  pub is_interrupt : gate.type_attrib % 2 ^ 4 ≡ 14
  pub is_system : gate.type_attrib / 2 ^ 4 % 2 ≡ 0
  pub ring : gate.type_attrib / 2 ^ 5 % 2 ^ 2 ≡ 0
  pub present : gate.type_attrib / 2 ^ 7 ≡ 1
  pub same_stack : gate.ist ≡ 0

descriptor-IsGateOf :
    (handler : ℕ) → handler < 2 ^ 64 → IsGateOf handler (descriptor handler 0x28 interrupt_gate)
descriptor-IsGateOf handler small = record {
  handler_same = omega (arith, small);
  kernel_code = refl;
  is_interrupt = refl;
  is_system = refl;
  ring = refl;
  present = refl;
  same_stack = refl;
}

set_stubs_below :
    (n i : ℕ) (stubs : ℕ → ℕ) (idt : Idt) (k : ℕ)
    → k < i
    → (set_stubs n i stubs idt).gates k ≡ idt.gates k
unfolding set_stubs set_interrupt_descriptor
set_stubs_below zero i stubs idt k below = refl
set_stubs_below (suc n) i stubs idt k below =
    set_stubs_below n (i + 1) stubs _ k (omega arith) ∙ rw (ne→== k i (omega arith)) refl

set_stubs_gates :
    (n i : ℕ) (stubs : ℕ → ℕ) (idt : Idt) (k : ℕ)
    → i ≤ k
    → k < i + n
    → (set_stubs n i stubs idt).gates k ≡ descriptor (stubs k) 0x28 interrupt_gate
unfolding set_stubs set_interrupt_descriptor
set_stubs_gates zero i stubs idt k low high = absurd (omega arith)
set_stubs_gates (suc n) i stubs idt k low high = elim (Bool-cases (k == i)) [
  | inl same ↦
      (let e : k ≡ i = (==_iff k i).0 same in
        set_stubs_below n (i + 1) stubs _ k (omega (arith, e))
        ∙ rw same (ap (λ (x : ℕ). descriptor (stubs x) 0x28 interrupt_gate) (sym e)))
  | inr other ↦
      set_stubs_gates n (i + 1) stubs _ k (omega (arith, ==→ne k i other, low))
        (omega (arith, high))
]

set_stubs_rest :
    (n i : ℕ) (stubs : ℕ → ℕ) (idt : Idt)
    → ((set_stubs n i stubs idt).idt_handlers ≡ idt.idt_handlers)
      × ((set_stubs n i stubs idt).cur_vec_free ≡ idt.cur_vec_free)
unfolding set_stubs set_interrupt_descriptor
set_stubs_rest zero i stubs idt = (refl, refl)
set_stubs_rest (suc n) i stubs idt = set_stubs_rest n (i + 1) stubs _

-- After `init_idt`.
pub record IsReady (stubs : ℕ → ℕ) (division_by_zero page_fault sched_meow at : ℕ)
    (before after : Idt) : Type 0 where
  pub gates : (k : ℕ) → k < 256 → IsGateOf (stubs k) (after.gates k)
  pub division : after.idt_handlers 0 ≡ some division_by_zero
  pub fault : after.idt_handlers 14 ≡ some page_fault
  pub timer : after.idt_handlers before.cur_vec_free ≡ some sched_meow
  pub others :
      (k : ℕ)
      → k ≢ 0
      → k ≢ 14
      → k ≢ before.cur_vec_free
      → after.idt_handlers k ≡ before.idt_handlers k
  pub next_vector : after.cur_vec_free ≡ before.cur_vec_free + 1
  pub pointer_size : after.idtptr_size ≡ 4096
  pub pointer_offset : after.idtptr_offset ≡ at

-- After `init_idt` every one of the 256 vectors has a gate of the type interrupt gate, present, of ring 0 and in
-- the segment 0x28, from whose three parts the processor puts together the address of its stub. What is loaded
-- for the table is its address and 4096, the bytes of its 256 gates. The handlers for a division by zero, a page fault and,
-- at the vector that was the next free one, the timer are registered, no other changes, and the next
-- free vector is one more. The stubs have 64-bit addresses, and that vector was neither 0 nor 14.
pub init_idt-IsReady :
    (stubs : ℕ → ℕ) (division_by_zero page_fault sched_meow at : ℕ) (idt : Idt)
    → ((k : ℕ) → stubs k < 2 ^ 64)
    → idt.cur_vec_free ≢ 0
    → idt.cur_vec_free ≢ 14
    → IsReady stubs division_by_zero page_fault sched_meow at idt
        (init_idt stubs division_by_zero page_fault sched_meow at idt)
unfolding init_idt register_handler
init_idt-IsReady stubs division_by_zero page_fault sched_meow at idt small not0 not14 =
    let (handlers, vector) = set_stubs_rest 256 0 stubs idt in
    record {
      gates = λ k low.
          subst (IsGateOf (stubs k)) (sym (set_stubs_gates 256 0 stubs idt k (omega arith) low))
            (descriptor-IsGateOf (stubs k) (small k));
      division = rw (vector, ne→== 0 idt.cur_vec_free (λ e. not0 (sym e))) refl;
      fault = rw (vector, ne→== 14 idt.cur_vec_free (λ e. not14 (sym e))) refl;
      timer = rw (vector, (==_iff idt.cur_vec_free idt.cur_vec_free).1 refl) refl;
      others = λ k n0 n14 n.
          rw (vector, ne→== k idt.cur_vec_free n, ne→== k 14 n14, ne→== k 0 n0)
            (ap (λ (h : ℕ → Option ℕ). h k) handlers);
      next_vector = ap (λ (v : ℕ). v + 1) vector;
      pointer_size = refl;
      pointer_offset = refl;
    }
