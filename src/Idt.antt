-- ===== src/Idt.antt =====
-- The interrupt descriptor table of kernel/src/idt.c. The handlers, the assembly stubs and the table are
-- named by their addresses.
pub mod Init
mod Tests
use nyaux.Base.{
  ℕ, zero, suc, ◌+◌, ◌-◌, ◌*◌, ◌/◌, ◌%◌, ◌^◌, Option, none, some, ◌==◌, if◌then◌else◌, bit_and,
  bit_or,
}

-- `struct IDTGateDescriptor`
pub record IdtGateDescriptor : Type 0 where
  pub offset_low : ℕ
  pub segment_sel : ℕ
  pub ist : ℕ
  pub type_attrib : ℕ
  pub offset_mid : ℕ
  pub offset_hi : ℕ
  pub reversed : ℕ

-- The globals of the file; `idtptr_size` and `idtptr_offset` are the fields of `idtptr`.
pub record Idt : Type 0 where
  pub gates : ℕ → IdtGateDescriptor
  pub idt_handlers : ℕ → Option ℕ
  pub cur_vec_free : ℕ
  pub idtptr_size : ℕ
  pub idtptr_offset : ℕ

-- What is stored for a handler.
abbrev pub descriptor : (handler selector type_attrib : ℕ) → IdtGateDescriptor
descriptor handler selector type_attrib = record {
  offset_low = handler % 2 ^ 16;
  segment_sel = selector;
  ist = 0;
  type_attrib = type_attrib;
  offset_mid = handler / 2 ^ 16 % 2 ^ 16;
  offset_hi = handler / 2 ^ 32 % 2 ^ 32;
  reversed = 0;
}

unfoldable pub set_interrupt_descriptor : Idt → (vector handler selector type_attrib : ℕ) → Idt
set_interrupt_descriptor idt vector handler selector type_attrib = record idt {
  gates = λ k. if k == vector then descriptor handler selector type_attrib else idt.gates k;
}

unfoldable pub register_handler : Idt → (interrupt handler : ℕ) → Idt
register_handler idt interrupt handler = record idt {
  idt_handlers = λ k. if k == interrupt then some handler else idt.idt_handlers k;
}

abbrev pub allocate_vector : Idt → ℕ × Idt
allocate_vector idt = (idt.cur_vec_free, record idt { cur_vec_free = idt.cur_vec_free + 1 })

-- `NYA_OS_IDT_INTERRUPT | NYA_OS_IDT_PRESENT | NYA_OS_IDT_RING3`, where the last is 0.
abbrev pub interrupt_gate : ℕ
interrupt_gate = 0x8E

-- The loop of `init_idt`, `n` rounds of it from vector `i` on.
unfoldable pub set_stubs : (n i : ℕ) → (stubs : ℕ → ℕ) → Idt → Idt
unfolding set_interrupt_descriptor
set_stubs zero i stubs idt = idt
set_stubs (suc n) i stubs idt =
    set_stubs n (i + 1) stubs (set_interrupt_descriptor idt i (stubs i) 0x28 interrupt_gate)

-- `init_idt`, but for the load of the table; `at` is its address.
unfoldable pub init_idt :
    (stubs : ℕ → ℕ) → (division_by_zero page_fault sched_meow at : ℕ) → Idt → Idt
init_idt stubs division_by_zero page_fault sched_meow at idt =
    let installed = set_stubs 256 0 stubs idt in
    let faults = register_handler (register_handler installed 0 division_by_zero) 14 page_fault in
    let vector = allocate_vector faults in
    record (register_handler vector.1 vector.0 sched_meow) {
      idtptr_size = 256 * 16;
      idtptr_offset = at;
    }
