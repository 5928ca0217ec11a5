-- ===== src/Idt/Tests.antt =====
-- The table at boot.
use nyaux.Base.{ℕ, none, arith}
use nyaux.Idt.{Idt, init_idt}
use nyaux.Idt.Init.{IsReady, init_idt-IsReady}

abbrev at_boot : Idt
at_boot = record {
  gates = λ k. record {
    offset_low = 0;
    segment_sel = 0;
    ist = 0;
    type_attrib = 0;
    offset_mid = 0;
    offset_hi = 0;
    reversed = 0;
  };
  idt_handlers = λ k. none;
  cur_vec_free = 32;
  idtptr_size = 0;
  idtptr_offset = 0;
}

-- One stub for all vectors.
abbrev stubs : ℕ → ℕ
stubs k = 0xffff800000001234

init_idt-IsReady_example :
    IsReady stubs 1000 2000 3000 4096 at_boot (init_idt stubs 1000 2000 3000 4096 at_boot)
init_idt-IsReady_example =
    init_idt-IsReady stubs 1000 2000 3000 4096 at_boot (λ k. omega arith) (omega arith)
      (omega arith)
