-- ===== src/Elf.antt =====
-- The first stack of a program: the end of `load_elf_program` in kernel/src/elf/elf.c. The stack is seen as
-- 64-bit words by their addresses; an auxiliary vector is its type and its value, in two words.
pub mod Stack
pub mod Load
mod Tests
use nyaux.Base.{
  ℕ, zero, suc, ◌+◌, ◌-◌, ◌*◌, ◌%◌, Bool, true, false, ◌==◌, if◌then◌else◌, leb, ltb, ◌&&◌,
}
use nyaux.Machine.{Mem, write}
use nyaux.Vmm.Region.{copy_words}

-- The parameters of `load_elf_program` that the stack gets; a pointer that is NULL is 0.
pub record Parameters : Type 0 where
  pub argc : ℕ
  pub argv : ℕ
  pub envp : ℕ
  pub entry : ℕ
  pub phdr_virt : ℕ
  pub phent : ℕ
  pub phnum : ℕ

-- `NEW_THREAD_STACK + 512000`
abbrev pub user_stack_ptr : ℕ
user_stack_ptr = 0x70000000000 + 512000

-- `parameter_window_size` of the thread, and the stack.
pub record Window : Type 0 where
  pub size : ℕ
  pub stack : Mem

-- The window grows by one word or by an `Elf64_auxvec`, which is stored at its new end.
abbrev pub push_word : ℕ → Window → Window
push_word value w = record {
  size = w.size + 8;
  stack = write w.stack (user_stack_ptr - (w.size + 8)) value;
}

abbrev pub push_aux : (a_type a_val : ℕ) → Window → Window
push_aux a_type a_val w = record {
  size = w.size + 16;
  stack =
      write (write w.stack (user_stack_ptr - (w.size + 16)) a_type)
        (user_stack_ptr - (w.size + 16) + 8) a_val;
}

-- `if (entry)`, `if (envp)` and `if (argv)`
abbrev pub if_set : ℕ → (Window → Window) → Window → Window
if_set p push w = if p == 0 then w else push w

-- The words from the auxiliary vectors to `argc`.
unfoldable pub push_parameters : Parameters → Window → Window
push_parameters p w =
    let null = push_aux 0 0 w in
    let entry_aux = if_set p.entry (push_aux 9 p.entry) null in
    let phdr_aux = push_aux 3 p.phdr_virt entry_aux in
    let phent_aux = push_aux 4 p.phent phdr_aux in
    let phnum_aux = push_aux 5 p.phnum phent_aux in
    let end_of_envp = push_word 0 phnum_aux in
    let environment = if_set p.envp (push_word p.envp) end_of_envp in
    let end_of_argv = push_word 0 environment in
    let arguments = if_set p.argv (push_word p.argv) end_of_argv in push_word p.argc arguments

-- The window is moved down to a multiple of 16 bytes. `memmove` is given by the memory that it leaves.
unfoldable pub align_window : Window → Window
align_window w =
    let size = w.size + (16 - w.size % 16) in
    if w.size % 16 == 0 then w else record {
      size = size;
      stack = copy_words w.stack (user_stack_ptr - size) (user_stack_ptr - w.size) w.size;
    }

-- Lines 97 to 162: the stack of the new thread, which starts at `user_stack_ptr - size`.
unfoldable pub initial_stack : Parameters → Window → Window
unfolding push_parameters align_window
initial_stack p w = align_window (push_parameters p w)
