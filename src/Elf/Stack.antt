-- ===== src/Elf/Stack.antt =====
-- What stands on the first stack of a program (kernel/src/elf/elf.c).
use nyaux.Base.{
  ℕ, ◌+◌, ◌-◌, ◌*◌, ◌%◌, ◌≤◌, ◌<◌, ◌≡◌, inl, inr, true, List, [], ◌∷◌, length, ◌==◌, leb, ltb,
  if◌then◌else◌, arith, refl, ◌∙◌, Bool-cases, ==_iff,
}
use mathlib.Core.Path.{subst}
use nyaux.Machine.{Mem, write}
use nyaux.Vmm.Region.{copy_words}
use nyaux.Elf.{
  Parameters, user_stack_ptr, Window, push_word, push_aux, if_set, push_parameters, align_window,
  initial_stack,
}

-- Words one after the other in memory.
abbrev pub Words : Mem → ℕ → List ℕ → Type 0
Words m a [] = Unit
Words m a (x ∷ xs) = (m a ≡ x) × Words m (a + 8) xs

-- The window holds the words, `n` of them at most.
record IsWindow (n : ℕ) (w : Window) (xs : List ℕ) : Type 0 where
  pub size_is : w.size ≡ 8 * length xs
  pub small : length xs ≤ n
  pub holds : Words w.stack (user_stack_ptr - w.size) xs

Words-write : (m : Mem) (a v b : ℕ) (xs : List ℕ) → a < b → Words m b xs → Words (write m a v) b xs
Words-write m a v b [] lt words = tt
Words-write m a v b (x ∷ xs) lt (at, words) =
    (ground arith, Words-write m a v (b + 8) xs (omega arith) words)

-- A word pushed below the words at `b`.
Words-push :
    (m : Mem) (a v b : ℕ) (xs : List ℕ) → a + 8 ≡ b → Words m b xs → Words (write m a v) a (v ∷ xs)
Words-push m a v b xs e words = (ground arith, rw e (Words-write m a v b xs (omega arith) words))

Words-pair :
    (m : Mem) (a t v b : ℕ) (xs : List ℕ)
    → a + 16 ≡ b
    → Words m b xs
    → Words (write (write m a t) (a + 8) v) a (t ∷ v ∷ xs)
Words-pair m a t v b xs e words =
    let two : a + 8 + 8 ≡ b = omega (arith, e) in
    (
      ground arith,
      (
        ground arith,
        rw two (
            Words-write (write m a t) (a + 8) v b xs (omega arith)
              (Words-write m a t b xs (omega arith) words)),
      ),
    )

push_word-IsWindow :
    (n v : ℕ) (w : Window) (xs : List ℕ)
    → n < 20
    → IsWindow n w xs
    → IsWindow (n + 1) (push_word v w) (v ∷ xs)
push_word-IsWindow n v w xs few is = record {
  size_is = omega (arith, is.size_is);
  small = omega (arith, is.small);
  holds =
      Words-push w.stack (user_stack_ptr - (w.size + 8)) v (user_stack_ptr - w.size) xs
        (omega (arith, is.size_is, is.small)) is.holds;
}

push_aux-IsWindow :
    (n t v : ℕ) (w : Window) (xs : List ℕ)
    → n < 20
    → IsWindow n w xs
    → IsWindow (n + 2) (push_aux t v w) (t ∷ v ∷ xs)
push_aux-IsWindow n t v w xs few is =
    let a = user_stack_ptr - (w.size + 16) in
    let top : a + 16 ≡ user_stack_ptr - w.size = omega (arith, is.size_is, is.small) in
    record {
      size_is = omega (arith, is.size_is);
      small = omega (arith, is.small);
      holds = Words-pair w.stack a t v (user_stack_ptr - w.size) xs top is.holds;
    }

-- Words that are there if the pointer is set.
abbrev pub words_if : ℕ → (List ℕ → List ℕ) → List ℕ → List ℕ
words_if p more xs = if p == 0 then xs else more xs

if_set-IsWindow :
    (n k p : ℕ) (push : Window → Window) (more : List ℕ → List ℕ) (w : Window) (xs : List ℕ)
    → (IsWindow n w xs → IsWindow (n + k) (push w) (more xs))
    → IsWindow n w xs
    → IsWindow (n + k) (if_set p push w) (words_if p more xs)
if_set-IsWindow n k p push more w xs pushes is = elim (Bool-cases (p == 0)) [
  | inl null ↦
      rw null (record { size_is = is.size_is; small = omega (arith, is.small); holds = is.holds })
  | inr set ↦ rw set (pushes is)
]

-- The words from the stack pointer up: the arguments, the environment, and the auxiliary vectors for the
-- program headers, the entry point and the end.
abbrev pub stack_words : Parameters → List ℕ
stack_words p =
    p.argc
    ∷ words_if p.argv (λ xs. p.argv ∷ xs)
        (0
          ∷ words_if p.envp (λ xs. p.envp ∷ xs)
              (0
                ∷ 5
                ∷ p.phnum
                ∷ 4
                ∷ p.phent
                ∷ 3
                ∷ p.phdr_virt
                ∷ words_if p.entry (λ xs. 9 ∷ p.entry ∷ xs) (0 ∷ 0 ∷ [])))

empty-IsWindow : (m : Mem) → IsWindow 0 (record { size = 0; stack = m }) []
empty-IsWindow m = record { size_is = refl; small = omega arith; holds = tt }

push_parameters-IsWindow :
    (p : Parameters) (m : Mem)
    → IsWindow 15 (push_parameters p (record { size = 0; stack = m })) (stack_words p)
unfolding push_parameters
push_parameters-IsWindow p m =
    let null = push_aux-IsWindow 0 0 0 _ [] (omega arith) (empty-IsWindow m) in
    let entry_aux =
      if_set-IsWindow 2 2 p.entry (push_aux 9 p.entry) (λ xs. 9 ∷ p.entry ∷ xs) _ _
        (push_aux-IsWindow 2 9 p.entry _ _ (omega arith)) null in
    let phdr_aux = push_aux-IsWindow 4 3 p.phdr_virt _ _ (omega arith) entry_aux in
    let phent_aux = push_aux-IsWindow 6 4 p.phent _ _ (omega arith) phdr_aux in
    let phnum_aux = push_aux-IsWindow 8 5 p.phnum _ _ (omega arith) phent_aux in
    let end_of_envp = push_word-IsWindow 10 0 _ _ (omega arith) phnum_aux in
    let environment =
      if_set-IsWindow 11 1 p.envp (push_word p.envp) (λ xs. p.envp ∷ xs) _ _
        (push_word-IsWindow 11 p.envp _ _ (omega arith)) end_of_envp in
    let end_of_argv = push_word-IsWindow 12 0 _ _ (omega arith) environment in
    let arguments =
      if_set-IsWindow 13 1 p.argv (push_word p.argv) (λ xs. p.argv ∷ xs) _ _
        (push_word-IsWindow 13 p.argv _ _ (omega arith)) end_of_argv in
    push_word-IsWindow 14 p.argc _ _ (omega arith) arguments

copy_at : (m : Mem) (dst src i n : ℕ) → i < n → copy_words m dst src n (dst + i) ≡ m (src + i)
copy_at m dst src i n low =
    let from : leb dst (dst + i) ≡ true = ground arith in
    let to : ltb (dst + i) (dst + n) ≡ true = ground arith in
    let where_from : dst + i - dst ≡ i = omega arith in rw (from, to, where_from) refl

Words-copy :
    (m : Mem) (dst src i n : ℕ) (xs : List ℕ)
    → i + 8 * length xs ≤ n
    → Words m (src + i) xs
    → Words (copy_words m dst src n) (dst + i) xs
Words-copy m dst src i n [] fits words = tt
Words-copy m dst src i n (x ∷ xs) fits (at, words) =
    let here : src + i + 8 ≡ src + (i + 8) = omega arith in
    let there : dst + i + 8 ≡ dst + (i + 8) = omega arith in
    (
      copy_at m dst src i n (omega (arith, fits)) ∙ at,
      rw there (Words-copy m dst src (i + 8) n xs (omega (arith, fits)) (rw here at words)),
    )

Words-copy_all :
    (m : Mem) (dst src n : ℕ) (xs : List ℕ)
    → 8 * length xs ≤ n
    → Words m src xs
    → Words (copy_words m dst src n) dst xs
Words-copy_all m dst src n xs fits words =
    let none_from : src ≡ src + 0 = omega arith in
    let none_to : dst + 0 ≡ dst = omega arith in
    subst (λ (a : ℕ). Words (copy_words m dst src n) a xs) none_to
      (Words-copy m dst src 0 n xs (omega (arith, fits))
        (subst (λ (a : ℕ). Words m a xs) none_from words))

aligned_top : (size : ℕ) → size ≤ 120 → size % 16 ≡ 0 → (user_stack_ptr - size) % 16 ≡ 0
aligned_top size small e = omega arith

align_window_lem :
    (w : Window) (xs : List ℕ)
    → IsWindow 15 w xs
    → Words (align_window w).stack (user_stack_ptr - (align_window w).size) xs
      × ((user_stack_ptr - (align_window w).size) % 16 ≡ 0)
unfolding align_window
align_window_lem w xs is = elim (Bool-cases (w.size % 16 == 0)) [
  | inl aligned ↦ rw aligned (
    is.holds,
    aligned_top w.size (omega (arith, is.size_is, is.small)) ((==_iff (w.size % 16) 0).0 aligned),
  )
  | inr odd ↦
      (let dst = user_stack_ptr - (w.size + (16 - w.size % 16)) in
        let src = user_stack_ptr - w.size in
        rw odd (
          Words-copy_all w.stack dst src w.size xs (omega (arith, is.size_is)) is.holds,
          omega (arith, is.size_is, is.small),
        ))
]

-- The first stack of a program: from the stack pointer up it holds `argc`, the pointer `argv` if it is set, 0, the
-- pointer `envp` if it is set, 0, and the auxiliary vectors for the number and size of the program
-- headers, their address, the entry point if it is set, and the end. The stack pointer is a multiple of
-- 16 whatever is left out. The window of the new thread is empty at first.
pub initial_stack_lem :
    (p : Parameters) (m : Mem)
    → Words
        (initial_stack p (record { size = 0; stack = m })).stack
        (user_stack_ptr - (initial_stack p (record { size = 0; stack = m })).size)
        (stack_words p)
      × ((user_stack_ptr - (initial_stack p (record { size = 0; stack = m })).size) % 16 ≡ 0)
unfolding initial_stack
initial_stack_lem p m =
    align_window_lem (push_parameters p (record { size = 0; stack = m })) (stack_words p)
      (push_parameters-IsWindow p m)
