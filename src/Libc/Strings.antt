-- ===== src/Libc/Strings.antt =====
-- What the string functions of kernel/src/main.c do on strings that end in NUL.
use nyaux.Base.{
  ℕ, zero, suc, ◌+◌, ◌-◌, ◌<◌, ◌≡◌, ◌⊎◌, ◌↔◌, arith, ◌==◌, inl, inr, refl, ◌∙◌, ap, Bool-cases,
  ==→ne, List, [], ◌∷◌, length, Option, some,
}
use nyaux.Machine.{Mem, write}
use nyaux.Libc.{end_of, strlen, strcmp, strcpy, char_diff, ◌>>=◌}

-- The bytes `xs`, none of them NUL, and a NUL after them stand at `s`.
abbrev pub IsString : Mem → ℕ → List ℕ → Type 0
IsString m s [] = m s ≡ 0
IsString m s (x ∷ xs) = (m s ≡ x) × (0 < x) × (x < 256) × IsString m (s + 1) xs

end_of_lem :
    (fuel s : ℕ) (m : Mem) (xs : List ℕ)
    → IsString m s xs
    → length xs < fuel
    → end_of fuel s m ≡ some (s + length xs)
unfolding end_of
end_of_lem zero s m xs is lt = absurd (omega arith)
end_of_lem (suc fuel) s m [] is lt = ground arith
end_of_lem (suc fuel) s m (x ∷ xs) (at, pos, small, rest) lt =
    ground (arith, end_of_lem fuel (s + 1) m xs rest (ground arith))

-- `strlen` of a string is its length, whatever fuel it has beyond one round for each byte.
pub strlen_lem :
    (fuel s : ℕ) (m : Mem) (xs : List ℕ)
    → IsString m s xs
    → length xs < fuel
    → strlen fuel s m ≡ some (length xs)
unfolding strlen
strlen_lem fuel s m xs is lt =
    ap (λ (o : Option ℕ). o >>= (λ e. some (e - s))) (end_of_lem fuel s m xs is lt)
    ∙ ap some (omega arith)

-- `strcmp` of two strings ends, and it is 0 exactly if the two are equal.
pub strcmp_lem :
    (fuel s1 s2 : ℕ) (m : Mem) (xs ys : List ℕ)
    → IsString m s1 xs
    → IsString m s2 ys
    → length xs < fuel
    → (r : ℕ) × (strcmp fuel s1 s2 m ≡ some r) × (r ≡ 0 ↔ xs ≡ ys)
unfolding strcmp
strcmp_lem zero s1 s2 m xs ys is1 is2 lt = absurd (omega arith)
strcmp_lem (suc fuel) s1 s2 m [] [] is1 is2 lt = (0, ground arith, ((λ z. refl), λ e. refl))
strcmp_lem (suc fuel) s1 s2 m [] (y ∷ ys) is1 (at2, pos2, small2, rest2) lt =
    (char_diff 0 y, ground arith, ((λ z. absurd (omega arith)), λ e. absurd (cc)))
strcmp_lem (suc fuel) s1 s2 m (x ∷ xs) [] (at1, pos1, small1, rest1) is2 lt =
    (char_diff x 0, ground arith, ((λ z. absurd (omega arith)), λ e. absurd (cc)))
strcmp_lem (suc fuel) s1 s2 m (x ∷ xs) (y ∷ ys) (at1, pos1, small1, rest1)
      (at2, pos2, small2, rest2) lt =
    let (r, e, iff) = strcmp_lem fuel (s1 + 1) (s2 + 1) m xs ys rest1 rest2 (ground arith) in
    elim (Bool-cases (x == y)) [
      | inl same ↦ (r, ground arith, ((λ z. ground (arith, iff.0 z)), λ es. iff.1 (cc)))
      | inr different ↦ (
        char_diff x y,
        ground arith,
        ((λ z. absurd (ground arith)), λ es. absurd (==→ne x y different (cc))),
      )
    ]

IsString-write :
    (m : Mem) (s a v : ℕ) (xs : List ℕ)
    → (a < s) ⊎ (s + length xs < a)
    → IsString m s xs
    → IsString (write m a v) s xs
IsString-write m s a v [] out is = ground arith
IsString-write m s a v (x ∷ xs) out (at, pos, small, rest) =
    (ground arith, pos, small, IsString-write m (s + 1) a v xs (ground arith) rest)

-- `strcpy` ends and leaves at `to` the string from `from`, if the two areas are apart. It changes
-- no byte outside the copy.
pub strcpy_lem :
    (fuel to from : ℕ) (m : Mem) (xs : List ℕ)
    → IsString m from xs
    → (to + length xs < from) ⊎ (from + length xs < to)
    → length xs < fuel
    → (m' : Mem) × (strcpy fuel to from m ≡ some m')
      × IsString m' to xs
      × ((a : ℕ) → (a < to) ⊎ (to + length xs < a) → m' a ≡ m a)
unfolding strcpy
strcpy_lem zero to from m xs is apart lt = absurd (omega arith)
strcpy_lem (suc fuel) to from m [] is apart lt =
    (write m to (m from), ground arith, ground arith, λ a out. ground arith)
strcpy_lem (suc fuel) to from m (x ∷ xs) (at, pos, small, rest) apart lt =
    let (m', e, copy, same) =
      strcpy_lem fuel (to + 1) (from + 1) (write m to (m from)) xs
        (IsString-write m (from + 1) to (m from) xs (ground arith) rest) (ground arith)
        (ground arith) in
    (
      m',
      ground arith,
      (same to (ground arith) ∙ ground arith, pos, small, copy),
      λ a out. same a (ground arith) ∙ ground arith,
    )
