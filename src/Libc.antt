-- ===== src/Libc.antt =====
-- The memory and string functions of kernel/src/main.c. Memory is a function from an address to the
-- byte stored there, and addresses do not wrap around. A loop that runs until it meets a byte is on
-- fuel: `none` means that it is still running.
pub mod Memory
pub mod Strings
pub mod Digits
pub mod Tests
use nyaux.Base.{
  ℕ, zero, suc, ◌+◌, ◌-◌, ◌%◌, ◌^◌, Option, none, some, ◌==◌, ltb, if◌then◌else◌, ◌||◌, not, ◌*◌,
}
use nyaux.Word.{sub64}
use nyaux.Machine.{Mem, write}

-- The upward loop of `memcpy` and `memmove`, `n` rounds of it from byte `i` on.
unfoldable pub copy_up : (n i dest src : ℕ) → Mem → Mem
copy_up zero i dest src m = m
copy_up (suc n) i dest src m = copy_up n (i + 1) dest src (write m (dest + i) (m (src + i)))

-- The downward loop of `memmove`, whose bytes are written from `dest + i - 1` to `dest`.
unfoldable pub copy_down : (i dest src : ℕ) → Mem → Mem
copy_down zero dest src m = m
copy_down (suc i) dest src m = copy_down i dest src (write m (dest + i) (m (src + i)))

unfoldable pub memcpy : Mem → (dest src n : ℕ) → Mem
unfolding copy_up
memcpy m dest src n = copy_up n 0 dest src m

unfoldable pub memmove : Mem → (dest src n : ℕ) → Mem
unfolding copy_up copy_down
memmove m dest src n =
    if ltb dest src
    then copy_up n 0 dest src m
    else if ltb src dest
    then copy_down n dest src m
    else m

unfoldable pub set_up : (n i s c : ℕ) → Mem → Mem
set_up zero i s c m = m
set_up (suc n) i s c m = set_up n (i + 1) s c (write m (s + i) (c % 256))

unfoldable pub memset : Mem → (s c n : ℕ) → Mem
unfolding set_up
memset m s c n = set_up n 0 s c m

module _ {A B : Type 0} where
  infixl 5 ◌>>=◌
  abbrev ◌>>=◌ : Option A → (A → Option B) → Option B
  ◌>>=◌ (some a) k = k a
  ◌>>=◌ none k = none

-- The `int` -1.
abbrev pub minus_one : ℕ
minus_one = 2 ^ 32 - 1

unfoldable pub compare_from : (n i s1 s2 : ℕ) → Mem → ℕ
compare_from zero i s1 s2 m = 0
compare_from (suc n) i s1 s2 m =
    let rest = compare_from n (i + 1) s1 s2 m in
    if m (s1 + i) == m (s2 + i)
    then rest
    else if ltb (m (s1 + i)) (m (s2 + i))
    then minus_one
    else 1

unfoldable pub memcmp : Mem → (s1 s2 n : ℕ) → ℕ
unfolding compare_from
memcmp m s1 s2 n = compare_from n 0 s1 s2 m

-- `for (s = str; *s; s++);`
unfoldable pub end_of : (fuel s : ℕ) → Mem → Option ℕ
end_of zero s m = none
end_of (suc fuel) s m = let rest = end_of fuel (s + 1) m in if m s == 0 then some s else rest

unfoldable pub strlen : (fuel str : ℕ) → Mem → Option ℕ
unfolding end_of
strlen fuel str m = do s ← end_of fuel str m; some (s - str)

unfoldable pub strnlen_from : (n len s : ℕ) → Mem → ℕ
strnlen_from zero len s m = len
strnlen_from (suc n) len s m =
    let rest = strnlen_from n (len + 1) (s + 1) m in if m s == 0 then len else rest

unfoldable pub strnlen : (s maxlen : ℕ) → Mem → ℕ
unfolding strnlen_from
strnlen s maxlen m = strnlen_from maxlen 0 s m

-- A difference of two characters as an `int`.
abbrev pub char_diff : ℕ → ℕ → ℕ
char_diff a b = (a + 2 ^ 32 - b) % 2 ^ 32

unfoldable pub strcmp : (fuel s1 s2 : ℕ) → Mem → Option ℕ
strcmp zero s1 s2 m = none
strcmp (suc fuel) s1 s2 m =
    let rest = strcmp fuel (s1 + 1) (s2 + 1) m in
    if m s1 == m s2 then (if m s1 == 0 then some 0 else rest) else some (char_diff (m s1) (m s2))

-- A `char` as an `int`: it is signed.
abbrev pub char : ℕ → ℕ
char c = if ltb c 128 then c else 2 ^ 32 - 256 + c

unfoldable pub strncmp : (len a b : ℕ) → Mem → ℕ
strncmp zero a b m = 0
strncmp (suc len) a b m =
    let rest = strncmp len (a + 1) (b + 1) m in
    if not (m a == m b) || (m a == 0) || (m b == 0)
    then char_diff (char (m a)) (char (m b))
    else rest

-- `for (; (*to = *from); ++from, ++to);`
unfoldable pub strcpy : (fuel to from : ℕ) → Mem → Option Mem
strcpy zero to from m = none
strcpy (suc fuel) to from m =
    let rest = strcpy fuel (to + 1) (from + 1) (write m to (m from)) in
    if m from == 0 then some (write m to (m from)) else rest

unfoldable pub prepend : (fuel s t : ℕ) → Mem → Option Mem
unfolding strlen memmove memcpy
prepend fuel s t m = do
  len ← strlen fuel t m
  s_len ← strlen fuel s m
  some (memcpy (memmove m (s + len) s (s_len + 1)) s t len)

-- `strchr` of kernel/src/fs/vfs.c: the first place of a character; NULL is `some none`.
unfoldable pub strchr : (fuel p ch : ℕ) → Mem → Option (Option ℕ)
strchr zero p ch m = none
strchr (suc fuel) p ch m =
    let rest = strchr fuel (p + 1) ch m in
    if m p == ch % 256 then some (some p) else if m p == 0 then some none else rest
