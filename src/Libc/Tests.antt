-- ===== src/Libc/Tests.antt =====
-- The memory and string functions at concrete inputs.
use nyaux.Base.{ℕ, ◌+◌, ◌-◌, ◌≤◌, ◌<◌, ◌≡◌, ◌⊎◌, ◌^◌, arith, some, ◌==◌, if◌then◌else◌}
use nyaux.Machine.{Mem}
use nyaux.Libc.{memmove}
use nyaux.Libc.Memory.{memmove_lem}
use nyaux.Libc.Digits.{itoa, digit, digit_char, itoa_lem}

-- "ls" at 100, "la" at 200, and 7 elsewhere
abbrev words : Mem
words a =
    if a == 100
    then 108
    else if a == 101
    then 115
    else if a == 102
    then 0
    else if a == 200
    then 108
    else if a == 201
    then 97
    else if a == 202
    then 0
    else 7

memmove_lem_example :
    (101 ≤ 102 → 102 < 101 + 2 → memmove words 101 100 2 102 ≡ words (100 + (102 - 101)))
    × ((102 < 101) ⊎ (101 + 2 ≤ 102) → memmove words 101 100 2 102 ≡ words 102)
memmove_lem_example = memmove_lem words 101 100 2 102

itoa_lem_example :
    (c : ℕ) × (m : Mem) × (itoa 10 21 300 4096 words ≡ some m)
    × (4096 < 10 ^ (c + 1))
    × ((◌≡◌ {A = ℕ} 4096 0) × (c ≡ 0) ⊎ (10 ^ c ≤ 4096))
    × ((k : ℕ) → k ≤ c → m (300 + (c - k)) ≡ digit_char (digit k 4096))
    × (m (300 + (c + 1)) ≡ 0)
    × ((a : ℕ) → (a < 300) ⊎ (300 + (c + 1) < a) → m a ≡ words a)
itoa_lem_example = itoa_lem 300 4096 words (omega arith)
