-- ===== src/Tar/Loop.antt =====
-- The loop over the headers in kernel/src/fs/tar.c.
use nyaux.Base.{
  ℕ, zero, suc, ◌+◌, ◌-◌, ◌*◌, ◌^◌, ◌≤◌, ◌<◌, ◌≡◌, inl, inr, true, false, arith, refl, sym, ltb,
  Bool-cases, ltb→lt, le→ltb,
}
use native.Mathlib.Nat.{mod-lt}
use mathlib.Core.Path.{subst}
use nyaux.Fs.{Vnodes}
use nyaux.Word.{word_mod, sub64, add64, add64_small}
use nyaux.Machine.{Mem}
use nyaux.Vmm.Align.{align_up, align_up_least}
use nyaux.Tar.{
  add_digits, getsize, filesize_octal, next_header, Areas, Ramdisk, Handled, handled, stuck,
  handle_header, Parsed, parsed, stuck_at, parse_from, parse_tar_and_populate_tmpfs, empty_disk,
}

add_digits_small :
    (j at size count : ℕ) (m : Mem) → size < 2 ^ 32 → add_digits j at size count m < 2 ^ 32
unfolding add_digits
add_digits_small zero at size count m small = small
add_digits_small (suc j) at size count m small =
    add_digits_small j at _ _ m (mod-lt _ (omega arith))

getsize_small : (at : ℕ) (m : Mem) → getsize at m < 2 ^ 32
unfolding getsize
getsize_small at m = add_digits_small 11 at 0 1 m (omega arith)

-- A step is at least as long as a header, and goes to a multiple of 512 behind the header.
next_header_lem :
    (m : Mem) (hdr : ℕ)
    → hdr + 2 ^ 33 < word_mod
    → (hdr + 512 ≤ next_header m hdr) × (next_header m hdr < hdr + 1024 + 2 ^ 32)
unfolding next_header
next_header_lem m hdr room =
    let small = getsize_small (filesize_octal hdr) m in
    let (whole, low, high) =
      align_up_least 9 (getsize (filesize_octal hdr) m) (omega arith) (omega (arith, small)) in
    let header : add64 hdr 512 ≡ hdr + 512 = add64_small hdr 512 (omega arith) in
    rw
      (
        header,
        add64_small (hdr + 512) (align_up (getsize (filesize_octal hdr) m) 512)
            (omega (arith, small, high)),
      )
      (omega arith, omega (arith, small, high))

-- How the loop ends: the archive is unpacked, or a call at a header of the archive does not return.
pub data Ends (end : ℕ) (r : Parsed) : Type 0 where
  unpacked : (disk : Ramdisk) → r ≡ parsed disk → Ends end r
  lost : (hdr : ℕ) → hdr < end → r ≡ stuck_at hdr → Ends end r

data HandledCases (h : Handled) : Type 0 where
  goes_on : (disk : Ramdisk) → h ≡ handled disk → HandledCases h
  is_stuck : h ≡ stuck → HandledCases h

handled_cases : (h : Handled) → HandledCases h
handled_cases (handled disk) = goes_on disk refl
handled_cases stuck = is_stuck refl

module _ (inner five nought : ℕ) (areas : ℕ → Areas) (end : ℕ) where
  parse_stop :
      (fuel : ℕ) (disk : Ramdisk) (hdr : ℕ)
      → ltb hdr end ≡ false
      → parse_from (suc fuel) inner five nought areas end disk hdr ≡ parsed disk
  unfolding parse_from
  parse_stop fuel disk hdr stop = rw (parse_from, stop) refl

  parse_round :
      (fuel : ℕ) (disk disk' : Ramdisk) (hdr : ℕ)
      → ltb hdr end ≡ true
      → handle_header inner five nought (areas hdr) disk hdr ≡ handled disk'
      → parse_from (suc fuel) inner five nought areas end disk hdr
        ≡ parse_from fuel inner five nought areas end disk' (next_header disk'.mem hdr)
  unfolding parse_from
  parse_round fuel disk disk' hdr more e = rw (parse_from, more, e) refl

  parse_stuck :
      (fuel : ℕ) (disk : Ramdisk) (hdr : ℕ)
      → ltb hdr end ≡ true
      → handle_header inner five nought (areas hdr) disk hdr ≡ stuck
      → parse_from (suc fuel) inner five nought areas end disk hdr ≡ stuck_at hdr
  unfolding parse_from
  parse_stuck fuel disk hdr more e = rw (parse_from, more, e) refl

  -- A round that goes on leaves at least 512 bytes less.
  parse_from-Ends :
      (fuel : ℕ) (disk : Ramdisk) (hdr : ℕ)
      → end + 2 ^ 33 < word_mod
      → end ≤ hdr + 512 * fuel
      → Ends end (parse_from (suc fuel) inner five nought areas end disk hdr)
  parse_from-Ends zero disk hdr room enough =
      unpacked disk (parse_stop 0 disk hdr (le→ltb hdr end (omega (arith, enough))))
  parse_from-Ends (suc fuel) disk hdr room enough = elim (Bool-cases (ltb hdr end)) [
    | inr stop ↦ unpacked disk (parse_stop (suc fuel) disk hdr stop)
    | inl more ↦ elim (handled_cases (handle_header inner five nought (areas hdr) disk hdr)) [
      | is_stuck e ↦ lost hdr (ltb→lt hdr end more) (parse_stuck (suc fuel) disk hdr more e)
      | goes_on disk' e ↦
          (let before : hdr < end = ltb→lt hdr end more in
            let far = next_header_lem disk'.mem hdr (omega (arith, room)) in
            subst (Ends end) (sym (parse_round (suc fuel) disk disk' hdr more e)) (
              parse_from-Ends fuel disk' (next_header disk'.mem hdr) room
                (omega (arith, far.0, enough))))
    ]
  ]

-- The loop over the headers of an archive is never out of rounds with one round for each 512 bytes of the
-- archive and one more, whatever the archive holds: either it has come to the end, or it stands at a header
-- before the end where a lookup or a creation did not return with the fuel that it has for symbolic links and
-- strings. It says nothing of whether these return. The archive has 1024 bytes or more and does not reach into
-- the last 8 GiB of the address space.
pub parse_tar_and_populate_tmpfs-Ends :
    (fuel inner five nought : ℕ) (areas : ℕ → Areas) (address size roo : ℕ) (vs : Vnodes) (m : Mem)
    → 1024 ≤ size
    → address + size + 2 ^ 33 < word_mod
    → size ≤ 512 * fuel
    → Ends
        (address + size - 1024)
        (parse_tar_and_populate_tmpfs (suc fuel) inner five nought areas address size roo vs m)
unfolding parse_tar_and_populate_tmpfs
parse_tar_and_populate_tmpfs-Ends fuel inner five nought areas address size roo vs m whole room
      enough =
    let at_end : sub64 (add64 address size) 1024 ≡ address + size - 1024 =
      omega (arith, whole, room) in
    rw at_end (
      parse_from-Ends inner five nought areas (address + size - 1024) fuel (empty_disk vs m roo)
        address (omega (arith, room)) (omega (arith, enough)))
