-- ===== src/Syscall/Table.antt =====
-- The descriptor table over any sequence of calls of kernel/src/syscall/syscall.c.
use nyaux.Base.{
  ℕ, ◌≡◌, inl, inr, arith, Option, none, some, ◌==◌, ◌&&◌, ap, ◌∙◌, ==_iff, Bool-cases, ltb,
}
use mathlib.Core.Path.{subst}
use nyaux.Machine.{Mem}
use nyaux.Libc.{minus_one}
use nyaux.Fs.{deallocate_fd_from_bitmap}
use nyaux.Syscall.{
  Frame, System, to_int, put_descriptor, fails, finish_read, read_open, end_offset, seek_end,
  in_table, seek_table, syscall_read, syscall_close, syscall_seek, syscall_openat,
}

-- A descriptor that is open has its byte set.
abbrev pub IsConsistent : System → Type 0
IsConsistent sys = (fd v : ℕ) → (sys.descriptors fd).ptr ≡ some v → sys.bitmap fd ≡ 1

-- The calls that change the table, with any arguments for which they have a result. `found` is what the path lookup gives.
pub data Call : System → System → Type 0 where
  read :
      (frame frame' : Frame) {sys sys' : System}
      → syscall_read frame sys ≡ some (frame', sys')
      → Call sys sys'
  close :
      (frame frame' : Frame) {sys sys' : System}
      → syscall_close frame sys ≡ some (frame', sys')
      → Call sys sys'
  seek :
      (frame frame' : Frame) {sys sys' : System}
      → syscall_seek frame sys ≡ some (frame', sys')
      → Call sys sys'
  openat :
      (frame frame' : Frame) (found : Option ℕ) {sys sys' : System}
      → syscall_openat frame sys found ≡ some (frame', sys')
      → Call sys sys'

pub data Calls (start : System) : System → Type 0 where
  here : Calls start start
  next : {sys sys' : System} → Calls start sys → Call sys sys' → Calls start sys'

-- A new offset changes nothing of that.
move-IsConsistent :
    (sys : System) (fd offset : ℕ)
    → IsConsistent sys
    → IsConsistent (record sys {
      descriptors =
          put_descriptor sys.descriptors fd (record (sys.descriptors fd) { offset = offset });
    })
move-IsConsistent sys fd offset is k v e = elim (Bool-cases (k == fd)) [
  | inl same ↦
      is k v (ap (λ (t : ℕ). (sys.descriptors t).ptr) ((==_iff k fd).0 same) ∙ (rw same at e))
  | inr other ↦ is k v (rw other at e)
]

finish_read-IsConsistent :
    (frame : Frame) (sys : System) (fd hm : ℕ) (m : Mem)
    → IsConsistent sys
    → IsConsistent (finish_read frame sys fd hm m).1
finish_read-IsConsistent frame sys fd hm m is = elim (Bool-cases (hm == minus_one)) [
  | inl fails ↦ rw fails is
  | inr reads ↦ rw reads (move-IsConsistent sys fd _ is)
]

read_open-IsConsistent :
    (frame : Frame) (sys : System) (fd : ℕ) (o : Option ℕ)
    → IsConsistent sys
    → IsConsistent (read_open frame sys fd o).1
read_open-IsConsistent frame sys fd none is = is
read_open-IsConsistent frame sys fd (some v) is = finish_read-IsConsistent frame sys fd _ _ is

-- What a call that may end outside an object leaves.
abbrev pub Keeps : Option (Frame × System) → Type 0
Keeps none = Unit
Keeps (some (frame, sys)) = IsConsistent sys

pub Keeps-some :
    (o : Option (Frame × System)) {frame : Frame} {sys : System}
    → o ≡ some (frame, sys)
    → Keeps o
    → IsConsistent sys
Keeps-some o e keeps = subst Keeps e keeps

in_table-Keeps : (fd : ℕ) (o : Option (Frame × System)) → Keeps o → Keeps (in_table fd o)
in_table-Keeps fd o keeps = elim (Bool-cases (ltb fd 256)) [
  | inl inside ↦ rw inside keeps
  | inr outside ↦ rw outside tt
]

pub read-Keeps : (frame : Frame) (sys : System) → IsConsistent sys → Keeps (syscall_read frame sys)
unfolding syscall_read
read-Keeps frame sys is =
    in_table-Keeps (to_int frame.rsi) _
      (elim (Bool-cases ((to_int frame.rsi == 0) && ltb 1 frame.r10)) [
        | inl stdin ↦ rw stdin is
        | inr file ↦ rw file (read_open-IsConsistent frame sys (to_int frame.rsi) _ is)
      ])

close-IsConsistent :
    (sys : System) (fd : ℕ)
    → IsConsistent sys
    → IsConsistent (record sys {
      bitmap = (deallocate_fd_from_bitmap sys.bitmap fd).1;
      descriptors = put_descriptor sys.descriptors fd (record { ptr = none; offset = 0 });
    })
unfolding deallocate_fd_from_bitmap
close-IsConsistent sys fd is k v e = elim (Bool-cases (k == fd)) [
  | inl same ↦ (let h : ◌≡◌ {A = Option ℕ} none (some v) = rw same at e in cc)
  | inr other ↦ ground (arith, is k v (rw other at e))
]

pub close-Keeps :
    (frame : Frame) (sys : System) → IsConsistent sys → Keeps (syscall_close frame sys)
unfolding syscall_close
close-Keeps frame sys is =
    in_table-Keeps (to_int frame.rsi) _ (close-IsConsistent sys (to_int frame.rsi) is)

seek_end-Keeps :
    (frame : Frame) (sys : System) (fd offset : ℕ) (o : Option ℕ)
    → IsConsistent sys
    → Keeps (seek_end frame sys fd offset o)
seek_end-Keeps frame sys fd offset none is = tt
seek_end-Keeps frame sys fd offset (some size) is = move-IsConsistent sys fd _ is

seek_table-Keeps :
    (frame : Frame) (sys : System) (fd offset flag : ℕ)
    → IsConsistent sys
    → Keeps (seek_table frame sys fd offset flag)
seek_table-Keeps frame sys fd offset flag is = elim (Bool-cases (flag == 0)) [
  | inl set ↦ rw set (move-IsConsistent sys fd _ is)
  | inr not_set ↦ elim (Bool-cases (flag == 1)) [
    | inl cur ↦ rw (not_set, cur) (move-IsConsistent sys fd _ is)
    | inr not_cur ↦ elim (Bool-cases (flag == 2)) [
      | inl end ↦
          rw (not_set, not_cur, end)
            (seek_end-Keeps frame sys fd _ (end_offset sys fd (sys.descriptors fd).ptr) is)
      | inr bad ↦ rw (not_set, not_cur, bad) is
    ]
  ]
]

pub seek-Keeps : (frame : Frame) (sys : System) → IsConsistent sys → Keeps (syscall_seek frame sys)
unfolding syscall_seek
seek-Keeps frame sys is =
    in_table-Keeps (to_int frame.rsi) _
      (seek_table-Keeps frame sys (to_int frame.rsi) (to_int frame.rdx) (to_int frame.r10) is)
