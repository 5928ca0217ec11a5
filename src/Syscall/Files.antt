-- ===== src/Syscall/Files.antt =====
-- Calls of kernel/src/syscall/syscall.c on an open file.
use nyaux.Base.{
  ℕ, ◌+◌, ◌-◌, ◌%◌, ◌^◌, ◌≤◌, ◌<◌, ◌≡◌, ◌≢◌, ◌⊎◌, some, arith, min, refl, ap, ◌∙◌, ne→==, lt→ltb,
  ==_iff,
}
use nyaux.Word.{add64_small}
use nyaux.Machine.{Mem}
use nyaux.Libc.{minus_one}
use nyaux.Fs.{Vnode, nyavnode_file, tmpfs_node, TmpfsNode, vnode_rdwr, read_file}
use nyaux.Fs.Files.{InMemory, read_file_lem}
use nyaux.Fs.Room.{Apart}
use nyaux.Syscall.{
  Frame, System, to_int, put_descriptor, answers, finish_read, read_open, syscall_read,
  syscall_seek,
}

abbrev pub open_file : TmpfsNode → Vnode
open_file file = record { type = nyavnode_file; payload = tmpfs_node file }

-- The state after a read of `count` bytes from descriptor `fd` that left the memory `m`.
abbrev pub after_read : System → (fd count : ℕ) → Mem → System
after_read sys fd count m = record sys {
  mem = m;
  descriptors =
      put_descriptor sys.descriptors fd
        (record (sys.descriptors fd) { offset = (sys.descriptors fd).offset + count });
}

-- Descriptor `fd` is open on the file `file`, whose bytes `frame` asks for from the descriptor's offset
-- on, for a buffer that is apart from them.
pub record IsReadable (frame : Frame) (sys : System) (v : ℕ) (file : TmpfsNode) : Type 0 where
  pub in_range : to_int frame.rsi < 256
  pub not_stdin : to_int frame.rsi ≢ 0
  pub is_open : (sys.descriptors (to_int frame.rsi)).ptr ≡ some v
  pub is_file : sys.vnodes v ≡ open_file file
  pub is_in_memory : InMemory file
  pub is_short : frame.r10 < 2 ^ 31
  pub fits : file.data_at + (sys.descriptors (to_int frame.rsi)).offset + frame.r10 < 2 ^ 64
  pub is_apart : Apart frame.rdx frame.r10 file.data_at file.size

rdwr_read :
    (file : TmpfsNode) (n offset buf : ℕ) (m : Mem)
    → (vnode_rdwr 0 (open_file file) n offset buf 0 m).0 ≡ (read_file file n offset buf m).0
unfolding vnode_rdwr
rdwr_read file n offset buf m = refl

rdwr_read_mem :
    (file : TmpfsNode) (n offset buf : ℕ) (m : Mem)
    → (vnode_rdwr 0 (open_file file) n offset buf 0 m).2 ≡ (read_file file n offset buf m).1
unfolding vnode_rdwr
rdwr_read_mem file n offset buf m = refl

read_unfolded :
    (frame : Frame) (sys : System) (v : ℕ) (file : TmpfsNode)
    → IsReadable frame sys v file
    → syscall_read frame sys
      ≡ some (
          finish_read frame sys
            (to_int frame.rsi)
            (vnode_rdwr 0
              (open_file file)
              frame.r10
              (sys.descriptors (to_int frame.rsi)).offset
              frame.rdx
              0
              sys.mem).0
            (vnode_rdwr 0
              (open_file file)
              frame.r10
              (sys.descriptors (to_int frame.rsi)).offset
              frame.rdx
              0
              sys.mem).2)
unfolding syscall_read
read_unfolded frame sys v file can =
    rw (lt→ltb (to_int frame.rsi) 256 can.in_range, ne→== (to_int frame.rsi) 0 can.not_stdin)
      (ap some (
        ap (read_open frame sys (to_int frame.rsi)) can.is_open
        ∙ ap
            (λ (node : Vnode).
              finish_read frame sys (to_int frame.rsi)
                (vnode_rdwr 0 node frame.r10 (sys.descriptors (to_int frame.rsi)).offset frame.rdx 0
                  sys.mem).0
                (vnode_rdwr 0 node frame.r10 (sys.descriptors (to_int frame.rsi)).offset frame.rdx 0
                  sys.mem).2)
            can.is_file))

finish_counted :
    (frame : Frame) (sys : System) (fd count : ℕ) (m : Mem)
    → count < 2 ^ 31
    → (sys.descriptors fd).offset + count < 2 ^ 64
    → finish_read frame sys fd count m ≡ (answers frame count, after_read sys fd count m)
finish_counted frame sys fd count m small room =
    rw
      (
        ne→== count minus_one (λ e. absurd (omega arith)),
        lt→ltb count (2 ^ 31) small,
        add64_small (sys.descriptors fd).offset count room,
      )
      refl

-- How many bytes a read gets.
abbrev pub available : Frame → System → TmpfsNode → ℕ
available frame sys file = min frame.r10 (file.size - (sys.descriptors (to_int frame.rsi)).offset)

-- `syscall_read` of fewer than 2 ^ 31 bytes, on a descriptor from 1 to 255 that is open on a file which is
-- not empty, answers with the number of bytes that the file has from the descriptor's offset on, up to those
-- asked for. The buffer, which is apart from the file, gets these bytes, the offset moves past them, and
-- nothing else changes.
pub syscall_read_lem :
    (frame : Frame) (sys : System) (v : ℕ) (file : TmpfsNode)
    → IsReadable frame sys v file
    → (m : Mem) × (syscall_read frame sys
        ≡ some (
          answers frame (available frame sys file),
          after_read sys (to_int frame.rsi) (available frame sys file) m,
        ))
      × ((i : ℕ)
          → i < available frame sys file
          → m (frame.rdx + i)
            ≡ sys.mem (file.data_at + ((sys.descriptors (to_int frame.rsi)).offset + i)))
      × ((a : ℕ) → (a < frame.rdx) ⊎ (frame.rdx + available frame sys file ≤ a) → m a ≡ sys.mem a)
syscall_read_lem frame sys v file can =
    let fd = to_int frame.rsi in
    let offset = (sys.descriptors fd).offset in
    let (count, bytes, same) =
      read_file_lem file frame.r10 offset frame.rdx sys.mem can.is_in_memory can.fits
        can.is_apart in
    let m = (read_file file frame.r10 offset frame.rdx sys.mem).1 in
    let small : min frame.r10 (file.size - offset) < 2 ^ 31 = omega (arith, can.is_short) in
    let as_int : min frame.r10 (file.size - offset) % 2 ^ 32 ≡ min frame.r10 (file.size - offset) =
      omega (arith, small) in
    (
      m,
      read_unfolded frame sys v file can
          ∙ ap
              (λ (r : ℕ). some (
                finish_read frame sys fd r
                  (vnode_rdwr 0 (open_file file) frame.r10 offset frame.rdx 0 sys.mem).2))
              (rdwr_read file frame.r10 offset frame.rdx sys.mem ∙ count ∙ as_int)
          ∙ ap (λ (after : Mem). some (finish_read frame sys fd (available frame sys file) after))
              (rdwr_read_mem file frame.r10 offset frame.rdx sys.mem)
          ∙ ap some (
              finish_counted frame sys fd (available frame sys file) m small
                (omega (arith, can.fits))),
      bytes,
      same,
    )

-- The call that reads where `frame` asks for after a SEEK_SET to `to`.
abbrev pub seek_frame : Frame → ℕ → Frame
seek_frame frame to = record frame { rdx = to; r10 = 0 }

-- The state once descriptor `fd` stands at `to`.
abbrev pub standing_at : System → (fd to : ℕ) → System
standing_at sys fd to = record sys {
  descriptors = put_descriptor sys.descriptors fd (record (sys.descriptors fd) { offset = to });
}

-- SEEK_SET to a position below 2 ^ 31 moves the descriptor there, so SEEK_CUR by as little forward
-- from there, without wrapping, moves it by the sum, for a descriptor of the table. Both answer with the new position.
pub syscall_seek-syscall_seek :
    (frame : Frame) (sys : System) (to by : ℕ)
    → to_int frame.rsi < 256
    → to < 2 ^ 31
    → by < 2 ^ 31
    → (syscall_seek (seek_frame frame to) sys
        ≡ some (answers (seek_frame frame to) to, standing_at sys (to_int frame.rsi) to))
      × (syscall_seek (record frame { rdx = by; r10 = 1 }) (standing_at sys (to_int frame.rsi) to)
          ≡ some (
            answers (record frame { rdx = by; r10 = 1 }) (to + by),
            standing_at (standing_at sys (to_int frame.rsi) to) (to_int frame.rsi) (to + by),
          ))
unfolding syscall_seek
syscall_seek-syscall_seek frame sys to by low small1 small2 =
    let fd = to_int frame.rsi in
    let to_same : to % 2 ^ 32 ≡ to = omega arith in
    let by_same : by % 2 ^ 32 ≡ by = omega arith in
    (
      rw (lt→ltb fd 256 low, to_same, lt→ltb to (2 ^ 31) small1) refl,
      rw
          (
            lt→ltb fd 256 low,
            (==_iff fd fd).1 refl,
            by_same,
            lt→ltb by (2 ^ 31) small2,
            add64_small to by (omega arith),
          )
          refl,
    )
