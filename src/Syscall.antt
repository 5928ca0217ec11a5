-- ===== src/Syscall.antt =====
-- The system calls of kernel/src/syscall/syscall.c on descriptors and memory. A call gets its
-- arguments in registers of the frame and answers in two: `rdx` is an error, 0 or -1, and `rax` the
-- value.
pub mod Files
pub mod Table
pub mod Opens
pub mod Paths
pub mod Tests
use nyaux.Base.{
  ℕ, zero, suc, ◌+◌, ◌-◌, ◌%◌, ◌/◌, ◌^◌, Bool, ◌||◌, ◌&&◌, Option, none, some, ◌==◌, ltb,
  if◌then◌else◌, bit_and, bit_or, List,
}
use nyaux.Word.{sign_extend, add64}
use nyaux.Machine.{Mem, write, Cmd, pure, ◌>>=◌}
use nyaux.Libc.{minus_one}
use nyaux.Fs.{
  Vnode, Vnodes, put_vnode, vnode_rdwr, vnode_filesz, allocate_fd_from_bitmap,
  deallocate_fd_from_bitmap,
}
use nyaux.Vmm.Region.{vmm_region_alloc_user, mmap_range}

-- The registers of `struct syscall_frame` that the calls use.
pub record Frame : Type 0 where
  pub rsi : ℕ
  pub rdx : ℕ
  pub r10 : ℕ
  pub rax : ℕ

-- `struct FileDescriptor`; `none` is NULL.
pub record FileDescriptor : Type 0 where
  pub ptr : Option ℕ
  pub offset : ℕ

-- What the calls see: the current process's descriptors and bitmap, each of 256 entries, the vnodes and the
-- memory. The source does not check a descriptor number, and the bitmap stands right behind the table: a call
-- with a number that is not below 256 accesses memory outside of the table, and has no result here (`none`).
pub record System : Type 0 where
  pub descriptors : ℕ → FileDescriptor
  pub bitmap : ℕ → ℕ
  pub vnodes : Vnodes
  pub mem : Mem

-- The 64-bit -1, as it is stored in `rdx`.
abbrev pub failure : ℕ
failure = 2 ^ 64 - 1

-- A register as an `int`.
abbrev pub to_int : ℕ → ℕ
to_int r = r % 2 ^ 32

abbrev pub put_descriptor : (ℕ → FileDescriptor) → ℕ → FileDescriptor → ℕ → FileDescriptor
put_descriptor ds fd d k = if k == fd then d else ds k

abbrev pub fails : Frame → Frame
fails frame = record frame { rdx = failure }

abbrev pub answers : Frame → ℕ → Frame
answers frame value = record frame { rdx = 0; rax = value }

-- The read of an open vnode, once `vnode_rdwr` has returned `hm`.
abbrev pub finish_read : Frame → System → (fd hm : ℕ) → Mem → Frame × System
finish_read frame sys fd hm m = if hm == minus_one then (fails frame, record sys { mem = m }) else (
  answers frame (sign_extend hm),
  record sys {
    mem = m;
    descriptors = put_descriptor sys.descriptors fd (record (sys.descriptors fd) {
      offset = add64 (sys.descriptors fd).offset (sign_extend hm);
    });
  },
)

-- The part of `syscall_read` after the test for standard input. A read allocates nothing, so the
-- address of a new area does not matter.
abbrev pub read_open : Frame → System → (fd : ℕ) → Option ℕ → Frame × System
read_open frame sys fd none = (fails frame, sys)
read_open frame sys fd (some v) =
    let got =
      vnode_rdwr 0 (sys.vnodes v) frame.r10 (sys.descriptors fd).offset frame.rdx 0 sys.mem in
    finish_read frame sys fd got.0 got.2

-- A call on a descriptor of the table.
abbrev pub in_table : {A : Type 0} → (fd : ℕ) → Option A → Option A
in_table fd result = if ltb fd 256 then result else none

abbrev pub read_table : Frame → System → (fd : ℕ) → Frame × System
read_table frame sys fd =
    if (fd == 0) && ltb 1 frame.r10
    then (answers frame 1, record sys { mem = write sys.mem frame.rdx 10 })
    else read_open frame sys fd (sys.descriptors fd).ptr

unfoldable pub syscall_read : Frame → System → Option (Frame × System)
syscall_read frame sys = let fd = to_int frame.rsi in in_table fd (some (read_table frame sys fd))

unfoldable pub syscall_close : Frame → System → Option (Frame × System)
syscall_close frame sys =
    let fd = to_int frame.rsi in
    in_table fd (
      some (
        record frame { rdx = 0 },
        record sys {
          bitmap = (deallocate_fd_from_bitmap sys.bitmap fd).1;
          descriptors = put_descriptor sys.descriptors fd (record { ptr = none; offset = 0 });
        },
      ))

abbrev pub move_to : Frame → System → (fd to : ℕ) → Frame × System
move_to frame sys fd to = (
  answers frame to,
  record sys {
    descriptors = put_descriptor sys.descriptors fd (record (sys.descriptors fd) { offset = to });
  },
)

-- The size that SEEK_END starts from. A descriptor that is not open has a NULL vnode, and a directory
-- no size: `none`, the access is outside the object.
abbrev pub end_offset : System → (fd : ℕ) → Option ℕ → Option ℕ
end_offset sys fd none = none
end_offset sys fd (some v) = vnode_filesz (sys.vnodes v)

abbrev pub seek_end : Frame → System → (fd offset : ℕ) → Option ℕ → Option (Frame × System)
seek_end frame sys fd offset none = none
seek_end frame sys fd offset (some size) =
    some (move_to frame sys fd (sign_extend ((to_int size + offset) % 2 ^ 32)))

abbrev pub seek_table : Frame → System → (fd offset flag : ℕ) → Option (Frame × System)
seek_table frame sys fd offset flag =
    if flag == 0
    then some (move_to frame sys fd (sign_extend offset))
    else if flag == 1
    then some (move_to frame sys fd (add64 (sys.descriptors fd).offset (sign_extend offset)))
    else if flag == 2
    then seek_end frame sys fd offset (end_offset sys fd (sys.descriptors fd).ptr)
    else some (fails frame, sys)

-- `none` is an access outside an object.
unfoldable pub syscall_seek : Frame → System → Option (Frame × System)
syscall_seek frame sys =
    let fd = to_int frame.rsi in
    in_table fd (seek_table frame sys fd (to_int frame.rdx) (to_int frame.r10))

abbrev pub open_at : Frame → System → ℕ → Option (ℕ × (ℕ → ℕ)) → Option (Frame × System)
open_at frame sys v none = none
open_at frame sys v (some (fd, after)) = some (
  answers frame (sign_extend fd),
  record sys {
    bitmap = after;
    descriptors = put_descriptor sys.descriptors fd (record { ptr = some v; offset = 0 });
  },
)

abbrev pub open_found : Frame → System → Option ℕ → Option (Frame × System)
open_found frame sys (some v) = open_at frame sys v (allocate_fd_from_bitmap sys.bitmap 256)
open_found frame sys none = some (fails frame, sys)

-- `syscall_openat` for the working directory (-100), given what `vnode_path_lookup` found; for any other
-- directory it panics. `none`: the panic, or no descriptor is free, where the allocation returns no value.
unfoldable pub syscall_openat : Frame → System → (found : Option ℕ) → Option (Frame × System)
syscall_openat frame sys found =
    if to_int frame.rsi == 2 ^ 32 - 100 then open_found frame sys found else none

-- `syscall_write` sends the bytes to the terminal, whatever they are; here is what it answers.
unfoldable pub syscall_write : Frame → Frame
syscall_write frame =
    if (to_int frame.rsi == 1) || (to_int frame.rsi == 2)
    then answers frame frame.r10
    else fails frame

unfoldable pub syscall_dup : Frame → Frame
syscall_dup frame = fails frame

-- The low half of `r10` of `syscall_mmap` is the flags, the high half the protection. `map` is the
-- pagemap of the current process, 0 if there is none. Flags 0x20 are anonymous, 0x10 fixed, 0x02 private;
-- protection 4 is executable.
pub syscall_mmap : (fuel map : ℕ) → Frame → Cmd Frame
syscall_mmap fuel map frame =
    let flags = frame.r10 % 2 ^ 32 in
    let proto = frame.r10 / 2 ^ 32 % 2 ^ 32 in
    let protection = if bit_and proto 4 == 0 then 2 ^ 63 + 7 else 7 in
    let failed : Cmd Frame = pure (fails frame) in
    let anywhere : Cmd Frame = (do
      memory ← vmm_region_alloc_user fuel map frame.rdx 7
      pure (answers frame memory)) in
    let fixed : Cmd Frame = (do
      memory ← mmap_range map frame.rsi frame.rdx protection
      pure (answers frame memory)) in
    if flags == 0x20
    then (if map == 0 then failed else anywhere)
    else if (flags == 0x30) || (flags == 0x32)
    then (if map == 0 then failed else fixed)
    else failed

-- The register that `writemsr` of `syscall_fs` writes, and its value.
abbrev pub syscall_fs : Frame → ℕ × ℕ
syscall_fs frame = (0xC0000100, frame.rsi)

-- The functions that `syscall_handlers` points to.
pub data Handler : Type 0 where
  log_mlibc mmap openat read close seek fs write_fd dup : Handler

-- `RegisterSyscall`
abbrev pub register_syscall : (ℕ → Option Handler) → (syscall : ℕ) → Handler → ℕ → Option Handler
register_syscall syscall_handlers syscall func k =
    if k == syscall then some func else syscall_handlers k

unfoldable pub syscall_init : (ℕ → Option Handler) → ℕ → Option Handler
syscall_init table =
    let t0 = register_syscall table 0 log_mlibc in
    let t1 = register_syscall t0 1 mmap in
    let t2 = register_syscall t1 2 openat in
    let t3 = register_syscall t2 3 read in
    let t4 = register_syscall t3 4 close in
    let t5 = register_syscall t4 5 seek in
    let t6 = register_syscall t5 6 fs in
    let t7 = register_syscall t6 7 write_fd in register_syscall t7 8 dup
