-- ===== src/Syscall/Paths.antt =====
-- `syscall_openat` of kernel/src/syscall/syscall.c together with the lookup of its path, and a read of what it
-- opened.
use mathlib.Core.Path.{subst}
use nyaux.Base.{
  ℕ, suc, ◌+◌, ◌-◌, ◌^◌, ◌≤◌, ◌<◌, ◌≡◌, ◌≢◌, Option, none, some, List, arith, min, refl, ap, sym,
  ◌∙◌, ==_iff, length, false, lt→ltb,
}
use nyaux.Word.{sign_extend}
use nyaux.Machine.{Mem}
use nyaux.Fs.{TmpfsNode, allocate_fd_from_bitmap}
use nyaux.Fs.Bitmap.{Allocated, allocate_fd_from_bitmap_lem}
use nyaux.Fs.Files.{InMemory}
use nyaux.Fs.Room.{Apart}
use nyaux.Path.{Tree, Looked, returns, out_of_fuel, starting_vnode, string_at, vnode_path_lookup}
use nyaux.Path.Split.{components}
use nyaux.Path.Resolve.{Resolves, IsCString, IsCString-NoNul, string_at_lem}
use nyaux.Path.Sound.{vnode_path_lookup_lem}
use nyaux.Syscall.{
  Frame, System, FileDescriptor, to_int, put_descriptor, answers, syscall_openat, syscall_read,
  open_at,
}
use nyaux.Syscall.Files.{after_read, open_file, available, syscall_read_lem}

-- What a lookup sees. `top` is where an absolute path starts.
abbrev pub tree : System → (top : ℕ) → Tree
tree sys top = record { vnodes = sys.vnodes; mem = sys.mem; top = top }

abbrev pub openat_found : Frame → System → Looked → Option (Frame × System)
openat_found frame sys (returns found last) = syscall_openat frame sys found
openat_found frame sys out_of_fuel = none

abbrev pub openat_named :
    (fuel top beyond cwd : ℕ) → Frame → System → Option (List ℕ) → Option (Frame × System)
openat_named fuel top beyond cwd frame sys none = none
openat_named fuel top beyond cwd frame sys (some path) =
    openat_found frame sys (vnode_path_lookup fuel (tree sys top) beyond cwd path false false)

-- The whole call, from the working directory `cwd`, with the path at `rdx`.
unfoldable pub openat_path : (fuel top beyond cwd : ℕ) → Frame → System → Option (Frame × System)
openat_path fuel top beyond cwd frame sys =
    openat_named fuel top beyond cwd frame sys (string_at fuel sys.mem frame.rdx)

-- The state once descriptor `fd` is open on `v`.
abbrev pub opened : System → (v fd : ℕ) → (ℕ → ℕ) → System
opened sys v fd after = record sys {
  bitmap = after;
  descriptors = put_descriptor sys.descriptors fd (record { ptr = some v; offset = 0 });
}

-- A call that opens the file `file`, which stands at the path, with a free descriptor `fd`.
pub record CanOpen (top cwd : ℕ) (path : List ℕ) (frame : Frame) (sys : System) (v fd : ℕ)
    (after : ℕ → ℕ) : Type 0 where
  pub here : to_int frame.rsi ≡ 2 ^ 32 - 100
  pub pathname : IsCString sys.mem frame.rdx path
  pub resolves :
      Resolves (tree sys top) (starting_vnode (tree sys top) cwd path) (components path) (some v)
  pub allocates : allocate_fd_from_bitmap sys.bitmap 256 ≡ some (fd, after)

low_fd :
    (bitmap : ℕ → ℕ) (fd : ℕ) (after : ℕ → ℕ)
    → allocate_fd_from_bitmap bitmap 256 ≡ some (fd, after)
    → fd < 256
low_fd bitmap fd after e =
    (subst (Allocated bitmap 256) e (allocate_fd_from_bitmap_lem bitmap 256)).0

openat_lem :
    (frame : Frame) (sys : System) (v fd : ℕ) (after : ℕ → ℕ)
    → to_int frame.rsi ≡ 2 ^ 32 - 100
    → allocate_fd_from_bitmap sys.bitmap 256 ≡ some (fd, after)
    → syscall_openat frame sys (some v) ≡ some (answers frame fd, opened sys v fd after)
unfolding syscall_openat
openat_lem frame sys v fd after here allocates =
    let int_fd : sign_extend fd ≡ fd =
      rw (lt→ltb fd (2 ^ 31) (omega (arith, low_fd sys.bitmap fd after allocates))) refl in
    rw ((==_iff (to_int frame.rsi) (2 ^ 32 - 100)).1 here) (
      ap (open_at frame sys v) allocates
      ∙ ap (λ (n : ℕ). some (answers frame n, opened sys v fd after)) int_fd)

-- An open by path returns, with every fuel from some on, and its answer is the free descriptor.
openat_path-CanOpen :
    (top beyond cwd : ℕ) (path : List ℕ) (frame : Frame) (sys : System) (v fd : ℕ) (after : ℕ → ℕ)
    → CanOpen top cwd path frame sys v fd after
    → (bound : ℕ) × ((fuel : ℕ)
        → bound ≤ fuel
        → openat_path fuel top beyond cwd frame sys
          ≡ some (answers frame fd, opened sys v fd after))
unfolding openat_path
openat_path-CanOpen top beyond cwd path frame sys v fd after can =
    let (n, finds) =
      (vnode_path_lookup_lem (tree sys top) beyond cwd path (some v)
          (IsCString-NoNul sys.mem frame.rdx path can.pathname)).0
        can.resolves in
    (
      n + suc (length path),
      λ fuel enough.
          let split : fuel ≡ n + (fuel - n) = omega arith in
          let found : vnode_path_lookup fuel (tree sys top) beyond cwd path false false
              ≡ returns (some v) none =
            subst
              (λ (k : ℕ).
                vnode_path_lookup k (tree sys top) beyond cwd path false false
                ≡ returns (some v) none)
              (sym split) (finds (fuel - n)) in
          let name = string_at_lem fuel sys.mem frame.rdx path can.pathname (omega arith) in
          ap (openat_named fuel top beyond cwd frame sys) name
          ∙ ap (openat_found frame sys) found
          ∙ openat_lem frame sys v fd after can.here can.allocates,
    )

-- A file is opened by its path and read from the start: the open returns, with every fuel from some on,
-- and a read from the descriptor that it answers with gets the first bytes of the file, as many as were
-- asked for and are there. The path leads to the file, a descriptor is free and not that of the standard
-- input, and the buffer is apart from the file.
pub syscall_read-openat_path :
    (top beyond cwd : ℕ) (path : List ℕ) (frame reader : Frame) (sys : System) (v fd : ℕ)
    (after : ℕ → ℕ) (file : TmpfsNode)
    → CanOpen top cwd path frame sys v fd after
    → sys.vnodes v ≡ open_file file
    → InMemory file
    → fd ≢ 0
    → to_int reader.rsi ≡ fd
    → reader.r10 < 2 ^ 31
    → file.data_at + reader.r10 < 2 ^ 64
    → Apart reader.rdx reader.r10 file.data_at file.size
    → (bound : ℕ) × (m : Mem) × ((fuel : ℕ)
        → bound ≤ fuel
        → openat_path fuel top beyond cwd frame sys
          ≡ some (answers frame fd, opened sys v fd after))
      × ((sys' : System) × (syscall_read reader (opened sys v fd after)
            ≡ some (answers reader (min reader.r10 file.size), sys'))
          × (sys'.mem ≡ m))
      × ((i : ℕ) → i < min reader.r10 file.size → m (reader.rdx + i) ≡ sys.mem (file.data_at + i))
syscall_read-openat_path top beyond cwd path frame reader sys v fd after file can is_file inside
      not_stdin same short fits apart =
    let (bound, returns_answer) =
      openat_path-CanOpen top beyond cwd path frame sys v fd after can in
    let open_sys = opened sys v fd after in
    let put : open_sys.descriptors (to_int reader.rsi) ≡ record { ptr = some v; offset = 0 } =
      rw ((==_iff (to_int reader.rsi) fd).1 same) refl in
    let at_start : (open_sys.descriptors (to_int reader.rsi)).offset ≡ 0 =
      ap (λ (d : FileDescriptor). d.offset) put in
    let (m, ran, bytes, _) = syscall_read_lem reader open_sys v file (record {
      in_range = omega (arith, same, low_fd sys.bitmap fd after can.allocates);
      not_stdin = λ e. not_stdin (sym same ∙ e);
      is_open = ap (λ (d : FileDescriptor). d.ptr) put;
      is_file = is_file;
      is_in_memory = inside;
      is_short = short;
      fits = omega (arith, at_start, fits);
      is_apart = apart;
    }) in
    let count : available reader open_sys file ≡ min reader.r10 file.size =
      omega (arith, at_start) in
    (
      bound,
      m,
      returns_answer,
      (
        after_read open_sys (to_int reader.rsi) (available reader open_sys file) m,
        ran
            ∙ ap
                (λ (n : ℕ). some (
                  answers reader n,
                  after_read open_sys (to_int reader.rsi) (available reader open_sys file) m,
                ))
                count,
        refl,
      ),
      λ i low. bytes i (omega (arith, count, low)) ∙ ap sys.mem (omega (arith, at_start)),
    )
