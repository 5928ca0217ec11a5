-- ===== src/Syscall/Tests.antt =====
-- System calls at concrete inputs.
use nyaux.Base.{
  ℕ, List, [], ◌∷◌, ◌==◌, if◌then◌else◌, ◌+◌, ◌≤◌, ◌<◌, ◌≡◌, ◌⊎◌, ◌%◌, ◌-◌, ◌^◌, Option, none, some,
  refl, arith, inr,
}
use nyaux.Machine.{Mem, write}
use nyaux.Syscall.{Frame, System, answers, fails, put_descriptor, syscall_read, syscall_openat}
use nyaux.Fs.{
  Vnode, nyavnode_dir, tmpfs_dir, vnode_lookup, find_entry, same_name, TmpfsNode,
  allocate_fd_from_bitmap, first_free,
}
use nyaux.Syscall.Table.{IsConsistent, here, next, openat}
use nyaux.Syscall.Paths.{opened, openat_path, CanOpen, syscall_read-openat_path}
use nyaux.Path.{component, after_component}
use nyaux.Path.Split.{components}
use nyaux.Path.Resolve.{file}
use nyaux.Syscall.Opens.{Opens, Calls-openat}
use nyaux.Syscall.Files.{IsReadable, available, after_read, open_file, syscall_read_lem}

-- Ten bytes at 1000, open at descriptor 3 and read up to byte 6.
abbrev ten : TmpfsNode
ten = record { data_at = 1000; size = 10 }

abbrev bytes : Mem
bytes a = a % 256

abbrev one_file : System
one_file = record {
  descriptors = λ fd. record { ptr = some 64; offset = 6 };
  bitmap = λ fd. 1;
  vnodes = λ v. open_file ten;
  mem = bytes;
}

-- read(3, 2000, 8)
abbrev read_eight : Frame
read_eight = record { rsi = 3; rdx = 2000; r10 = 8; rax = 0 }

read_eight-IsReadable : IsReadable read_eight one_file 64 ten
read_eight-IsReadable = record {
  in_range = omega arith;
  not_stdin = omega arith;
  is_open = refl;
  is_file = refl;
  is_in_memory = record { not_empty = omega arith; in_range = omega arith };
  is_short = omega arith;
  fits = omega arith;
  is_apart = inr (omega arith);
}

syscall_read_lem_example :
    (m : Mem) × (syscall_read read_eight one_file
      ≡ some (
        answers read_eight (available read_eight one_file ten),
        after_read one_file 3 (available read_eight one_file ten) m,
      ))
    × ((i : ℕ) → i < available read_eight one_file ten → m (2000 + i) ≡ bytes (1000 + (6 + i)))
    × ((a : ℕ) → (a < 2000) ⊎ (2000 + available read_eight one_file ten ≤ a) → m a ≡ bytes a)
syscall_read_lem_example = syscall_read_lem read_eight one_file 64 ten read_eight-IsReadable

-- No descriptor is in use.
abbrev closed_table : System
closed_table = record {
  descriptors = λ fd. record { ptr = none; offset = 0 };
  bitmap = λ fd. 0;
  vnodes = λ v. open_file ten;
  mem = bytes;
}

closed_table-IsConsistent : IsConsistent closed_table
closed_table-IsConsistent fd v e = let h : ◌≡◌ {A = Option ℕ} none (some v) = e in cc

-- openat(-100, ...)
abbrev open_here : Frame
open_here = record { rsi = 2 ^ 32 - 100; rdx = 0; r10 = 0; rax = 0 }

-- The first two opens get the descriptors 2 and 3.
abbrev after_one : System
after_one = record closed_table {
  bitmap = write (write (write closed_table.bitmap 0 1) 1 1) 2 1;
  descriptors = put_descriptor closed_table.descriptors 2 (record { ptr = some 64; offset = 0 });
}

abbrev after_two : System
after_two = record after_one {
  bitmap = write after_one.bitmap 3 1;
  descriptors = put_descriptor after_one.descriptors 3 (record { ptr = some 65; offset = 0 });
}

opens_one : syscall_openat open_here closed_table (some 64) ≡ some (answers open_here 2, after_one)
unfolding syscall_openat allocate_fd_from_bitmap first_free
opens_one = refl

opens_two : syscall_openat open_here after_one (some 65) ≡ some (answers open_here 3, after_two)
unfolding syscall_openat allocate_fd_from_bitmap first_free
opens_two = refl

Calls-openat_example :
    (◌≡◌ {A = Option ℕ} (some 65) none
      × (answers open_here 3 ≡ fails open_here)
      × (after_two ≡ after_one))
    ⊎ ((v : ℕ) × (some 65 ≡ some v) × Opens open_here after_one v (answers open_here 3) after_two)
Calls-openat_example =
    Calls-openat open_here (some 65) closed_table-IsConsistent
      (next here (openat open_here (answers open_here 2) (some 64) opens_one)) opens_two

-- "/f" is the file with ten bytes; the path stands at 500.
abbrev f_path : List ℕ
f_path = 47 ∷ 102 ∷ []

abbrev top_dir : Vnode
top_dir = record {
  type = nyavnode_dir;
  payload = tmpfs_dir (record { name = 102 ∷ []; ptr_to_vnode = 3 } ∷ []);
}

abbrev small : System
small = record {
  descriptors = λ fd. record { ptr = none; offset = 0 };
  bitmap = λ fd. 0;
  vnodes = λ v. if v == 1 then top_dir else open_file ten;
  mem = write (write (write bytes 500 47) 501 102) 502 0;
}

-- openat(-100, "/f") and read(2, 2000, 8)
abbrev open_f : Frame
open_f = record { rsi = 2 ^ 32 - 100; rdx = 500; r10 = 0; rax = 0 }

abbrev read_two : Frame
read_two = record { rsi = 2; rdx = 2000; r10 = 8; rax = 0 }

abbrev std_and_two : ℕ → ℕ
std_and_two = write (write (write small.bitmap 0 1) 1 1) 2 1

small-CanOpen : CanOpen 1 1 f_path open_f small 3 2 std_and_two
unfolding components component after_component vnode_lookup find_entry same_name
    allocate_fd_from_bitmap first_free
small-CanOpen = record {
  here = refl;
  pathname = (refl, omega arith, (refl, omega arith, refl));
  resolves = file refl refl;
  allocates = refl;
}

syscall_read-openat_path_example :
    (bound : ℕ) × (m : Mem) × ((fuel : ℕ)
      → bound ≤ fuel
      → openat_path fuel 1 0 1 open_f small ≡ some (answers open_f 2, opened small 3 2 std_and_two))
    × ((sys' : System) × (syscall_read read_two (opened small 3 2 std_and_two)
          ≡ some (answers read_two 8, sys'))
        × (sys'.mem ≡ m))
    × ((i : ℕ) → i < 8 → m (2000 + i) ≡ small.mem (1000 + i))
syscall_read-openat_path_example =
    syscall_read-openat_path 1 0 1 f_path open_f read_two small 3 2 std_and_two ten small-CanOpen
      refl (record { not_empty = omega arith; in_range = omega arith }) (omega arith) refl
      (omega arith) (omega arith) (inr (omega arith))
