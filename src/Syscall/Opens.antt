-- ===== src/Syscall/Opens.antt =====
-- Opens of kernel/src/syscall/syscall.c in the state that a sequence of calls leaves.
use nyaux.Base.{
  ℕ, ◌<◌, ◌≡◌, ◌≢◌, ◌⊎◌, inl, inr, ◌^◌, arith, Option, none, some, ◌==◌, ◌&&◌, refl, ap, sym, ◌∙◌,
  ne→==, ==→ne, ◌-◌, ==_iff, Bool-cases,
}
use mathlib.Core.Path.{subst}
use nyaux.Fs.{reserve_std, allocate_fd_from_bitmap}
use nyaux.Fs.Bitmap.{Allocated, allocate_fd_from_bitmap_lem}
use nyaux.Word.{sign_extend}
use nyaux.Syscall.{
  Frame, System, to_int, put_descriptor, answers, fails, open_at, open_found, syscall_read,
  syscall_close, syscall_seek, syscall_openat,
}
use nyaux.Syscall.Table.{
  IsConsistent, Call, Calls, read, close, seek, openat, here, next, read-Keeps, close-Keeps,
  Keeps-some, seek-Keeps,
}

-- What an allocation that succeeds gives: a descriptor that was closed.
abbrev Fresh : System → Option (ℕ × (ℕ → ℕ)) → Type 0
Fresh sys none = Unit
Fresh sys (some (fd, after)) =
    (fd < 256)
    × ((sys.descriptors fd).ptr ≡ none)
    × (after fd ≡ 1)
    × ((k : ℕ) → sys.bitmap k ≡ 1 → after k ≡ 1)

reserve_std_keeps : (bitmap : ℕ → ℕ) (k : ℕ) → bitmap k ≡ 1 → reserve_std bitmap k ≡ 1
reserve_std_keeps bitmap k set_before = elim (Bool-cases ((bitmap 0 == 0) && (bitmap 1 == 0))) [
  | inl first ↦ rw first (ground arith)
  | inr later ↦ rw later set_before
]

is_closed :
    (sys : System) (fd : ℕ) (o : Option ℕ)
    → IsConsistent sys
    → (sys.descriptors fd).ptr ≡ o
    → sys.bitmap fd ≢ 1
    → o ≡ none
is_closed sys fd none is e clear = refl
is_closed sys fd (some v) is e clear = absurd (clear (is fd v e))

Fresh-Allocated :
    (sys : System) (o : Option (ℕ × (ℕ → ℕ)))
    → IsConsistent sys
    → Allocated sys.bitmap 256 o
    → Fresh sys o
Fresh-Allocated sys none is taken = tt
Fresh-Allocated sys (some (fd, after)) is (low, clear, before, set_now, others) = (
  low,
  is_closed sys fd (sys.descriptors fd).ptr is refl
      (λ e. absurd (omega (arith, clear, reserve_std_keeps sys.bitmap fd e))),
  set_now,
  λ k e. elim (Bool-cases (k == fd)) [
    | inl same ↦ ap after ((==_iff k fd).0 same) ∙ set_now
    | inr other ↦ others k (==→ne k fd other) ∙ reserve_std_keeps sys.bitmap k e
  ],
)

-- An open that succeeds answers with a descriptor that was closed, and opens it.
pub data Opens (frame : Frame) (sys : System) (v : ℕ) (frame' : Frame) (sys' : System)
    : Type 0 where
  opens :
      (fd : ℕ)
      → fd < 256
      → frame' ≡ answers frame (sign_extend fd)
      → (sys.descriptors fd).ptr ≡ none
      → sys'.descriptors fd ≡ record { ptr = some v; offset = 0 }
      → ((k : ℕ) → k ≢ fd → sys'.descriptors k ≡ sys.descriptors k)
      → IsConsistent sys'
      → Opens frame sys v frame' sys'

abbrev OpensOr : Frame → System → ℕ → Option (Frame × System) → Type 0
OpensOr frame sys v none = Unit
OpensOr frame sys v (some (frame', sys')) = Opens frame sys v frame' sys'

open_at-Opens :
    (frame : Frame) (sys : System) (v : ℕ) (o : Option (ℕ × (ℕ → ℕ)))
    → IsConsistent sys
    → Fresh sys o
    → OpensOr frame sys v (open_at frame sys v o)
open_at-Opens frame sys v none is fresh = tt
open_at-Opens frame sys v (some (fd, after)) is (low, closed, set_now, kept) =
    let put_same : put_descriptor sys.descriptors fd (record { ptr = some v; offset = 0 }) fd
        ≡ record { ptr = some v; offset = 0 } =
      rw ((==_iff fd fd).1 refl) refl in
    let put_other : (k : ℕ)
        → k ≢ fd
        → put_descriptor sys.descriptors fd (record { ptr = some v; offset = 0 }) k
          ≡ sys.descriptors k =
      λ k other. rw (ne→== k fd other) refl in
    let still : IsConsistent (record sys {
      bitmap = after;
      descriptors = put_descriptor sys.descriptors fd (record { ptr = some v; offset = 0 });
    }) =
      (λ k w e. elim (Bool-cases (k == fd)) [
        | inl same ↦ ap after ((==_iff k fd).0 same) ∙ set_now
        | inr other ↦ kept k (is k w (rw other at e))
      ]) in
    opens fd low refl closed put_same put_other still

open_found-Opens :
    (frame : Frame) (sys : System) (found : Option ℕ) {frame' : Frame} {sys' : System}
    → IsConsistent sys
    → open_found frame sys found ≡ some (frame', sys')
    → ((found ≡ none) × (frame' ≡ fails frame) × (sys' ≡ sys))
      ⊎ ((v : ℕ) × (found ≡ some v) × Opens frame sys v frame' sys')
open_found-Opens frame sys none {frame' = frame'} {sys' = sys'} is e =
    let same : (frame', sys') ≡ (fails frame, sys) = cc in
    inl (refl, ap (λ (r : Frame × System). r.0) same, ap (λ (r : Frame × System). r.1) same)
open_found-Opens frame sys (some v) is e = inr (
  v,
  refl,
  subst (OpensOr frame sys v) e (
      open_at-Opens frame sys v (allocate_fd_from_bitmap sys.bitmap 256) is (
        Fresh-Allocated sys (allocate_fd_from_bitmap sys.bitmap 256) is
          (allocate_fd_from_bitmap_lem sys.bitmap 256))),
)

-- What an open may do in a consistent state.
openat-Opens :
    (frame : Frame) (sys : System) (found : Option ℕ) {frame' : Frame} {sys' : System}
    → IsConsistent sys
    → syscall_openat frame sys found ≡ some (frame', sys')
    → ((found ≡ none) × (frame' ≡ fails frame) × (sys' ≡ sys))
      ⊎ ((v : ℕ) × (found ≡ some v) × Opens frame sys v frame' sys')
unfolding syscall_openat
openat-Opens frame sys found {frame' = frame'} {sys' = sys'} is e =
    elim (Bool-cases (to_int frame.rsi == 2 ^ 32 - 100)) [
      | inl here_dir ↦ open_found-Opens frame sys found is (rw here_dir at e)
      | inr other ↦
          (let h : ◌≡◌ {A = Option (Frame × System)} none (some (frame', sys')) = rw other at e in
            cc)
    ]

after_open-IsConsistent :
    {frame : Frame} {sys : System} {found : Option ℕ} {frame' : Frame} {sys' : System}
    → IsConsistent sys
    → ((found ≡ none) × (frame' ≡ fails frame) × (sys' ≡ sys))
      ⊎ ((v : ℕ) × (found ≡ some v) × Opens frame sys v frame' sys')
    → IsConsistent sys'
after_open-IsConsistent is (inl (n, f, same)) = subst IsConsistent (sym same) is
after_open-IsConsistent is (inr (v, f, opens fd low ans closed is_open others still)) = still

Call-IsConsistent : {sys sys' : System} → Call sys sys' → IsConsistent sys → IsConsistent sys'
Call-IsConsistent (read frame frame' {sys = sys} e) is =
    Keeps-some (syscall_read frame sys) e (read-Keeps frame sys is)
Call-IsConsistent (close frame frame' {sys = sys} e) is =
    Keeps-some (syscall_close frame sys) e (close-Keeps frame sys is)
Call-IsConsistent (seek frame frame' {sys = sys} e) is =
    Keeps-some (syscall_seek frame sys) e (seek-Keeps frame sys is)
Call-IsConsistent (openat frame frame' found {sys = sys} e) is =
    after_open-IsConsistent is (openat-Opens frame sys found is e)

-- Whatever sequence of calls on descriptors of the table a process makes, and whatever its opens found, a
-- descriptor that is open has its byte of the bitmap set, if that was so at the start.
pub Calls-IsConsistent :
    {start sys : System} → IsConsistent start → Calls start sys → IsConsistent sys
Calls-IsConsistent is here = is
Calls-IsConsistent is (next calls call) = Call-IsConsistent call (Calls-IsConsistent is calls)

-- After any sequence of reads, closes, seeks and opens, with descriptor numbers below 256, from a state where
-- every open descriptor is marked in the bitmap, an open that returns either did not find its path, fails and
-- changes nothing, or it answers with a descriptor below 256 that was closed, which is now open on the vnode
-- found at offset 0, and leaves all other descriptors alone. Calls with numbers from 256 on, which the source
-- lets through to the memory behind the table, are not among them.
pub Calls-openat :
    {start sys : System} (frame : Frame) (found : Option ℕ) {frame' : Frame} {sys' : System}
    → IsConsistent start
    → Calls start sys
    → syscall_openat frame sys found ≡ some (frame', sys')
    → ((found ≡ none) × (frame' ≡ fails frame) × (sys' ≡ sys))
      ⊎ ((v : ℕ) × (found ≡ some v) × Opens frame sys v frame' sys')
Calls-openat {sys = sys} frame found is calls e =
    openat-Opens frame sys found (Calls-IsConsistent is calls) e
