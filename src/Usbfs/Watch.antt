-- ===== src/Usbfs/Watch.antt =====
-- The watched descriptors of src/os/linux_usbfs.c: `usbyb_submit_transfer` and `usbfs_unwatch_fd`.
-- An `int` that is counted down is its 32 bits. The array has `watched_fd_capacity` cells, and the
-- empty one is NULL. Nothing here is done without the mutex of the context, so that a call is one
-- step. The kernel's answer to USBDEVFS_SUBMITURB is an argument.
pub mod Bounds
use libusby.Base.{
  decrement, ℕ, zero, suc, ◌+◌, ◌-◌, ◌*◌, ◌/◌, ◌%◌, ◌^◌, Bool, true, false, List, [], ◌∷◌, ◌++◌,
  Option, none, some, ltb, ◌==◌, if◌then◌else◌, length, get_elem?, set, replicate, Outcome, ok, err,
  fault, ◌>>=◌, Error, not_supported,
}
use libusby.Transfer.{TransferType, control, bulk, interrupt}
use libusby.Usbfs.{Errno, usbfs_error}

pub record WatchedFd : Type 0 where
  pub fd : ℕ
  pub refcount : ℕ

pub record Context : Type 0 where
  pub loop_locked : Bool
  pub watched_fds : List WatchedFd
  pub watched_fd_count : ℕ
  pub watched_fd_capacity : ℕ
  pub pipe : ℕ

-- What a submission leaves in the context and in `tran->active`.
pub record Submission : Type 0 where
  pub context : Context
  pub active : ℕ

abbrev pub deref {ℓ κ} : {A : Type ℓ} {B : Type κ} → Option A → (A → Outcome B) → Outcome B
deref none k = fault
deref (some a) k = k a

-- The last watched descriptor moves into the free place, unless none is left.
abbrev pub move_last : ℕ → Context → Outcome Context
move_last fdindex ctx =
    if ctx.watched_fd_count == 0
    then fault
    else if ctx.watched_fd_count == 1
    then ok (record ctx { watched_fd_count = 0 })
    else deref (get_elem? ctx.watched_fds (ctx.watched_fd_count - 1)) λ last. ok (record ctx {
      watched_fd_count = ctx.watched_fd_count - 1;
      watched_fds = set ctx.watched_fds fdindex last;
    })

unfoldable pub unwatch_fd : ℕ → Context → Outcome Context
unwatch_fd fdindex ctx = deref (get_elem? ctx.watched_fds fdindex) λ w.
    let ctx' = record ctx {
      watched_fds = set ctx.watched_fds fdindex (record w { refcount = decrement w.refcount });
    } in
    if decrement w.refcount == 0 then move_last fdindex ctx' else ok ctx'

-- `for (i = 0; i != ctx->watched_fd_count; ++i)` with `n` rounds left: the index where it stops.
abbrev pub find_fd : ℕ → ℕ → List WatchedFd → Outcome ℕ
find_fd zero fd fds = ok 0
find_fd (suc n) fd [] = fault
find_fd (suc n) fd (w ∷ fds) =
    let rest = find_fd n fd fds in if w.fd == fd then ok 0 else (rest >>= λ i. ok (suc i))

-- `realloc`, where the array is full. A failed one leaves NULL, and the code goes on.
abbrev pub reserve_fd : Bool → WatchedFd → Context → Context
reserve_fd succeeds junk ctx =
    let newcap = if ctx.watched_fd_capacity == 0 then 4 else ctx.watched_fd_capacity * 3 / 2 in
    if ctx.watched_fd_count == ctx.watched_fd_capacity
    then record ctx {
      watched_fd_capacity = newcap;
      watched_fds =
          if succeeds
          then ctx.watched_fds ++ replicate (newcap - length ctx.watched_fds) junk
          else [];
    }
    else ctx

-- `++ctx->watched_fd_count`, and the stores into the cell at `i`.
abbrev pub add_fd : ℕ → ℕ → Context → Outcome Context
add_fd i fd ctx =
    if ltb i (length ctx.watched_fds)
    then ok (record ctx {
      watched_fd_count = ctx.watched_fd_count + 1;
      watched_fds = set ctx.watched_fds i (record { fd = fd; refcount = 0 });
    })
    else fault

unfoldable pub watch_fd : Bool → WatchedFd → ℕ → ℕ → Context → Outcome Context
watch_fd succeeds junk fd i ctx =
    if ctx.watched_fd_count == i then add_fd i fd (reserve_fd succeeds junk ctx) else ok ctx

-- The ioctl and what follows it; the error code or 0 is the return value.
abbrev pub after_ioctl : Option Errno → ℕ → ℕ → Context → Outcome (Option Error × Submission)
after_ioctl (some e) active i ctx = unwatch_fd i ctx >>= λ ctx'.
    ok (some (usbfs_error e), record { context = ctx'; active = active })
after_ioctl none active i ctx =
    if ctx.loop_locked
    then ok (none, record { context = record ctx { pipe = ctx.pipe + 1 }; active = 1 })
    else ok (none, record { context = ctx; active = active })

abbrev pub is_submittable : TransferType → Bool
is_submittable control = true
is_submittable bulk = true
is_submittable interrupt = true
is_submittable _ = false

unfoldable pub submit_transfer :
    Bool
    → WatchedFd
    → Option Errno
    → TransferType
    → ℕ
    → ℕ
    → Context
    → Outcome (Option Error × Submission)
submit_transfer succeeds junk answer kind wrfd active ctx =
    if is_submittable kind
    then (find_fd ctx.watched_fd_count wrfd ctx.watched_fds >>= λ i.
        watch_fd succeeds junk wrfd i ctx >>= λ ctx'. after_ioctl answer active i ctx')
    else ok (some not_supported, record { context = ctx; active = active })
