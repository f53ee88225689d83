-- ===== src/Usbfs/Reap.antt =====
-- The event loop of src/os/linux_usbfs.c as one thread runs it: `usbfs_run_event_loop_impl`,
-- `usbyb_run_event_loop`, `usbyb_wait_for_transfer` and `usbyb_cancel_transfer`. What other threads
-- do while the mutex is given up is part of what `poll`, the callback and the waits return.
pub mod Lasting
pub mod Rounds
pub mod Waiting
pub mod Unwatched
use libusby.Base.{
  ℕ, zero, suc, ◌+◌, ◌%◌, ◌^◌, Bool, true, false, not, ◌&&◌, List, [], ◌∷◌, map, Option, none, some,
  ltb, ◌==◌, if◌then◌else◌, length, take, Outcome, ok, err, fault, stuck, ◌>>=◌, Error, io, no_mem,
  Allocator, Heap, realloc, free,
}
use libusby.Devices.Ring.{update}
use libusby.Transfer.{TransferType, TransferStatus}
use libusby.Usbfs.{Errno, usbfs_error, is_control}
use libusby.Usbfs.Watch.{WatchedFd, Context, Submission, unwatch_fd, submit_transfer}

-- The field `status` of a transfer: the code stores an error code there too.
pub data Status : Type 0 where
  transfer_status : TransferStatus → Status
  error_code : Error → Status

-- The fields of a transfer that the loop reads and writes, with `wrfd` of its handle.
pub record Tran : Type 0 where
  pub wrfd : ℕ
  pub transfer_type : TransferType
  pub status : Status
  pub actual_length : ℕ
  pub callback : Option ℕ
  pub active : ℕ

-- A request that the kernel is done with: the transfer in its `usercontext`, and what it wrote.
pub record Urb : Type 0 where
  pub usercontext : ℕ
  pub status : ℕ
  pub actual_length : ℕ

pub record Looping {ℓ} (S : Type ℓ) : Type ℓ where
  pub loop_enabled : Bool
  pub context : Context
  pub trans : ℕ → Tran
  pub heap : Heap
  pub system : S

-- `poll` says which descriptors are ready, by their index, the pipe behind the others; `reap` is
-- USBDEVFS_REAPURBNDELAY and `discard` USBDEVFS_DISCARDURB. The waits are those for `ctx_cond` and
-- for the condition of a transfer.
pub record Environment {ℓ} (S : Type ℓ) : Type ℓ where
  pub poll : List ℕ → Looping S → Option (ℕ → Bool) × Looping S
  pub reap : ℕ → Looping S → Option Urb × Looping S
  pub discard : ℕ → Looping S → Option Errno × Looping S
  pub read_pipe : Looping S → Bool × Looping S
  pub callback : ℕ → Looping S → Looping S
  pub wait_for_loop : Looping S → Looping S
  pub wait_for_cond : ℕ → Looping S → Looping S

unfoldable pub store_urb : Urb → Tran → Tran
store_urb u t = record t {
  actual_length =
      if is_control t.transfer_type then (u.actual_length + 8) % 2 ^ 32 else u.actual_length;
  status = if u.status == 0 then t.status else error_code io;
}

abbrev pub with_active : ℕ → Tran → Tran
with_active n t = record t { active = n }

abbrev pub change {ℓ} : {S : Type ℓ} → ℕ → (Tran → Tran) → Looping S → Looping S
change tran f s = record s { trans = update s.trans tran (f (s.trans tran)) }

-- `if (tran->active == 2)`
abbrev pub finish_active {ℓ} : {S : Type ℓ} → ℕ → Looping S → Looping S
finish_active tran s = if (s.trans tran).active == 2 then change tran (with_active 0) s else s

abbrev pub with_context {ℓ} : {S : Type ℓ} → Looping S → Context → Looping S
with_context s ctx = record s { context = ctx }

abbrev pub lock_loop {ℓ} : {S : Type ℓ} → Bool → Looping S → Looping S
lock_loop b s = with_context s (record s.context { loop_locked = b })

-- `realloc` of `pollfds`, which is NULL where its capacity is 0.
abbrev pub reserve_pollfds : Allocator → ℕ → ℕ → Heap → Bool × Heap
reserve_pollfds succeeds capacity count h =
    if ltb capacity (count + 1) then realloc succeeds (capacity == 0) h else (true, h)

abbrev pub new_cap : ℕ → ℕ → ℕ
new_cap capacity count = if ltb capacity (count + 1) then count + 1 else capacity

-- `free(pollfds)` and what follows it.
abbrev pub leave_loop {ℓ} : {S : Type ℓ} → Outcome ℕ → ℕ → Looping S → Outcome ℕ × Looping S
leave_loop r capacity s =
    (r, lock_loop false (record s { heap = if capacity == 0 then s.heap else free s.heap }))

-- `!watch_tran || watch_tran->active`
abbrev pub awaits {ℓ} : {S : Type ℓ} → Option ℕ → Looping S → Bool
awaits none s = true
awaits (some tran) s = not ((s.trans tran).active == 0)

abbrev pub polled_fds : Context → List ℕ
polled_fds ctx = map (λ (w : WatchedFd). w.fd) (take ctx.watched_fd_count ctx.watched_fds)

module _ {ℓ} {S : Type ℓ} (k : Environment S) where
  -- `if (tran->pub.callback)`
  abbrev pub run_callback : Option ℕ → ℕ → Looping S → Looping S
  run_callback none tran s = s
  run_callback (some function) tran s = k.callback tran s

  -- What follows the ioctl for the descriptor at `i`.
  unfoldable pub reap_urb : ℕ → Urb → Looping S → Outcome (Looping S)
  reap_urb i u s =
      let tran = u.usercontext in
      let s = change tran (λ t. with_active 2 (store_urb u t)) s in
      let s = finish_active tran (run_callback (s.trans tran).callback tran s) in
      unwatch_fd i s.context >>= λ ctx. ok (with_context s ctx)

  abbrev pub reaped : ℕ → Option Urb × Looping S → Outcome (Looping S)
  reaped i (none, s) = ok s
  reaped i (some u, s) = reap_urb i u s

  abbrev pub reap_at : (ℕ → Bool) → ℕ → ℕ → Looping S → Outcome (Looping S)
  reap_at ready i fd s = if ready i then reaped i (k.reap fd s) else ok s

  -- `for (i = 0; i < fdcount; ++i)` over the descriptors from `i` on.
  unfoldable pub reap_all : (ℕ → Bool) → ℕ → List ℕ → Looping S → Outcome (Looping S)
  reap_all ready i [] s = ok s
  reap_all ready i (fd ∷ fds) s = reap_at ready i fd s >>= λ s. reap_all ready (suc i) fds s

  abbrev pub read_done : Bool × Looping S → Option Error × Looping S
  read_done (true, s) = (none, s)
  read_done (false, s) = (some io, s)

  abbrev pub read_ready : Bool → Looping S → Option Error × Looping S
  read_ready b s = if b then read_done (k.read_pipe s) else (none, s)

  -- From the test of what `poll` returned on: the error that ends the loop, or none.
  abbrev pub after_poll :
      List ℕ → Option (ℕ → Bool) × Looping S → Outcome (Option Error × Looping S)
  after_poll fds (none, s) = ok (some io, s)
  after_poll fds (some ready, s) =
      reap_all ready 0 fds s >>= λ s. ok (read_ready (ready (length fds)) s)

  abbrev pub go_on :
      (Looping S → Outcome ℕ × Looping S)
      → ℕ
      → Looping S
      → Outcome (Option Error × Looping S)
      → Outcome ℕ × Looping S
  go_on again capacity s (ok (none, s')) = again s'
  go_on again capacity s (ok (some e, s')) = leave_loop (err e) capacity s'
  go_on again capacity s _ = (fault, s)

  abbrev pub poll_round :
      (ℕ → Looping S → Outcome ℕ × Looping S) → ℕ → Bool × Heap → Looping S → Outcome ℕ × Looping S
  poll_round again capacity (made, h) s =
      let s = record s { heap = h } in
      let capacity' = new_cap capacity s.context.watched_fd_count in
      let fds = polled_fds s.context in
      if not made
      then leave_loop (err no_mem) capacity s
      else if ltb (length s.context.watched_fds) s.context.watched_fd_count
      then (fault, s)
      else go_on (again capacity') capacity' s (after_poll fds (k.poll fds s))

  module _ (succeeds : Allocator) where
    unfoldable pub poll_loop : ℕ → Option ℕ → ℕ → Looping S → Outcome ℕ × Looping S
    poll_loop zero watch_tran capacity s = (stuck, s)
    poll_loop (suc fuel) watch_tran capacity s =
        if awaits watch_tran s && s.loop_enabled
        then poll_round (poll_loop fuel watch_tran) capacity
            (reserve_pollfds succeeds capacity s.context.watched_fd_count s.heap) s
        else leave_loop (ok 0) capacity s

    -- `while (ctx->loop_enabled && ctx->loop_locked)`
    abbrev pub await_loop :
        ℕ → (Looping S → Outcome ℕ × Looping S) → Looping S → Outcome ℕ × Looping S
    await_loop zero enter s = (stuck, s)
    await_loop (suc fuel) enter s =
        let rest = await_loop fuel enter (k.wait_for_loop s) in
        if s.loop_enabled && s.context.loop_locked then rest else enter (lock_loop true s)

    unfoldable pub run_event_loop_impl : ℕ → Option ℕ → Looping S → Outcome ℕ × Looping S
    run_event_loop_impl fuel watch_tran s = await_loop fuel (poll_loop fuel watch_tran 0) s

    unfoldable pub run_event_loop : ℕ → Looping S → Outcome ℕ × Looping S
    run_event_loop fuel s = run_event_loop_impl fuel none s

    -- `while (tran->active)`, where the loop has returned.
    abbrev pub await_tran : ℕ → ℕ → Outcome ℕ → Looping S → Outcome ℕ × Looping S
    await_tran zero tran r s = (stuck, s)
    await_tran (suc fuel) tran r s =
        let rest = await_tran fuel tran r (k.wait_for_cond tran s) in
        if (s.trans tran).active == 0 then (r, s) else rest

    abbrev pub then_await : ℕ → ℕ → Outcome ℕ × Looping S → Outcome ℕ × Looping S
    then_await fuel tran (ok n, s) = await_tran fuel tran (ok n) s
    then_await fuel tran (err e, s) = await_tran fuel tran (err e) s
    then_await fuel tran (fault, s) = (fault, s)
    then_await fuel tran (stuck, s) = (stuck, s)

    unfoldable pub wait_for_transfer : ℕ → ℕ → Looping S → Outcome ℕ × Looping S
    wait_for_transfer fuel tran s =
        if s.context.loop_locked
        then await_tran fuel tran (ok 0) s
        else then_await fuel tran (run_event_loop_impl fuel (some tran) s)

  abbrev pub discarded : Option Errno × Looping S → Outcome ℕ × Looping S
  discarded (none, s) = (ok 0, s)
  discarded (some e, s) = (err (usbfs_error e), s)

  unfoldable pub cancel_transfer : ℕ → Looping S → Outcome ℕ × Looping S
  cancel_transfer tran s = discarded (k.discard tran s)

-- `usbyb_submit_transfer` with the answer of the kernel, in the state of the loop.
unfoldable pub submit_tran {ℓ} :
    {S : Type ℓ}
    → Bool
    → WatchedFd
    → Option Errno
    → ℕ
    → Looping S
    → Outcome (Option Error × Looping S)
submit_tran succeeds junk answer tran s =
    let t = s.trans tran in
    submit_transfer succeeds junk answer t.transfer_type t.wrfd t.active s.context >>= λ r.
    ok (r.0, change tran (with_active (r.1).active) (with_context s (r.1).context))
