-- ===== src/Usbfs/Loop.antt =====
-- The lock of the event loop of src/os/linux_usbfs.c: `usbyb_run_event_loop`,
-- `usbyb_wait_for_transfer`, `usbyb_stop_event_loop` and `usbyb_reset_event_loop`, by several threads.
-- A step is what one thread does between taking `ctx_mutex` and giving it up; a thread that polls has
-- given it up. `quiet` says when the program resets the loop. Of a submission and of a request that
-- is reaped the state has the field `active` of the transfer.
pub mod Exclusion
pub mod Stranded
use libusby.Base.{ℕ, ◌≡◌, Bool, true, false, not, ◌&&◌, Option, none, some, ◌==◌, if◌then◌else◌}
use libusby.Devices.Ring.{update}

-- Where a thread is: in no call, in `pthread_cond_wait` for the loop, in `poll`, or in
-- `pthread_cond_wait` for a transfer. The first two waits know `watch_tran`.
pub data Phase : Type 0 where
  outside : Phase
  waiting polling : Option ℕ → Phase
  awaiting : ℕ → Phase

pub record Threads : Type 0 where
  pub loop_enabled : Bool
  pub loop_locked : Bool
  pub active : ℕ → ℕ
  pub phase : ℕ → Phase

abbrev pub with_phase : Threads → ℕ → Phase → Threads
with_phase s thread p = record s { phase = update s.phase thread p }

abbrev pub with_lock : Bool → Threads → Threads
with_lock b s = record s { loop_locked = b }

-- `while (tran->active)` of `usbyb_wait_for_transfer`.
abbrev pub await_tran : ℕ → Threads → Phase
await_tran tran s = if s.active tran == 0 then outside else awaiting tran

-- What follows the loop.
abbrev pub after_loop : Option ℕ → Threads → Phase
after_loop none s = outside
after_loop (some tran) s = await_tran tran s

-- `!watch_tran || watch_tran->active`
abbrev pub is_awaited : Option ℕ → Threads → Bool
is_awaited none s = true
is_awaited (some tran) s = not (s.active tran == 0)

abbrev pub leave_loop : ℕ → Option ℕ → Threads → Threads
leave_loop thread watch_tran s = with_phase (with_lock false s) thread (after_loop watch_tran s)

-- From the test of the first loop on.
unfoldable pub enter_loop : ℕ → Option ℕ → Threads → Threads
enter_loop thread watch_tran s =
    if s.loop_enabled && s.loop_locked
    then with_phase s thread (waiting watch_tran)
    else if is_awaited watch_tran s && s.loop_enabled
    then with_phase (with_lock true s) thread (polling watch_tran)
    else leave_loop thread watch_tran s

-- After a round: the loop goes on where `r` is not an error and its tests hold.
unfoldable pub end_round : (failed : Bool) → ℕ → Option ℕ → Threads → Threads
end_round failed thread watch_tran s =
    if failed
    then leave_loop thread watch_tran s
    else if is_awaited watch_tran s && s.loop_enabled
    then s
    else leave_loop thread watch_tran s

unfoldable pub wait_for_transfer : ℕ → ℕ → Threads → Threads
wait_for_transfer thread tran s =
    if s.loop_locked
    then with_phase s thread (await_tran tran s)
    else enter_loop thread (some tran) s

-- A request is reaped, and its callback may submit the transfer again.
abbrev pub reap_tran : (again : Bool) → ℕ → Threads → Threads
reap_tran again tran s = record s { active = update s.active tran (if again then 1 else 0) }

abbrev pub submit_tran : ℕ → Threads → Threads
submit_tran tran s = record s {
  active = update s.active tran (if s.loop_locked then 1 else s.active tran);
}

abbrev pub stop_loop : Threads → Threads
stop_loop s = record s { loop_enabled = false }

abbrev pub reset_loop : Threads → Threads
reset_loop s = record s { loop_enabled = true }

pub data Step (quiet : Threads → Type 0) : Threads → Threads → Type 0 where
  run :
      (thread : ℕ) (s : Threads)
      → s.phase thread ≡ outside
      → Step quiet s (enter_loop thread none s)
  wait :
      (thread tran : ℕ) (s : Threads)
      → s.phase thread ≡ outside
      → Step quiet s (wait_for_transfer thread tran s)
  submit : (tran : ℕ) (s : Threads) → Step quiet s (submit_tran tran s)
  wake :
      (thread : ℕ) (watch_tran : Option ℕ) (s : Threads)
      → s.phase thread ≡ waiting watch_tran
      → Step quiet s (enter_loop thread watch_tran s)
  reap :
      (again : Bool) (thread tran : ℕ) (watch_tran : Option ℕ) (s : Threads)
      → s.phase thread ≡ polling watch_tran
      → Step quiet s (reap_tran again tran s)
  round :
      (failed : Bool) (thread : ℕ) (watch_tran : Option ℕ) (s : Threads)
      → s.phase thread ≡ polling watch_tran
      → Step quiet s (end_round failed thread watch_tran s)
  resume :
      (thread tran : ℕ) (s : Threads)
      → s.phase thread ≡ awaiting tran
      → Step quiet s (with_phase s thread (await_tran tran s))
  stop : (s : Threads) → Step quiet s (stop_loop s)
  reset : (s : Threads) → quiet s → Step quiet s (reset_loop s)

pub data Reach (quiet : Threads → Type 0) : Threads → Threads → Type 0 where
  here : (s : Threads) → Reach quiet s s
  then_step : (s m e : Threads) → Step quiet s m → Reach quiet m e → Reach quiet s e
