-- ===== src/Usbfs/Reap/Waiting.antt =====
-- `usbyb_wait_for_transfer` of src/os/linux_usbfs.c for a transfer that is with the kernel, where no
-- other thread runs the event loop.
use libusby.Base.{
  ℕ, suc, ◌+◌, ◌<◌, ◌≡◌, refl, ap, ◌∙◌, Bool, true, false, ◌&&◌, List, Option, some, ◌-◌, ◌==◌,
  if◌then◌else◌, if-false, arith, length, Outcome, ok, Allocator,
}
use libusby.Usbfs.Reap.{
  Tran, Urb, Looping, Environment, lock_loop, reap_all, poll_loop, run_event_loop_impl,
  wait_for_transfer, then_await,
}
use libusby.Usbfs.Reap.Lasting.{Lasting}
use libusby.Usbfs.Reap.Rounds.{HasAnswer, Serves}

-- How many blocks `pollfds` is.
abbrev pub blocks : ℕ → ℕ
blocks capacity = if capacity == 0 then 0 else 1

module _ {ℓ} {S : Type ℓ} (k : Environment S) where
  pub run_event_loop_impl-free :
      (succeeds : Allocator) (fuel : ℕ) (watch_tran : Option ℕ) (s : Looping S)
      → s.context.loop_locked ≡ false
      → run_event_loop_impl k succeeds (suc fuel) watch_tran s
        ≡ poll_loop k succeeds (suc fuel) watch_tran 0 (lock_loop true s)
  unfolding run_event_loop_impl
  run_event_loop_impl-free succeeds fuel watch_tran s free_ =
      if-false (s.loop_enabled && s.context.loop_locked) _ _ (ground arith)

  pub then_await-done :
      (succeeds : Allocator) (fuel tran : ℕ) (s : Looping S)
      → (s.trans tran).active ≡ 0
      → then_await k succeeds (suc fuel) tran (ok 0, s) ≡ (ok 0, s)
  then_await-done succeeds fuel tran s e = rw e refl

  pub wait_for_transfer-free :
      (succeeds : Allocator) (fuel tran : ℕ) (s : Looping S)
      → s.context.loop_locked ≡ false
      → wait_for_transfer k succeeds (suc fuel) tran s
        ≡ then_await k succeeds
            (suc fuel)
            tran
            (poll_loop k succeeds (suc fuel) (some tran) 0 (lock_loop true s))
  unfolding wait_for_transfer
  wait_for_transfer-free succeeds fuel tran s free_ =
      if-false s.context.loop_locked _ _ free_
      ∙ ap (then_await k succeeds (suc fuel) tran)
          (run_event_loop_impl-free succeeds fuel (some tran) s free_)

module _ {ℓ} {S : Type ℓ} (k : Environment S) (pending : S → List ℕ) (bytes : S → ℕ)
    (done : S → ℕ → Bool) (tran : ℕ) (start : Tran) (answer : Urb) where
  -- The loop is left with the answer, unlocked, and the array for `poll` is freed.
  abbrev pub IsAnswered : ℕ → Outcome ℕ × Looping S → Type ℓ
  IsAnswered live x =
      (s' : Looping S) × (x ≡ (ok 0, s'))
      × HasAnswer k pending bytes done tran start answer (s'.trans tran)
      × (s'.context.loop_locked ≡ false)
      × (s'.heap.live ≡ live)

  -- What the requests of a round leave, where a descriptor is ready, or the pipe.
  abbrev Reaped : (ℕ → Bool) → List ℕ → Looping S → Type ℓ
  Reaped ready fds s =
      (s2 : Looping S) × (reap_all k ready 0 fds s ≡ ok s2)
      × Serves k pending bytes done tran start answer fds s2
      × (length (pending s2.system) + (bytes s2.system - 1)
          < length (pending s.system) + bytes s.system)
      × (bytes s2.system ≡ bytes s.system)
      × (s2.heap ≡ s.heap)
