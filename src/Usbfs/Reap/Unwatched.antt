-- ===== src/Usbfs/Reap/Unwatched.antt =====
-- A submission of src/os/linux_usbfs.c while no thread runs the event loop, and the wait for it.
use libusby.Base.{
  ℕ, suc, ◌≡◌, refl, sym, ap, ◌∙◌, Bool, true, false, ◌&&◌, none, some, eq→==, if-false, arith, ok,
  Allocator,
}
use libusby.Usbfs.Watch.{WatchedFd, is_submittable}
use libusby.Usbfs.Watch.Bounds.{IsWatching, submit_transfer-Watched}
use libusby.Usbfs.Reap.{
  Tran, Looping, Environment, with_active, change, with_context, lock_loop, leave_loop, awaits,
  poll_loop, wait_for_transfer, then_await, submit_tran,
}
use libusby.Usbfs.Reap.Waiting.{wait_for_transfer-free, then_await-done}

module _ {ℓ} {S : Type ℓ} (k : Environment S) where
  lock_loop-same : (b : Bool) (s : Looping S) → s.context.loop_locked ≡ b → lock_loop b s ≡ s
  lock_loop-same b s e =
      ap
        (λ (c : Bool).
          let s' : Looping S = record s { context = record s.context { loop_locked = c } } in s')
        (sym e)

  poll_loop-inactive :
      (succeeds : Allocator) (fuel tran : ℕ) (s : Looping S)
      → (s.trans tran).active ≡ 0
      → poll_loop k succeeds (suc fuel) (some tran) 0 s ≡ leave_loop (ok 0) 0 s
  unfolding poll_loop
  poll_loop-inactive succeeds fuel tran s e =
      if-false (awaits (some tran) s && s.loop_enabled) _ _ (ground (arith, e))

  wait_for_transfer-inactive :
      (succeeds : Allocator) (fuel tran : ℕ) (s : Looping S)
      → s.context.loop_locked ≡ false
      → (s.trans tran).active ≡ 0
      → wait_for_transfer k succeeds (suc fuel) tran s ≡ (ok 0, s)
  wait_for_transfer-inactive succeeds fuel tran s free_ e =
      wait_for_transfer-free k succeeds fuel tran s free_
      ∙ ap (then_await k succeeds (suc fuel) tran) (
          poll_loop-inactive succeeds fuel tran (lock_loop true s) e
          ∙ ap (λ (s' : Looping S). (ok 0, s')) (lock_loop-same false s free_))
      ∙ then_await-done k succeeds fuel tran s e

  -- Where no thread runs the event loop, memory suffices and the kernel takes the request: a wait
  -- right after `usbyb_submit_transfer` of an inactive transfer returns success at once. No request
  -- is reaped, and the transfer is as before.
  pub submit_tran-wait_for_transfer :
      (succeeds : Allocator) (junk : WatchedFd) (fuel tran : ℕ) (s : Looping S)
      → IsWatching s.context
      → s.context.loop_locked ≡ false
      → (s.trans tran).active ≡ 0
      → is_submittable (s.trans tran).transfer_type ≡ true
      → (s' : Looping S) × (submit_tran true junk none tran s ≡ ok (none, s'))
        × (wait_for_transfer k succeeds (suc fuel) tran s' ≡ (ok 0, s'))
        × (s'.trans tran ≡ s.trans tran)
        × (s'.system ≡ s.system)
  unfolding submit_tran
  submit_tran-wait_for_transfer succeeds junk fuel tran s v free_ idle kind =
      let t = s.trans tran in
      let (sub, e, w, marked) =
        submit_transfer-Watched junk t.transfer_type t.wrfd t.active s.context v kind in
      let inactive : sub.active ≡ 0 = marked ∙ rw free_ idle in
      let s' : Looping S = change tran (with_active sub.active) (with_context s sub.context) in
      let same : s'.trans tran ≡ t =
        rw (eq→== tran tran refl) (ap (λ (n : ℕ). with_active n t) (inactive ∙ sym idle)) in
      (
        s',
        rw e refl,
        wait_for_transfer-inactive succeeds fuel tran s' (w.locked ∙ free_)
            (ap (λ (t : Tran). t.active) same ∙ idle),
        same,
        refl,
      )
