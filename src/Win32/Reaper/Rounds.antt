-- ===== src/Win32/Reaper/Rounds.antt =====
-- The loop of `usbyi_win32_reap_until_locked` of src/os/libusb0_win32.c over a list of transfers.
use libusby.Base.{
  ℕ, zero, suc, ◌+◌, ◌^◌, ◌≤◌, ◌<◌, ◌≡◌, refl, sym, ◌∙◌, ◌⊎◌, inl, inr, Bool, true, false, List, [],
  ◌∷◌, ◌++◌, ltb, ◌==◌, if-intro, arith, length, drop, Option, none, some, Outcome, ok,
}
use mathlib.Core.Path.{subst}
use libusby.Devices.Ring.{has}
use libusby.Devices.Ring.Chain.{has-removed, length-removed}
use libusby.Win32.{HandleList}
use libusby.Win32.Answers.{reserve_handle_list-room}
use libusby.Win32.Io.{write_front}
use libusby.Win32.Queue.{remove_tran, IsQueue}
use libusby.Win32.Queue.Order.{remove_tran-IsQueue}
use libusby.Win32.Reaper.{
  Reaper, System, set_event, after_lock, reap_until, finish_tran, and_again, with_system,
  reset_event, collect, find_event, reap_transfer, reap_event, after_wait, wait_for,
  reap_until_locked, call_back,
}
use libusby.Win32.Reaper.Found.{
  get_elem?-front, get_elem?-behind, length-write_front, events, collect-events, events-length,
  find_event-Finds,
}

-- A loop that ends with success, and a part of the transfers left in the list.
abbrev pub Ends {ℓ} : {S : Type ℓ} → List ℕ → Outcome ℕ × Reaper S → Type ℓ
Ends trans x =
    (s' : Reaper _) × (left : List ℕ) × (x ≡ (ok 0, s'))
    × IsQueue s'.queue left
    × ((t : ℕ) → has t left ≡ true → has t trans ≡ true)

module _ {ℓ} {S : Type ℓ} (k : System S) where
  -- Every wait of the loop for at most 64 handles, the limit of WaitForMultipleObjects, ends with the
  -- target, or with a handle behind the first two: no transfer is submitted meanwhile. A wait for the
  -- lock ends with the target or the lock. A callback leaves the list of transfers and the list of
  -- handles alone.
  pub record IsQuiet : Type ℓ where
    pub answered :
        (h_target : ℕ) (handles : List ℕ) (signalled : ℕ → Bool) (system : S)
        → suc (suc (length handles)) ≤ 64
        → let res =
            (k.wait_for_multiple_objects
              (h_target ∷ k.h_transfer_list_updated ∷ handles)
              signalled
              system).0 in
          (res ≡ 0) ⊎ ((1 < res) × (res < suc (suc (length handles))))
    pub locked :
        (h_target : ℕ) (signalled : ℕ → Bool) (system : S)
        → let res =
            (k.wait_for_multiple_objects (h_target ∷ k.h_reaper_lock ∷ []) signalled system).0 in
          (res ≡ 0) ⊎ (res ≡ 1)
    pub left_alone :
        (tran : ℕ) (s : Reaper S)
        → ((k.callback tran s).queue ≡ s.queue) × ((k.callback tran s).handle_list ≡ s.handle_list)

  call_back-queue :
      (quiet : IsQuiet) (c : Option ℕ) (tran : ℕ) (s : Reaper S)
      → ((call_back k c tran s).queue ≡ s.queue)
        × ((call_back k c tran s).handle_list ≡ s.handle_list)
  call_back-queue quiet none tran s = (refl, refl)
  call_back-queue quiet (some function) tran s = quiet.left_alone tran s

  reap_transfer-queue :
      (quiet : IsQuiet) (tran : ℕ) (s : Reaper S)
      → ((reap_transfer k tran s).queue ≡ remove_tran tran s.queue)
        × ((reap_transfer k tran s).handle_list ≡ s.handle_list)
  unfolding reap_transfer
  reap_transfer-queue quiet tran s =
      let s1 = finish_tran k tran s in
      let c = (s1.transfers tran).callback in
      let kept = call_back-queue quiet c tran s1 in
      if-intro
        (λ (r : Reaper S). (r.queue ≡ remove_tran tran s.queue) × (r.handle_list ≡ s.handle_list))
        ((call_back k c tran s1).queue.submitted tran) (λ _. kept) (λ _. kept)

  abbrev Next : List ℕ → (Reaper S → Outcome ℕ × Reaper S) → Type ℓ
  Next trans again =
      (xs : List ℕ) (t : ℕ) (ys : List ℕ) (s : Reaper S)
      → trans ≡ xs ++ t ∷ ys
      → IsQueue s.queue (xs ++ ys)
      → length s.handle_list.handles ≡ s.handle_list.capacity
      → Ends (xs ++ ys) (again s)

  -- The event of a transfer is set: it is reaped, and the loop goes on with the others.
  reaped-Ends :
      (quiet : IsQuiet) (again : Reaper S → Outcome ℕ × Reaper S) (h_target h : ℕ) (trans : List ℕ)
      (s : Reaper S)
      → IsQueue s.queue trans
      → length trans ≤ 62
      → length s.handle_list.handles ≡ s.handle_list.capacity
      → has h (events k h_target trans) ≡ true
      → Next trans again
      → Ends trans (and_again k again s (reap_event k (some h) s))
  reaped-Ends quiet again h_target h trans s v few sized m next =
      let (xs, t, ys, split, found) =
        find_event-Finds k h h_target s.queue.next s.queue.prev none trans v.linked m in
      let (removed, alone) = reap_transfer-queue quiet t s in
      let fewer : length (xs ++ t ∷ ys) < 2 ^ 31 =
        subst (λ (ts : List ℕ). length ts < 2 ^ 31) split (omega arith) in
      let v' = remove_tran-IsQueue s.queue xs ys t (rw split at (v)) fewer in
      let (s', left, e, w, part) =
        next xs t ys (reap_transfer k t s) split (rw removed v') (rw alone sized) in
      let reached : find_event k h s.queue.next s.queue.tran_count s.queue.trani_first ≡ some t =
        rw (v.counted, v.first) found in
      rw reached (s', left, e, w, λ d i. has-removed d t trans xs ys split (part d i))

  wait_for-Ends :
      (quiet : IsQuiet) (again : Reaper S → Outcome ℕ × Reaper S) (h_target : ℕ) (trans : List ℕ)
      (l : HandleList) (s : Reaper S)
      → IsQueue s.queue trans
      → length trans ≤ 62
      → 2 + length trans ≤ length l.handles
      → length l.handles ≡ l.capacity
      → Next trans again
      → Ends trans
          (wait_for k again (h_target ∷ k.h_transfer_list_updated ∷ events k h_target trans) l s)
  wait_for-Ends quiet again h_target trans l s v few room sized next =
      if-intro (Ends trans) (ltb (length l.handles) (length handles))
        (λ long. absurd (ground (arith, long, events-length k h_target trans)))
        (λ fits. go (k.wait_for_multiple_objects handles s1.signalled s1.process.system) (
          quiet.answered h_target (events k h_target trans) s1.signalled s1.process.system
            (omega (arith, few, events-length k h_target trans))))
    where
      handles : List ℕ
      handles = h_target ∷ k.h_transfer_list_updated ∷ events k h_target trans

      s1 : Reaper S
      s1 =
          reset_event k.h_transfer_list_updated
            (record s { handle_list = record l { handles = write_front handles l.handles } })

      resized : length (write_front handles l.handles) ≡ l.capacity
      resized =
          length-write_front handles l.handles (omega (arith, events-length k h_target trans))
          ∙ sized

      go :
          (r : ℕ × S)
          → (r.0 ≡ 0) ⊎ ((1 < r.0) × (r.0 < length handles))
          → Ends trans (after_wait k again r s1)
      go (res, system) (inl e) = rw e (with_system s1 system, trans, refl, v, λ t i. i)
      go (res, system) (inr (more, within)) =
          let (h, e, m) =
            get_elem?-behind h_target k.h_transfer_list_updated (events k h_target trans) res more
              within in
          let none_0 : (res == 0) ≡ false = ground arith in
          let none_1 : (res == 1) ≡ false = ground arith in
          rw
            (
              none_0,
              none_1,
              get_elem?-front handles (drop (length handles) l.handles) res within ∙ e,
            )
            (reaped-Ends quiet again h_target h trans (with_system s1 system) v few resized m next)

  reap_until_locked-Ends :
      (quiet : IsQuiet) (junk h_target : ℕ) (fuel : ℕ) (trans : List ℕ) (s : Reaper S)
      → IsQueue s.queue trans
      → length trans ≤ 62
      → length trans < fuel
      → length s.handle_list.handles ≡ s.handle_list.capacity
      → Ends trans (reap_until_locked k fuel true junk h_target s)
  unfolding reap_until_locked
  reap_until_locked-Ends quiet junk h_target zero trans s v few enough sized = absurd (omega arith)
  reap_until_locked-Ends quiet junk h_target (suc fuel) trans s v few enough sized =
      let (l, e, room, kept) =
        reserve_handle_list-room junk (2 + s.queue.tran_count) s.handle_list sized in
      let events_of : collect k h_target s.queue.next s.queue.tran_count s.queue.trani_first
          ≡ events k h_target trans =
        rw (v.counted, v.first)
          (collect-events k h_target s.queue.next s.queue.prev none trans v.linked) in
      let again = reap_until_locked k fuel true junk h_target in
      let round =
        wait_for-Ends quiet again h_target trans l s v few (ground (arith, v.counted, room, kept))
          kept
          (λ xs t ys s' split w z.
            let shorter = length-removed t trans xs ys split in
            reap_until_locked-Ends quiet junk h_target fuel (xs ++ ys) s' w (omega (arith, shorter))
              (omega (arith, shorter)) z) in
      subst
        (λ (r : Outcome ℕ × HandleList). Ends trans (
          wait_for k again
            (h_target
              ∷ k.h_transfer_list_updated
              ∷ collect k h_target s.queue.next s.queue.tran_count s.queue.trani_first)
            r.1 s))
        (sym e)
        (subst
          (λ (hs : List ℕ).
            Ends trans (wait_for k again (h_target ∷ k.h_transfer_list_updated ∷ hs) l s))
          (sym events_of) round)

  -- Where at most 62 transfers are submitted, so that a wait has at most 64 handles, memory suffices,
  -- every wait of the loop ends with the target or with the event of a transfer, that for the lock
  -- with the target or the lock, no other thread submits and no callback changes the list or the
  -- handles: `usbyi_win32_reap_until` with fuel for a wait for each transfer and one more returns
  -- success, and the transfers that are left in the list are some of those before and are linked with
  -- each other.
  pub reap_until-Ends :
      (quiet : IsQuiet) (junk h_target fuel : ℕ) (trans : List ℕ) (s : Reaper S)
      → IsQueue s.queue trans
      → length trans ≤ 62
      → length trans < fuel
      → length s.handle_list.handles ≡ s.handle_list.capacity
      → Ends trans (reap_until k fuel true junk h_target s)
  unfolding reap_until
  reap_until-Ends quiet junk h_target fuel trans s v few enough sized =
      go
        (k.wait_for_multiple_objects (h_target ∷ k.h_reaper_lock ∷ []) s.signalled s.process.system)
        (quiet.locked h_target s.signalled s.process.system)
    where
      go :
          (r : ℕ × S)
          → (r.0 ≡ 0) ⊎ (r.0 ≡ 1)
          → Ends trans (after_lock k (reap_until_locked k fuel true junk h_target) r s)
      go (res, system) (inl e) = rw e (with_system s system, trans, refl, v, λ t i. i)
      go (res, system) (inr e) =
          let (s', left, f, w, part) =
            reap_until_locked-Ends quiet junk h_target fuel trans
              (reset_event k.h_reaper_lock (with_system s system)) v few enough sized in
          rw (e, f) (set_event k.h_reaper_lock s', left, refl, w, part)
