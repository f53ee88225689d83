-- ===== src/Win32/Reaper.antt =====
-- Submission and the event loop of src/os/libusb0_win32.c, for one thread at a time: `usbyb_submit_transfer`,
-- `usbyb_cancel_transfer`, `usbyb_reap_transfer` and `usbyi_win32_reap_until`. An event is named by
-- its handle. The loop over waits is recursion on fuel, a round for each.
pub mod Found
pub mod Rounds
pub mod Submission
use libusby.Base.{
  ℕ, zero, suc, ◌+◌, ◌-◌, Bool, true, false, List, [], ◌∷◌, ◌++◌, ltb, ◌==◌, if◌then◌else◌, length,
  take, drop, get_elem?, Option, none, some, Outcome, ok, err, fault, stuck, io, Allocator,
}
use libusby.Devices.Ring.{update}
use libusby.Transfer.{Transfer}
use libusby.Win32.{
  Request, endpoint_request, ControlCode, ioctl_abort_endpoint, Prepared,
  prepare_transfer_submission, SystemError, error_success, error_io_pending, HandleList,
  reserve_handle_list, header_of,
}
use libusby.Win32.Io.{
  Completion, Windows, Process, default_timeout, write_front, finish_transfer,
  sync_device_io_control,
}
use libusby.Win32.Queue.{Queue, append_tran, remove_tran}

-- A context and its transfers. `signalled` says which events are set.
pub record Reaper {ℓ} (S : Type ℓ) : Type ℓ where
  pub queue : Queue
  pub transfers : ℕ → Transfer
  pub signalled : ℕ → Bool
  pub handle_list : HandleList
  pub process : Process S

-- The handles of the context and of its transfers, the kernel's part in a submission, and the
-- callbacks of the program. `start` is DeviceIoControl and `finish` GetOverlappedResult with the
-- OVERLAPPED of a transfer; what is written to its buffer is known with `finish`.
pub record System {ℓ} (S : Type ℓ) : Type ℓ where
  pub windows : Windows S
  pub h_file : ℕ → ℕ
  pub h_completion_event : ℕ → ℕ
  pub h_overlapped_event : ℕ → ℕ
  pub h_transfer_list_updated : ℕ
  pub h_event_loop_stopped : ℕ
  pub h_reaper_lock : ℕ
  pub start :
      (tran h_file : ℕ) → ControlCode → (timeout : ℕ) → Request → List ℕ → S → SystemError × S
  pub finish : (tran h_file : ℕ) → S → Completion × S
  pub cancel_io_ex : Option (ℕ → ℕ → S → S)
  pub wait_for_multiple_objects : List ℕ → (ℕ → Bool) → S → ℕ × S
  pub callback : ℕ → Reaper S → Reaper S

abbrev pub with_system {ℓ} : {S : Type ℓ} → Reaper S → S → Reaper S
with_system s system = record s {
  process = record { handles = s.process.handles; system = system };
}

abbrev pub set_event {ℓ} : {S : Type ℓ} → ℕ → Reaper S → Reaper S
set_event h s = record s { signalled = update s.signalled h true }

abbrev pub reset_event {ℓ} : {S : Type ℓ} → ℕ → Reaper S → Reaper S
reset_event h s = record s { signalled = update s.signalled h false }

-- `res || GetLastError() == ERROR_IO_PENDING`
abbrev pub is_started : SystemError → Bool
is_started error_success = true
is_started error_io_pending = true
is_started _ = false

module _ {ℓ} {S : Type ℓ} (k : System S) where
  abbrev pub submit_started : ℕ → SystemError × S → Reaper S → Outcome ℕ × Reaper S
  submit_started tran (e, system) s =
      let s = with_system s system in
      if is_started e
      then (let s = reset_event (k.h_completion_event tran) s in
          (
            ok 0,
            set_event k.h_transfer_list_updated (record s { queue = append_tran tran s.queue }),
          ))
      else (err io, s)

  abbrev pub submit_prepared : ℕ → Outcome Prepared → Reaper S → Outcome ℕ × Reaper S
  submit_prepared tran (ok p) s =
      submit_started tran
        (k.start tran (k.h_file (s.transfers tran).dev_handle) p.code default_timeout p.request
          p.data_ptr s.process.system)
        s
  submit_prepared tran (err e) s = (err e, s)
  submit_prepared tran fault s = (fault, s)
  submit_prepared tran stuck s = (stuck, s)

  unfoldable pub submit_transfer : ℕ → Reaper S → Outcome ℕ × Reaper S
  submit_transfer tran s = submit_prepared tran (prepare_transfer_submission (s.transfers tran)) s

  abbrev pub abort_endpoint : Allocator → ℕ → Reaper S → Option (ℕ → ℕ → S → S) → Reaper S
  abort_endpoint creates tran s (some cancel) =
      with_system s (cancel tran (k.h_file (s.transfers tran).dev_handle) s.process.system)
  abort_endpoint creates tran s none =
      let t = s.transfers tran in
      let (r, w) =
        sync_device_io_control k.windows (k.h_file t.dev_handle) creates ioctl_abort_endpoint
          (endpoint_request t.endpoint) [] s.process in
      record s { process = w }

  unfoldable pub cancel_transfer : Allocator → ℕ → Reaper S → Outcome ℕ × Reaper S
  cancel_transfer creates tran s =
      if s.queue.submitted tran
      then (ok 0, abort_endpoint creates tran s k.cancel_io_ex)
      else (ok 0, s)

  -- The result is stored, and the transfer leaves the list.
  abbrev pub finish_tran : ℕ → Reaper S → Reaper S
  finish_tran tran s =
      let t = s.transfers tran in
      let (c, system) = k.finish tran (k.h_file t.dev_handle) s.process.system in
      let memory = write_front c.written (drop (header_of t.transfer_type) t.buffer) in
      let s = with_system s system in
      record s {
        transfers = update s.transfers tran (finish_transfer t (c, memory));
        queue = remove_tran tran s.queue;
      }

  -- `if (tran->pub.callback)`
  abbrev pub call_back : Option ℕ → ℕ → Reaper S → Reaper S
  call_back none tran s = s
  call_back (some function) tran s = k.callback tran s

  unfoldable pub reap_transfer : ℕ → Reaper S → Reaper S
  reap_transfer tran s =
      let s = finish_tran tran s in
      let s = call_back (s.transfers tran).callback tran s in
      if s.queue.submitted tran then s else set_event (k.h_completion_event tran) s

  -- The handles of the transfers but the target, for `count` transfers from `cur` on.
  abbrev pub collect : ℕ → (ℕ → Option ℕ) → ℕ → Option ℕ → List ℕ
  collect h_target next zero cur = []
  collect h_target next (suc count) none = []
  collect h_target next (suc count) (some tran) =
      let rest = collect h_target next count (next tran) in
      if k.h_overlapped_event tran == h_target then rest else k.h_overlapped_event tran ∷ rest

  -- The first transfer with the event.
  abbrev pub find_event : ℕ → (ℕ → Option ℕ) → ℕ → Option ℕ → Option ℕ
  find_event h next zero cur = none
  find_event h next (suc count) none = none
  find_event h next (suc count) (some tran) =
      let rest = find_event h next count (next tran) in
      if k.h_overlapped_event tran == h then some tran else rest

  abbrev pub reap_found : Option ℕ → Reaper S → Reaper S
  reap_found none s = s
  reap_found (some tran) s = reap_transfer tran s

  abbrev pub reap_event : Option ℕ → Reaper S → Outcome (Reaper S)
  reap_event none s = fault
  reap_event (some h) s =
      ok (reap_found (find_event h s.queue.next s.queue.tran_count s.queue.trani_first) s)

  abbrev pub and_again :
      (Reaper S → Outcome ℕ × Reaper S) → Reaper S → Outcome (Reaper S) → Outcome ℕ × Reaper S
  and_again again s (ok s') = again s'
  and_again again s _ = (fault, s)

  -- `res` is a DWORD and WAIT_OBJECT_0 is 0, so that the test for an error is never true.
  abbrev pub after_wait :
      (Reaper S → Outcome ℕ × Reaper S) → ℕ × S → Reaper S → Outcome ℕ × Reaper S
  after_wait again (res, system) s =
      let s = with_system s system in
      if res == 0
      then (ok 0, s)
      else if res == 1
      then again s
      else and_again again s (reap_event (get_elem? s.handle_list.handles res) s)

  abbrev pub wait_for :
      (Reaper S → Outcome ℕ × Reaper S) → List ℕ → HandleList → Reaper S → Outcome ℕ × Reaper S
  wait_for again handles l s =
      if ltb (length l.handles) (length handles)
      then (fault, s)
      else (let s =
            reset_event k.h_transfer_list_updated
              (record s { handle_list = record l { handles = write_front handles l.handles } }) in
          after_wait again (k.wait_for_multiple_objects handles s.signalled s.process.system) s)

  -- `res` is a DWORD, so that `res < 0` is never true and a failed reservation is passed over.
  unfoldable pub reap_until_locked : ℕ → Bool → ℕ → ℕ → Reaper S → Outcome ℕ × Reaper S
  reap_until_locked zero succeeds junk h_target s = (stuck, s)
  reap_until_locked (suc fuel) succeeds junk h_target s =
      let (r, l) = reserve_handle_list succeeds junk (2 + s.queue.tran_count) s.handle_list in
      let events = collect h_target s.queue.next s.queue.tran_count s.queue.trani_first in
      wait_for (reap_until_locked fuel succeeds junk h_target)
        (h_target ∷ k.h_transfer_list_updated ∷ events) l s

  abbrev pub unlock : Outcome ℕ × Reaper S → Outcome ℕ × Reaper S
  unlock (r, s) = (r, set_event k.h_reaper_lock s)

  -- The reaper's lock is an event that resets itself when a wait ends with it.
  abbrev pub after_lock :
      (Reaper S → Outcome ℕ × Reaper S) → ℕ × S → Reaper S → Outcome ℕ × Reaper S
  after_lock locked (res, system) s =
      let s = with_system s system in
      if res == 0
      then (ok 0, s)
      else if res == 1
      then unlock (locked (reset_event k.h_reaper_lock s))
      else (err io, s)

  unfoldable pub reap_until : ℕ → Bool → ℕ → ℕ → Reaper S → Outcome ℕ × Reaper S
  reap_until fuel succeeds junk h_target s =
      after_lock (reap_until_locked fuel succeeds junk h_target)
        (k.wait_for_multiple_objects (h_target ∷ k.h_reaper_lock ∷ []) s.signalled s.process.system)
        s

  unfoldable pub wait_for_transfer : ℕ → Bool → ℕ → ℕ → Reaper S → Outcome ℕ × Reaper S
  wait_for_transfer fuel succeeds junk tran s =
      reap_until fuel succeeds junk (k.h_completion_event tran) s

  unfoldable pub run_event_loop : ℕ → Bool → ℕ → Reaper S → Outcome ℕ × Reaper S
  run_event_loop fuel succeeds junk s = reap_until fuel succeeds junk k.h_event_loop_stopped s

  unfoldable pub stop_event_loop : Reaper S → Reaper S
  stop_event_loop s = set_event k.h_event_loop_stopped s

  unfoldable pub reset_event_loop : Reaper S → Reaper S
  reset_event_loop s = reset_event k.h_event_loop_stopped s
