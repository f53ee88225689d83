-- ===== src/Win32/Reaper/Submission.antt =====
-- `usbyb_submit_transfer` of src/os/libusb0_win32.c and the list of submitted transfers.
use libusby.Base.{
  ℕ, suc, ◌-◌, ◌^◌, ◌≤◌, ◌<◌, ◌≡◌, true, false, List, [], ◌∷◌, ◌++◌, ltb, ◌==◌, if-intro, arith,
  length, get_or, word, Outcome, ok, err, fault, stuck,
}
use libusby.Devices.Ring.{has}
use libusby.Transfer.{Transfer, control, isochronous, bulk, interrupt}
use libusby.Win32.{Prepared, prepare_by_type, prepare_transfer_submission, SystemError}
use libusby.Win32.Queue.{IsQueue}
use libusby.Win32.Queue.Order.{append_tran-IsQueue}
use libusby.Win32.Reaper.{
  Reaper, System, is_started, submit_started, submit_prepared, submit_transfer,
}

-- The transfer is behind the others, its completion event is reset and the loop is told; or the
-- list is as it was.
abbrev pub Submitted {ℓ} : {S : Type ℓ} → System S → List ℕ → ℕ → Outcome ℕ × Reaper S → Type 0
Submitted k trans tran (ok r, s) =
    IsQueue s.queue (trans ++ tran ∷ [])
    × (s.signalled (k.h_completion_event tran) ≡ false)
    × (s.signalled k.h_transfer_list_updated ≡ true)
Submitted k trans tran (err e, s) = IsQueue s.queue trans
Submitted k trans tran _ = ⊥

-- Where the buffer is there, no byte outside of it is read.
abbrev Prepares : Outcome Prepared → Type 0
Prepares (ok p) = Unit
Prepares (err e) = Unit
Prepares _ = ⊥

prepare_transfer_submission-Prepares :
    (t : Transfer) → t.requested ≤ length t.buffer → Prepares (prepare_transfer_submission t)
unfolding prepare_transfer_submission
prepare_transfer_submission-Prepares t room =
    elim t.transfer_type as (λ y. Prepares (prepare_by_type y t)) [
      | control ↦
          if-intro Prepares (ltb t.requested 8) (λ _. tt)
            (λ long.
              if-intro Prepares (ltb (length t.buffer) 8) (λ short. absurd (ground arith))
                (λ _.
                  if-intro Prepares
                    (ltb (t.requested - 8) (word (get_or t.buffer 6 0) (get_or t.buffer 7 0)))
                    (λ _. tt) (λ _. tt)))
      | isochronous ↦ tt
      | bulk ↦ tt
      | interrupt ↦ tt
    ]

module _ {ℓ} {S : Type ℓ} (k : System S) where
  submit_started-Submitted :
      (tran : ℕ) (trans : List ℕ) (r : SystemError × S) (s : Reaper S)
      → IsQueue s.queue trans
      → has tran trans ≡ false
      → suc (length trans) < 2 ^ 31
      → (k.h_completion_event tran == k.h_transfer_list_updated) ≡ false
      → Submitted k trans tran (submit_started k tran r s)
  submit_started-Submitted tran trans (e, system) s v fresh few apart =
      if-intro (Submitted k trans tran) (is_started e)
        (λ _. (append_tran-IsQueue s.queue trans tran v fresh few, ground arith, ground arith))
        (λ _. v)

  -- Where the list of submitted transfers holds less than 2^31 - 1 of them, a transfer is not among
  -- them, its buffer has the bytes that it asks for, and its completion event is not the event for
  -- changes of the list: `usbyb_submit_transfer` puts the transfer behind the others, resets its
  -- completion event and sets the event for changes; or it returns an error and leaves the list.
  pub submit_transfer-Submitted :
      (tran : ℕ) (trans : List ℕ) (s : Reaper S)
      → IsQueue s.queue trans
      → has tran trans ≡ false
      → suc (length trans) < 2 ^ 31
      → (s.transfers tran).requested ≤ length (s.transfers tran).buffer
      → (k.h_completion_event tran == k.h_transfer_list_updated) ≡ false
      → Submitted k trans tran (submit_transfer k tran s)
  unfolding submit_transfer
  submit_transfer-Submitted tran trans s v fresh few room apart =
      go (prepare_transfer_submission (s.transfers tran))
        (prepare_transfer_submission-Prepares (s.transfers tran) room)
    where
      go : (p : Outcome Prepared) → Prepares p → Submitted k trans tran (submit_prepared k tran p s)
      go (ok p) a = submit_started-Submitted tran trans _ s v fresh few apart
      go (err e) a = v
      go fault a = a
      go stuck a = a
