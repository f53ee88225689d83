-- ===== src/Win32/Io/Control.antt =====
-- The control transfers of src/libusby.c over the backend of src/os/libusb0_win32.c.
use libusby.Base.{
  ℕ, ◌+◌, ◌-◌, ◌≤◌, ◌<◌, ◌≡◌, refl, ◌∙◌, true, false, List, ◌++◌, Option, none, some, arith,
  if◌then◌else◌, length, take, drop, replicate, Outcome, ok, err, fault, stuck, io, Allocator,
}
use libusby.Transfer.{
  Transfer, TransferType, World, Backend, TransferType, control, isochronous, bulk, interrupt,
  is_not_supported, or_submit, with_transfer, zero_transfer, fill_control_transfer, setup_packet,
  deliver, deliver_and_free, control_transfer, alloc_transfer, free_transfer,
}
use libusby.Transfer
use libusby.Win32.{
  Prepared, control_request, is_in, ioctl_control_read, ioctl_control_write, prepare_by_type,
  prepare_transfer_submission, error_success,
}
use libusby.Win32.Answers.{
  prepare_transfer_submission-setup_packet, deliver-update_finished_transfer,
}
use libusby.Win32.Io.{
  Completion, Windows, Process, or_wait, perform_prepared, perform_transfer, init_transfer,
  clear_transfer, backend,
}

module _ {ℓ} {S : Type ℓ} (k : Windows S) (h_file : ℕ) (creates : Allocator) (junk : ℕ)
    (submit wait : Transfer → Process S → (Outcome ℕ × Transfer) × Process S) where
  abbrev device : Backend (Process S)
  device = backend k h_file creates junk submit wait

  prepare_transfer_submission-supported :
      (t : Transfer) → is_not_supported (prepare_transfer_submission t) ≡ false
  unfolding prepare_transfer_submission
  prepare_transfer_submission-supported t =
      elim t.transfer_type as (λ y. is_not_supported (prepare_by_type y t) ≡ false) [
        | control ↦ ground arith
        | isochronous ↦ refl
        | bulk ↦ refl
        | interrupt ↦ refl
      ]

  -- No transfer is submitted, and none opens or closes a handle.
  perform_transfer-handles :
      (t : Transfer) (w : Process S) → (Transfer.perform_transfer device t w).1.handles ≡ w.handles
  unfolding Transfer.perform_transfer perform_transfer
  perform_transfer-handles t w =
      go (prepare_transfer_submission t) (prepare_transfer_submission-supported t)
    where
      go :
          (p : Outcome Prepared)
          → is_not_supported p ≡ false
          → (or_submit device (perform_prepared k h_file t p w)).1.handles ≡ w.handles
      go (ok p) n = refl
      go (err e) n = ground arith
      go fault n = refl
      go stuck n = refl

  -- A transfer with its two events, or neither.
  Allocated : World (Process S) → Option Transfer × World (Process S) → Type 0
  Allocated w (none, w') = w'.system.handles.live ≡ w.system.handles.live
  Allocated w (some t, w') = w'.system.handles.live ≡ w.system.handles.live + 2

  alloc_transfer-Allocated :
      (succeeds : Allocator) (w : World (Process S))
      → Allocated w (alloc_transfer device succeeds w)
  unfolding alloc_transfer init_transfer Allocated
  alloc_transfer-Allocated succeeds w = ground arith

  with_transfer-handles :
      {A : Type 0} (w : World (Process S)) (failed : A)
      (f : Transfer → World (Process S) → A × World (Process S))
      (r : Option Transfer × World (Process S))
      → Allocated w r
      → ((t : Transfer) (w' : World (Process S))
          → (f t w').1.system.handles.live ≡ w'.system.handles.live - 2)
      → (with_transfer failed f r).1.system.handles.live ≡ w.system.handles.live
  unfolding Allocated
  with_transfer-handles w failed f (none, w') e step = e
  with_transfer-handles w failed f (some t, w') e step = step t w' ∙ omega arith

  -- Over the driver libusb0.sys, whichever allocation fails and however the request ends,
  -- `libusby_control_transfer` leaves as many handles open as there were.
  pub control_transfer-handles :
      (succeeds : Allocator) (dev_handle bm_request_type b_request w_value w_index : ℕ)
      (data_ : List ℕ) (w_length timeout : ℕ) (w : World (Process S))
      → (control_transfer device succeeds junk dev_handle bm_request_type b_request w_value w_index
          data_ w_length timeout w).1.system.handles.live
        ≡ w.system.handles.live
  unfolding control_transfer free_transfer clear_transfer
  control_transfer-handles succeeds dev_handle bm_request_type b_request w_value w_index data_
        w_length timeout w =
      with_transfer-handles w _ _ _ (alloc_transfer-Allocated succeeds w) λ t w'.
        let filled =
          fill_control_transfer t dev_handle
            (setup_packet bm_request_type b_request w_value w_index w_length
              ++ replicate w_length junk)
            none 0 timeout in
        ground (arith, perform_transfer-handles filled w'.system)

  abbrev filled : ℕ → ℕ → List ℕ → Transfer
  filled dev_handle timeout buffer =
      fill_control_transfer zero_transfer dev_handle buffer none 0 timeout

  -- Two blocks and two events are allocated and freed again.
  control_transfer-allocated :
      (succeeds : Allocator) (dev_handle bm_request_type b_request w_value w_index : ℕ)
      (data_ : List ℕ) (w_length timeout : ℕ) (w : World (Process S))
      → ((i : ℕ) → succeeds i ≡ true)
      → ((i : ℕ) → creates i ≡ true)
      → control_transfer device succeeds junk dev_handle bm_request_type b_request w_value w_index
          data_ w_length timeout w
        ≡ deliver_and_free device
            (record { calls = w.heap.calls + 1 + 1; live = w.heap.live + 1 + 1 })
            data_
            (Transfer.perform_transfer device
              (filled dev_handle timeout (
                setup_packet bm_request_type b_request w_value w_index w_length
                ++ replicate w_length junk))
              (record {
                handles = record {
                  calls = w.system.handles.calls + 1 + 1;
                  live = w.system.handles.live + 1 + 1;
                };
                system = w.system.system;
              }))
  unfolding control_transfer alloc_transfer init_transfer
  control_transfer-allocated succeeds dev_handle bm_request_type b_request w_value w_index data_
        w_length timeout w memory events =
      rw
        (
          memory w.heap.calls,
          events w.system.handles.calls,
          events (w.system.handles.calls + 1),
          memory (w.heap.calls + 1),
        )
        refl

  -- What the caller gets.
  abbrev pub answer : Completion → List ℕ → List ℕ → Outcome ℕ × List ℕ
  answer c memory data_ = elim c.dw_error [
    | error_success ↦
        (ok c.dw_transferred, take c.dw_transferred memory ++ drop c.dw_transferred data_)
    | _ ↦ (err io, data_)
  ]

  -- Over the driver libusb0.sys, where no allocation fails, value, index and length have 16 bits, and
  -- the memory of the request and `data` have room for what is transferred: one control transfer is
  -- one request with the caller's request type, request, value, index and length over fresh memory of
  -- that length, read or written as bit 7 of the request type says and, whatever timeout the
  -- caller gives, with the timeout 5000. The caller gets the bytes that it transferred in front of what `data` held, or the error
  -- IO and `data` as it was; the blocks and the events are released.
  pub control_transfer-request :
      (succeeds : Allocator) (dev_handle bm_request_type b_request w_value w_index : ℕ)
      (data_ : List ℕ) (w_length timeout : ℕ) (w : World (Process S)) (c : Completion)
      (memory : List ℕ) (s : S)
      → ((i : ℕ) → succeeds i ≡ true)
      → ((i : ℕ) → creates i ≡ true)
      → w_value < 65536
      → w_index < 65536
      → w_length < 65536
      → or_wait k h_file (replicate w_length junk) (
          k.device_io_control h_file
            (if is_in bm_request_type then ioctl_control_read else ioctl_control_write)
            5000
            (control_request bm_request_type b_request w_value w_index w_length)
            (replicate w_length junk)
            w.system.system)
        ≡ ((c, memory), s)
      → c.dw_transferred ≤ length memory
      → c.dw_transferred ≤ length data_
      → control_transfer device succeeds junk dev_handle bm_request_type b_request w_value w_index
          data_ w_length timeout w
        ≡ (
          answer c memory data_,
          record {
            heap = record { calls = w.heap.calls + 2; live = w.heap.live };
            system = record {
              handles = record { calls = w.system.handles.calls + 2; live = w.system.handles.live };
              system = s;
            };
          },
        )
  unfolding free_transfer clear_transfer Transfer.perform_transfer perform_transfer
      fill_control_transfer setup_packet
  control_transfer-request succeeds dev_handle bm_request_type b_request w_value w_index data_
        w_length timeout w c memory s blocks events v i l e m d =
      control_transfer-allocated succeeds dev_handle bm_request_type b_request w_value w_index data_
        w_length timeout w blocks events
      ∙ rw
          (
            prepare_transfer_submission-setup_packet zero_transfer dev_handle timeout
                bm_request_type b_request w_value w_index w_length (replicate w_length junk) v i l,
            e,
          )
          (rw
            (deliver-update_finished_transfer
              (record (filled dev_handle timeout (setup ++ replicate w_length junk)) {
                buffer = setup ++ memory;
              })
              setup memory data_ c.dw_error c.dw_transferred refl refl m d)
            (ground arith))
    where
      setup : List ℕ
      setup = setup_packet bm_request_type b_request w_value w_index w_length
