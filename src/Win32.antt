-- ===== src/Win32.antt =====
-- src/os/libusb0_win32.c: how a transfer becomes a request to the driver libusb0.sys, how its
-- completion is recorded, and the list of handles that the event loop waits for. The driver and
-- the kernel are not modelled.
pub mod Answers
pub mod Io
pub mod Enumeration
pub mod Queue
pub mod Reaper
use libusby.Base.{
  ℕ, zero, suc, ◌+◌, ◌-◌, ◌*◌, ◌/◌, Bool, true, false, List, [], ◌∷◌, ◌++◌, ltb, if◌then◌else◌,
  ◌||◌, length, get_or, drop, replicate, word, Outcome, ok, err, invalid_param, no_mem, fault,
}
use libusby.Transfer.{Transfer, TransferType, control, bulk, interrupt, completed, cancelled, error}

-- The members of the union in `libusb0_win32_request`, with the fields that the code sets: the
-- others are 0, as is the whole union in `no_request`.
pub data Request : Type 0 where
  no_request : Request
  configuration_request : ℕ → Request
  intf_request : ℕ → Request
  descriptor_request : (desc_type index language_id : ℕ) → Request
  endpoint_request : ℕ → Request
  control_request : (bm_request_type b_request w_value w_index w_length : ℕ) → Request

pub data ControlCode : Type 0 where
  ioctl_set_configuration ioctl_get_configuration ioctl_get_descriptor ioctl_abort_endpoint
        ioctl_reset_device ioctl_claim_interface ioctl_release_interface
        ioctl_get_cached_configuration :
      ControlCode
  ioctl_interrupt_or_bulk_read ioctl_interrupt_or_bulk_write ioctl_control_read
        ioctl_control_write :
      ControlCode

-- What `usbyb_prepare_transfer_submission` stores behind its pointers: the memory at `data_ptr`
-- goes to the end of the buffer.
pub record Prepared : Type 0 where
  pub code : ControlCode
  pub request : Request
  pub data_ptr : List ℕ
  pub data_len : ℕ

-- `x & 0x80` of a byte
abbrev pub is_in : ℕ → Bool
is_in x = ltb 127 x

abbrev pub prepare_endpoint : Transfer → Outcome Prepared
prepare_endpoint t = ok (record {
  code = if is_in t.endpoint then ioctl_interrupt_or_bulk_read else ioctl_interrupt_or_bulk_write;
  request = endpoint_request t.endpoint;
  data_ptr = t.buffer;
  data_len = t.requested;
})

abbrev pub prepare_control : Transfer → Outcome Prepared
prepare_control t =
    let w_length = word (get_or t.buffer 6 0) (get_or t.buffer 7 0) in
    let request =
      control_request (get_or t.buffer 0 0) (get_or t.buffer 1 0)
        (word (get_or t.buffer 2 0) (get_or t.buffer 3 0))
        (word (get_or t.buffer 4 0) (get_or t.buffer 5 0)) w_length in
    if ltb t.requested 8
    then err invalid_param
    else if ltb (length t.buffer) 8
    then fault
    else if ltb (t.requested - 8) w_length
    then err invalid_param
    else ok (record {
      code = if is_in (get_or t.buffer 0 0) then ioctl_control_read else ioctl_control_write;
      request = request;
      data_ptr = drop 8 t.buffer;
      data_len = t.requested - 8;
    })

abbrev pub prepare_by_type : TransferType → Transfer → Outcome Prepared
prepare_by_type bulk t = prepare_endpoint t
prepare_by_type interrupt t = prepare_endpoint t
prepare_by_type control t = prepare_control t
prepare_by_type _ t = err invalid_param

unfoldable pub prepare_transfer_submission : Transfer → Outcome Prepared
prepare_transfer_submission t = prepare_by_type t.transfer_type t

-- The values of `dwError` that the code tells apart.
pub data SystemError : Type 0 where
  error_success error_operation_aborted error_busy error_io_pending : SystemError
  other_error : ℕ → SystemError

abbrev pub header_of : TransferType → ℕ
header_of control = 8
header_of _ = 0

unfoldable pub update_finished_transfer : Transfer → SystemError → ℕ → Transfer
update_finished_transfer t error_success transferred = record t {
  actual_length = transferred + header_of t.transfer_type;
  status = completed;
}
update_finished_transfer t error_operation_aborted transferred = record t {
  actual_length = 0;
  status = cancelled;
}
update_finished_transfer t _ transferred = record t { actual_length = 0; status = error }

-- `usbyi_handle_list`, with what the cells of a grown array hold.
pub record HandleList : Type 0 where
  pub handles : List ℕ
  pub capacity : ℕ

abbrev pub resize : ℕ → ℕ → List ℕ → List ℕ
resize junk zero cells = []
resize junk (suc n) [] = junk ∷ resize junk n []
resize junk (suc n) (x ∷ cells) = x ∷ resize junk n cells

abbrev pub at_least_4 : ℕ → ℕ
at_least_4 n = if ltb n 4 then 4 else n

unfoldable pub reserve_handle_list : Bool → ℕ → ℕ → HandleList → Outcome ℕ × HandleList
reserve_handle_list succeeds junk new_capacity l =
    let n = at_least_4 new_capacity in
    if ltb n (l.capacity / 4) || ltb l.capacity n
    then (if succeeds
        then (ok 0, record { handles = resize junk (n * 3 / 2) l.handles; capacity = n * 3 / 2 })
        else (err no_mem, l))
    else (ok 0, l)
