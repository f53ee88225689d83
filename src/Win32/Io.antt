-- ===== src/Win32/Io.antt =====
-- src/os/libusb0_win32.c: the requests that wait for their completion, the events of a transfer, and
-- the `Backend` of a device. `Windows` is the kernel and the driver libusb0.sys, which are not
-- modelled. Handles are counted like blocks of memory: an `Allocator` says which call of
-- CreateEvent succeeds.
pub mod Control
use libusby.Base.{
  ℕ, ◌+◌, ◌-◌, ◌*◌, ◌%◌, ◌^◌, Bool, true, false, ◌||◌, List, [], ◌∷◌, ◌++◌, ltb, ◌==◌,
  if◌then◌else◌, length, get_or, take, drop, replicate, Outcome, ok, err, fault, stuck, ◌>>=◌, io,
  busy, no_mem, Allocator, Heap, malloc, free,
}
use libusby.Devices.Descriptor.{DeviceDescriptor}
use libusby.Transfer.{Transfer, Backend, TransferType, completed}
use libusby.Win32.{
  Request, no_request, configuration_request, intf_request, descriptor_request, ControlCode,
  ioctl_set_configuration, ioctl_get_configuration, ioctl_get_descriptor, ioctl_claim_interface,
  ioctl_release_interface, ioctl_get_cached_configuration, Prepared, prepare_transfer_submission,
  SystemError, error_success, error_busy, error_io_pending, update_finished_transfer, header_of,
}

-- What DeviceIoControl or GetOverlappedResult says: GetLastError where it returned FALSE, the number
-- of bytes transferred, and the bytes that were written to the memory of the request.
pub record Completion : Type 0 where
  pub dw_error : SystemError
  pub dw_transferred : ℕ
  pub written : List ℕ

pub record Windows {ℓ} (S : Type ℓ) : Type ℓ where
  pub device_io_control :
      (h_file : ℕ) → ControlCode → (timeout : ℕ) → Request → List ℕ → S → Completion × S
  pub get_overlapped_result : (h_file : ℕ) → S → Completion × S

-- The open handles, and the rest.
pub record Process {ℓ} (S : Type ℓ) : Type ℓ where
  pub handles : Heap
  pub system : S

abbrev pub default_timeout : ℕ
default_timeout = 5000

abbrev pub is_io_pending : SystemError → Bool
is_io_pending error_io_pending = true
is_io_pending _ = false

abbrev pub write_front : List ℕ → List ℕ → List ℕ
write_front written memory = written ++ drop (length written) memory

-- `switch (dwError)`
abbrev pub io_result : SystemError → ℕ → Outcome ℕ
io_result error_success transferred = ok transferred
io_result error_busy transferred = err busy
io_result _ transferred = err io

abbrev pub with_handles {ℓ} : {S : Type ℓ} → Process S → Heap → Process S
with_handles w h = record { handles = h; system = w.system }

-- The memory at `data_ptr` is the end of the buffer.
abbrev pub finish_transfer : Transfer → Completion × List ℕ → Transfer
finish_transfer t (c, memory) =
    let front = take (header_of t.transfer_type) t.buffer in
    update_finished_transfer (record t { buffer = front ++ memory }) c.dw_error c.dw_transferred

module _ {ℓ} {S : Type ℓ} (k : Windows S) (h_file : ℕ) where
  -- `if (dwError == ERROR_IO_PENDING)`: how the request ended, and its memory.
  abbrev pub or_wait : List ℕ → Completion × S → (Completion × List ℕ) × S
  or_wait memory (c, s) =
      if is_io_pending c.dw_error
      then (let (c', s') = k.get_overlapped_result h_file s in
          ((c', write_front c'.written (write_front c.written memory)), s'))
      else ((c, write_front c.written memory), s)

  unfoldable pub sync_device_io_control :
      Allocator → ControlCode → Request → List ℕ → Process S → (Outcome ℕ × List ℕ) × Process S
  sync_device_io_control creates code request out_data w =
      let (made, h) = malloc creates w.handles in
      if made
      then (let ((c, memory), s) =
            or_wait out_data
              (k.device_io_control h_file code default_timeout request out_data w.system) in
          (
            (io_result c.dw_error c.dw_transferred, memory),
            record { handles = free h; system = s },
          ))
      else ((err no_mem, out_data), with_handles w h)

  unfoldable pub get_descriptor_with_handle :
      Allocator → ℕ → ℕ → ℕ → List ℕ → Process S → (Outcome ℕ × List ℕ) × Process S
  get_descriptor_with_handle creates desc_type desc_index langid data_ w =
      sync_device_io_control creates ioctl_get_descriptor
        (descriptor_request desc_type desc_index langid) data_ w

  abbrev pub is_one : Outcome ℕ → Bool
  is_one (ok n) = n == 1
  is_one _ = false

  -- `if (r >= 0) *config_value = res;`: `r`, and the value where it is at least 0.
  abbrev pub config_value : (Outcome ℕ × List ℕ) × Process S → (Outcome ℕ × ℕ) × Process S
  config_value ((r, res), w) = ((r, get_or res 0 0), w)

  abbrev pub or_uncached :
      Allocator → Bool → (Outcome ℕ × List ℕ) × Process S → (Outcome ℕ × List ℕ) × Process S
  or_uncached creates cached_only ((r, res), w) =
      if is_one r || cached_only
      then ((r, res), w)
      else sync_device_io_control creates ioctl_get_configuration no_request res w

  unfoldable pub get_configuration : Allocator → ℕ → Bool → Process S → (Outcome ℕ × ℕ) × Process S
  get_configuration creates junk cached_only w = config_value (
      or_uncached creates cached_only
        (sync_device_io_control creates ioctl_get_cached_configuration no_request (junk ∷ []) w))

  abbrev pub no_memory : (Outcome ℕ × List ℕ) × Process S → Outcome ℕ × Process S
  no_memory ((r, memory), w) = (r, w)

  unfoldable pub set_configuration : Allocator → ℕ → Process S → Outcome ℕ × Process S
  set_configuration creates value w =
      no_memory
        (sync_device_io_control creates ioctl_set_configuration (configuration_request value) [] w)

  unfoldable pub claim_interface : Allocator → ℕ → Process S → Outcome ℕ × Process S
  claim_interface creates interface_number w =
      no_memory
        (sync_device_io_control creates ioctl_claim_interface (intf_request interface_number) [] w)

  unfoldable pub release_interface : Allocator → ℕ → Process S → Outcome ℕ × Process S
  release_interface creates interface_number w =
      no_memory (
        sync_device_io_control creates ioctl_release_interface (intf_request interface_number) [] w)

  abbrev pub perform_prepared :
      Transfer → Outcome Prepared → Process S → (Outcome ℕ × Transfer) × Process S
  perform_prepared t (ok p) w =
      let (c, s) =
        or_wait p.data_ptr
          (k.device_io_control h_file p.code default_timeout p.request p.data_ptr w.system) in
      ((ok 0, finish_transfer t c), record { handles = w.handles; system = s })
  perform_prepared t (err e) w = ((err e, t), w)
  perform_prepared t fault w = ((fault, t), w)
  perform_prepared t stuck w = ((stuck, t), w)

  unfoldable pub perform_transfer : Transfer → Process S → (Outcome ℕ × Transfer) × Process S
  perform_transfer t w = perform_prepared t (prepare_transfer_submission t) w

-- The two events of a transfer.
unfoldable pub init_transfer {ℓ} : {S : Type ℓ} → Allocator → Process S → Outcome ℕ × Process S
init_transfer creates w =
    let (completion, h) = malloc creates w.handles in
    if completion
    then (let (overlapped, h') = malloc creates h in
        if overlapped then (ok 0, with_handles w h') else (err no_mem, with_handles w (free h')))
    else (err no_mem, with_handles w h)

unfoldable pub clear_transfer {ℓ} : {S : Type ℓ} → Process S → Process S
clear_transfer w = with_handles w (free (free w.handles))

abbrev pub delivered {ℓ} :
    {S : Type ℓ} → (Outcome ℕ × List ℕ) × Process S → Outcome (List ℕ) × Process S
delivered ((r, memory), w) = (r >>= λ n. ok (take n memory), w)

abbrev pub value_of {ℓ} : {S : Type ℓ} → (Outcome ℕ × ℕ) × Process S → Outcome ℕ × Process S
value_of ((r, value), w) = (r >>= λ n. ok value, w)

-- Submission and waiting are arguments; a transfer's device and a handle's are the same.
abbrev pub backend {ℓ} :
    {S : Type ℓ}
    → Windows S
    → ℕ
    → Allocator
    → ℕ
    → (Transfer → Process S → (Outcome ℕ × Transfer) × Process S)
    → (Transfer → Process S → (Outcome ℕ × Transfer) × Process S)
    → Backend (Process S)
backend k h_file creates junk submit wait = record {
  init_transfer = init_transfer creates;
  clear_transfer = clear_transfer;
  perform_transfer = perform_transfer k h_file;
  submit_transfer = submit;
  wait_for_transfer = wait;
  get_descriptor = λ desc desc_type desc_index langid length_ w. delivered (
      get_descriptor_with_handle k h_file creates desc_type desc_index langid
        (replicate length_ junk) w);
  get_configuration =
      λ cached_only w. value_of (get_configuration k h_file creates junk cached_only w);
  set_configuration = set_configuration k h_file creates;
}
