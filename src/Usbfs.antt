-- ===== src/Usbfs.antt =====
-- src/os/linux_usbfs.c, what one open handle needs: descriptors, configurations, control
-- transfers and interfaces. The kernel is a parameter: the answers of its ioctl calls. A handle is
-- a `Usbfs`, with what the kernel keeps, and -1 in `active_config_value` is `none`.
pub mod Enumeration
pub mod Loop
pub mod Cache
pub mod Control
pub mod Watch
pub mod Reap
use libusby.Base.{
  ℕ, zero, suc, ◌+◌, ◌-◌, ◌⊎◌, inl, inr, Bool, ◌&&◌, true, false, List, [], ◌∷◌, ◌++◌, Option, none,
  some, ltb, ◌==◌, if◌then◌else◌, length, get_elem?, get_or, take, drop, word, Outcome, ok, err,
  fault, stuck, Error, io, no_device, busy, no_mem, invalid_param, not_supported, ◌>>=◌, Allocator,
  Heap, realloc,
}
use libusby.Devices.Descriptor.{DeviceDescriptor}
use libusby.Transfer.{
  Transfer, TransferType, TransferStatus, Backend, completed, stall, error, control,
}

-- The values of errno that the code tells apart.
pub data Errno : Type 0 where
  enodev ebusy epipe : Errno
  other_errno : ℕ → Errno

-- `struct usbdevfs_ctrltransfer` without the pointer to the data.
pub record CtrlTransfer : Type 0 where
  pub b_request_type : ℕ
  pub b_request : ℕ
  pub w_value : ℕ
  pub w_index : ℕ
  pub w_length : ℕ
  pub timeout : ℕ

-- The kernel, and the thread library: `pthread_cond_init` says whether it succeeds.
-- USBDEVFS_CONTROL takes the memory at `data` and returns errno or a number of bytes, with that
-- memory; the others return errno or nothing.
pub record Kernel {ℓ} (K : Type ℓ) : Type ℓ where
  pub pthread_cond_init : K → Bool × K
  pub usbdevfs_control : ℕ → CtrlTransfer → List ℕ → K → ((Errno ⊎ ℕ) × List ℕ) × K
  pub usbdevfs_setconfiguration : ℕ → ℕ → K → Option Errno × K
  pub usbdevfs_claiminterface : ℕ → ℕ → K → Option Errno × K
  pub usbdevfs_releaseinterface : ℕ → ℕ → K → Option Errno × K

pub record Usbfs {ℓ} (K : Type ℓ) : Type ℓ where
  pub kernel : K
  pub wrfd : ℕ
  pub active_config_value : Option ℕ
  pub desc_cache : List ℕ

unfoldable pub usbfs_error : Errno → Error
usbfs_error enodev = no_device
usbfs_error ebusy = busy
usbfs_error _ = io

-- The loop over the cache with `n` rounds left: `i` counts, and the bytes from `cache_ptr` on.
unfoldable pub find_cached : ℕ → ℕ → ℕ → ℕ → List ℕ → Outcome (List ℕ)
find_cached zero i desc_index length_ cache = err invalid_param
find_cached (suc n) i desc_index length_ cache =
    let total = word (get_or cache 2 0) (get_or cache 3 0) in
    let rest = find_cached n (i + 1) desc_index length_ (drop total cache) in
    let copied = if ltb total length_ then total else length_ in
    if ltb (length cache) 4
    then fault
    else if i == desc_index
    then (if ltb (length cache) copied then fault else ok (take copied cache))
    else if ltb (length cache) total
    then fault
    else rest

unfoldable pub get_descriptor_cached : DeviceDescriptor → List ℕ → ℕ → ℕ → ℕ → ℕ → Outcome (List ℕ)
get_descriptor_cached desc cache desc_type desc_index langid length_ =
    if desc_type == 2
    then find_cached desc.b_num_configurations 0 desc_index length_ cache
    else err not_supported

-- The loop of `usbyb_get_device_list` that reads the configurations of a new device. `file` is what
-- `read` has not delivered yet. `ok none` is `goto error_unref_dev` with `r` as it was.
unfoldable pub build_cache :
    Allocator → ℕ → List ℕ → List ℕ → Bool → Heap → Outcome (Option (List ℕ)) × Heap
build_cache succeeds zero file cache is_null h = (ok (some cache), h)
build_cache succeeds (suc n) file cache is_null h =
    let total = word (get_or file 2 0) (get_or file 3 0) in
    let (made, h') = realloc succeeds is_null h in
    let rest = build_cache succeeds n (drop total file) (cache ++ take total file) false h' in
    if ltb (length file) 4
    then (ok none, h)
    else if ltb total 4
    then (ok none, h)
    else if made
    then (if ltb (length (drop 4 file)) (total - 4) then (ok none, h') else rest)
    else (err no_mem, h')

-- The request that `usbyb_perform_transfer` reads from the buffer.
unfoldable pub ctrl_transfer : List ℕ → CtrlTransfer
ctrl_transfer buffer = record {
  b_request_type = get_or buffer 0 0;
  b_request = get_or buffer 1 0;
  w_value = word (get_or buffer 2 0) (get_or buffer 3 0);
  w_index = word (get_or buffer 4 0) (get_or buffer 5 0);
  w_length = word (get_or buffer 6 0) (get_or buffer 7 0);
  timeout = 0;
}

unfoldable pub status_of : Errno → TransferStatus
status_of enodev = TransferStatus.no_device
status_of epipe = stall
status_of _ = error

-- What follows the ioctl.
unfoldable pub finish_control : Transfer → (Errno ⊎ ℕ) × List ℕ → Transfer
finish_control t (inr n, memory) = record t {
  actual_length = n + 8;
  status = completed;
  buffer = take 8 t.buffer ++ memory;
}
finish_control t (inl e, memory) = record t {
  status = status_of e;
  buffer = take 8 t.buffer ++ memory;
}

abbrev pub is_control : TransferType → Bool
is_control control = true
is_control _ = false

-- `if (ioctl(...) < 0) return usbfs_error(); return LIBUSBY_SUCCESS;`
abbrev pub success_or_error : Option Errno → Outcome ℕ
success_or_error none = ok 0
success_or_error (some e) = err (usbfs_error e)

module _ {ℓ} {K : Type ℓ} (k : Kernel K) where
  abbrev pub control_done :
      Transfer → Usbfs K → ((Errno ⊎ ℕ) × List ℕ) × K → (Outcome ℕ × Transfer) × Usbfs K
  control_done t s (r, kernel) = ((ok 0, finish_control t r), record s { kernel = kernel })

  unfoldable pub perform_transfer : Transfer → Usbfs K → (Outcome ℕ × Transfer) × Usbfs K
  perform_transfer t s =
      if is_control t.transfer_type && ltb (length t.buffer) 8
      then ((fault, t), s)
      else if is_control t.transfer_type
      then control_done t s
          (k.usbdevfs_control s.wrfd (ctrl_transfer t.buffer) (drop 8 t.buffer) s.kernel)
      else ((err not_supported, t), s)

  unfoldable pub claim_interface : ℕ → Usbfs K → Outcome ℕ × Usbfs K
  claim_interface interface_number s =
      let (r, kernel) = k.usbdevfs_claiminterface s.wrfd interface_number s.kernel in
      (success_or_error r, record s { kernel = kernel })

  unfoldable pub release_interface : ℕ → Usbfs K → Outcome ℕ × Usbfs K
  release_interface interface_number s =
      let (r, kernel) = k.usbdevfs_releaseinterface s.wrfd interface_number s.kernel in
      (success_or_error r, record s { kernel = kernel })

  unfoldable pub get_configuration : Bool → Usbfs K → Outcome ℕ × Usbfs K
  get_configuration cached_only s = elim s.active_config_value [
    | none ↦ (err not_supported, s)
    | some config_value ↦ (ok config_value, s)
  ]

  abbrev pub configured : ℕ → Usbfs K → Option Errno × K → Outcome ℕ × Usbfs K
  configured config_value s (none, kernel) =
      (ok 0, record s { kernel = kernel; active_config_value = some config_value })
  configured config_value s (some e, kernel) = (err (usbfs_error e), record s { kernel = kernel })

  unfoldable pub set_configuration : ℕ → Usbfs K → Outcome ℕ × Usbfs K
  set_configuration config_value s =
      configured config_value s (k.usbdevfs_setconfiguration s.wrfd config_value s.kernel)

  unfoldable pub init_transfer : Usbfs K → Outcome ℕ × Usbfs K
  init_transfer s =
      let (made, kernel) = k.pthread_cond_init s.kernel in
      (if made then ok 0 else err no_mem, record s { kernel = kernel })

  -- Submission and waiting, which other threads take part in, are arguments.
  abbrev pub backend :
      (Transfer → Usbfs K → (Outcome ℕ × Transfer) × Usbfs K)
      → (Transfer → Usbfs K → (Outcome ℕ × Transfer) × Usbfs K)
      → Backend (Usbfs K)
  backend submit wait = record {
    init_transfer = init_transfer;
    clear_transfer = λ s. s;
    perform_transfer = perform_transfer;
    submit_transfer = submit;
    wait_for_transfer = wait;
    get_descriptor = λ desc desc_type desc_index langid length_ s.
        (get_descriptor_cached desc s.desc_cache desc_type desc_index langid length_, s);
    get_configuration = get_configuration;
    set_configuration = set_configuration;
  }
