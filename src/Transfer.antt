-- ===== src/Transfer.antt =====
-- Transfers of src/libusby.c (`libusby_alloc_transfer` to `libusby_perform_transfer`, and
-- `libusby_control_transfer`) over the transfer struct of src/libusby.h.
-- The functions of src/os/os.h that they call are the fields of a `Backend`, which works on a
-- state of its own; a backend is built from src/os/linux_usbfs.c in Usbfs.antt. A transfer's
-- buffer is its contents; no operation here moves the pointer. `junk` is the byte that fills
-- memory from malloc.
pub mod Memory
use libusby.Base.{
  ℕ, ◌+◌, ◌-◌, ◌*◌, ◌%◌, Bool, true, false, not, ◌||◌, List, [], ◌∷◌, ◌++◌, Option, none, some, ltb,
  if◌then◌else◌, length, get_or, take, drop, replicate, u8, shr, word, Outcome, ok, err, fault,
  stuck, ◌>>=◌, io, no_mem, not_supported, Allocator, Heap, malloc, free,
}
use libusby.Devices.Descriptor.{DeviceDescriptor}

pub data TransferType : Type 0 where
  control isochronous bulk interrupt : TransferType

pub data TransferStatus : Type 0 where
  completed error timed_out cancelled stall no_device overflow : TransferStatus

pub record IsoPacketDescriptor : Type 0 where
  pub packet_length : ℕ
  pub packet_actual_length : ℕ
  pub packet_status : TransferStatus

pub record Transfer : Type 0 where
  pub dev_handle : ℕ
  pub flags : ℕ
  pub endpoint : ℕ
  pub transfer_type : TransferType
  pub timeout : ℕ
  pub status : TransferStatus
  pub requested : ℕ
  pub actual_length : ℕ
  pub callback : Option ℕ
  pub user_data : ℕ
  pub buffer : List ℕ
  pub num_iso_packets : ℕ
  pub iso_packet_desc : List IsoPacketDescriptor

-- The functions of src/os/os.h that a transfer or a request needs, each with its return value,
-- what it stores behind its pointers and the new state.
pub record Backend {ℓ} (S : Type ℓ) : Type ℓ where
  pub init_transfer : S → Outcome ℕ × S
  pub clear_transfer : S → S
  pub perform_transfer : Transfer → S → (Outcome ℕ × Transfer) × S
  pub submit_transfer : Transfer → S → (Outcome ℕ × Transfer) × S
  pub wait_for_transfer : Transfer → S → (Outcome ℕ × Transfer) × S
  pub get_descriptor : DeviceDescriptor → ℕ → ℕ → ℕ → ℕ → S → Outcome (List ℕ) × S
  pub get_configuration : Bool → S → Outcome ℕ × S
  pub set_configuration : ℕ → S → Outcome ℕ × S

pub record World {ℓ} (S : Type ℓ) : Type ℓ where
  pub heap : Heap
  pub system : S

-- `if (r == LIBUSBY_ERROR_NOT_SUPPORTED)`
abbrev pub is_not_supported {ℓ} : {A : Type ℓ} → Outcome A → Bool
is_not_supported (err not_supported) = true
is_not_supported _ = false

-- `r >= 0`
abbrev pub is_ok {ℓ} : {A : Type ℓ} → Outcome A → Bool
is_ok (ok a) = true
is_ok _ = false

abbrev pub is_completed : TransferStatus → Bool
is_completed completed = true
is_completed _ = false

-- `memset(res, 0, alloc_size)`. The field `num_iso_packets` of the public struct stays 0.
abbrev pub zero_transfer : Transfer
zero_transfer = record {
  dev_handle = 0;
  flags = 0;
  endpoint = 0;
  transfer_type = control;
  timeout = 0;
  status = completed;
  requested = 0;
  actual_length = 0;
  callback = none;
  user_data = 0;
  buffer = [];
  num_iso_packets = 0;
  iso_packet_desc = [];
}

abbrev pub fill_bulk_transfer : Transfer → ℕ → ℕ → List ℕ → ℕ → Option ℕ → ℕ → ℕ → Transfer
fill_bulk_transfer t dev_handle endpoint buffer length_ callback user_data timeout = record {
  dev_handle = dev_handle;
  flags = 0;
  endpoint = endpoint;
  transfer_type = bulk;
  timeout = timeout;
  status = completed;
  requested = length_;
  actual_length = 0;
  callback = callback;
  user_data = user_data;
  buffer = buffer;
  num_iso_packets = t.num_iso_packets;
  iso_packet_desc =
      replicate t.num_iso_packets
        (record { packet_length = 0; packet_actual_length = 0; packet_status = completed });
}

unfoldable pub fill_control_transfer : Transfer → ℕ → List ℕ → Option ℕ → ℕ → ℕ → Transfer
fill_control_transfer t dev_handle buffer callback user_data timeout = record t {
  dev_handle = dev_handle;
  buffer = buffer;
  callback = callback;
  user_data = user_data;
  timeout = timeout;
  endpoint = 0;
  requested = word (get_or buffer 6 0) (get_or buffer 7 0) + 8;
  transfer_type = control;
}

-- `buffer[0]` to `buffer[7]` of `libusby_control_transfer`.
unfoldable pub setup_packet : ℕ → ℕ → ℕ → ℕ → ℕ → List ℕ
setup_packet bm_request_type b_request w_value w_index w_length =
    bm_request_type
    ∷ b_request
    ∷ u8 w_value
    ∷ u8 (shr w_value 8)
    ∷ u8 w_index
    ∷ u8 (shr w_index 8)
    ∷ u8 w_length
    ∷ u8 (shr w_length 8)
    ∷ []

-- What `libusby_control_transfer` does behind the transfer: its return value, and the memory at
-- `data`.
unfoldable pub deliver : Outcome ℕ → Transfer → List ℕ → Outcome ℕ × List ℕ
deliver (ok n) t data_ =
    if not (is_completed t.status)
    then (err io, data_)
    else if ltb t.actual_length 8
    then (fault, data_)
    else if ltb (length t.buffer) t.actual_length || ltb (length data_) (t.actual_length - 8)
    then (fault, data_)
    else (
      ok (t.actual_length - 8),
      take (t.actual_length - 8) (drop 8 t.buffer) ++ drop (t.actual_length - 8) data_,
    )
deliver r t data_ = (r, data_)

-- `if (!tran) return LIBUSBY_ERROR_NO_MEM;`
abbrev pub with_transfer {ℓ κ} :
    {S : Type ℓ} {A : Type κ}
    → A
    → (Transfer → World S → A × World S)
    → Option Transfer × World S
    → A × World S
with_transfer failed k (none, w) = (failed, w)
with_transfer failed k (some t, w) = k t w

module _ {ℓ} {S : Type ℓ} (b : Backend S) where
  unfoldable pub free_transfer : World S → World S
  free_transfer w = record { heap = free w.heap; system = b.clear_transfer w.system }

  abbrev pub wait_submitted : (Outcome ℕ × Transfer) × S → (Outcome ℕ × Transfer) × S
  wait_submitted ((r, t), s) = if is_ok r then b.wait_for_transfer t s else ((r, t), s)

  abbrev pub or_submit : (Outcome ℕ × Transfer) × S → (Outcome ℕ × Transfer) × S
  or_submit ((r, t), s) =
      if is_not_supported r then wait_submitted (b.submit_transfer t s) else ((r, t), s)

  unfoldable pub perform_transfer : Transfer → S → (Outcome ℕ × Transfer) × S
  perform_transfer t s = or_submit (b.perform_transfer t s)

  -- From the transfer to the two calls of free.
  abbrev pub deliver_and_free :
      Heap → List ℕ → (Outcome ℕ × Transfer) × S → (Outcome ℕ × List ℕ) × World S
  deliver_and_free h data_ ((r, t), s) =
      (deliver r t data_, free_transfer (record { heap = free h; system = s }))

  -- `if (r >= 0) *transferred = tran->actual_length;`, with the memory at `data`.
  abbrev pub transferred_and_free :
      Heap → (Outcome ℕ × Transfer) × S → (Outcome (ℕ × ℕ) × List ℕ) × World S
  transferred_and_free h ((r, t), s) = (
    (r >>= λ n. ok (n, t.actual_length), t.buffer),
    free_transfer (record { heap = h; system = s }),
  )

module _ {ℓ} {S : Type ℓ} (b : Backend S) (succeeds : Allocator) where
  -- `if (usbyb_init_transfer(res) < 0)`
  abbrev pub init_allocated : Outcome ℕ × S → Heap → Option Transfer × World S
  init_allocated (r, s) h =
      if is_ok r
      then (some zero_transfer, record { heap = h; system = s })
      else (none, record { heap = free h; system = s })

  unfoldable pub alloc_transfer : World S → Option Transfer × World S
  alloc_transfer w =
      let (made, h) = malloc succeeds w.heap in
      if made
      then init_allocated (b.init_transfer w.system) h
      else (none, record { heap = h; system = w.system })

  -- From the second malloc on.
  abbrev pub control_with_transfer :
      ℕ → ℕ → List ℕ → List ℕ → ℕ → ℕ → Transfer → World S → (Outcome ℕ × List ℕ) × World S
  control_with_transfer junk dev_handle setup data_ w_length timeout t w =
      let (made, h) = malloc succeeds w.heap in
      let buffer = setup ++ replicate w_length junk in
      if made
      then deliver_and_free b h data_
          (perform_transfer b (fill_control_transfer t dev_handle buffer none 0 timeout) w.system)
      else ((err no_mem, data_), free_transfer b (record { heap = h; system = w.system }))

  unfoldable pub control_transfer :
      ℕ → ℕ → ℕ → ℕ → ℕ → ℕ → List ℕ → ℕ → ℕ → World S → (Outcome ℕ × List ℕ) × World S
  control_transfer junk dev_handle bm_request_type b_request w_value w_index data_ w_length timeout
        w =
      with_transfer (err no_mem, data_)
        (control_with_transfer junk dev_handle
          (setup_packet bm_request_type b_request w_value w_index w_length) data_ w_length timeout)
        (alloc_transfer w)

  unfoldable pub bulk_transfer :
      ℕ → ℕ → List ℕ → ℕ → ℕ → World S → (Outcome (ℕ × ℕ) × List ℕ) × World S
  bulk_transfer dev_handle endpoint data_ length_ timeout w =
      with_transfer (err no_mem, data_)
        (λ t w'. transferred_and_free b w'.heap (
          perform_transfer b (fill_bulk_transfer t dev_handle endpoint data_ length_ none 0 timeout)
            w'.system))
        (alloc_transfer w)
