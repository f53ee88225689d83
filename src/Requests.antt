-- ===== src/Requests.antt =====
-- Requests of src/libusby.c on an open handle: descriptors and configurations, asked of the
-- backend first and of the device by a control transfer where the backend does not support them.
-- `data` is the caller's memory; each function returns what it holds afterwards. `device_desc` is
-- the field of the device behind the handle.
pub mod Usbfs
pub mod Kept
pub mod Cached
pub mod Memory
use libusby.Base.{
  ℕ, zero, suc, ◌+◌, ◌-◌, ◌*◌, ◌%◌, ◌^◌, bit_or, Bool, true, false, List, [], ◌∷◌, ◌++◌, Option,
  none, some, ltb, ◌==◌, if◌then◌else◌, length, get_or, drop, replicate, word, Outcome, ok, err,
  fault, stuck, io, no_mem, not_found, Allocator, Heap, malloc, free,
}
use libusby.Config.{ConfigDescriptor, sanitize_config_descriptor, free_config_descriptor}
use libusby.Devices.Descriptor.{
  DeviceDescriptor, sanitize_device_desc, get_device_descriptor_cached,
}
use libusby.Transfer.{Backend, World, is_not_supported, control_transfer}

-- The copy of the bytes that a backend delivers.
abbrev pub store_bytes : List ℕ → Outcome (List ℕ) → Outcome ℕ × List ℕ
store_bytes data_ (ok bytes) =
    if ltb (length data_) (length bytes)
    then (fault, data_)
    else (ok (length bytes), bytes ++ drop (length bytes) data_)
store_bytes data_ (err e) = (err e, data_)
store_bytes data_ fault = (fault, data_)
store_bytes data_ stuck = (stuck, data_)

abbrev pub with_system {ℓ} : {S : Type ℓ} → World S → S → World S
with_system w s = record w { system = s }

abbrev pub with_heap {ℓ} : {S : Type ℓ} → World S → Heap → World S
with_heap w h = record w { heap = h }

-- `if (r < 0) return r;`, with the return value and the memory of the call before.
abbrev pub proceed {ℓ κ} :
    {S : Type ℓ} {A : Type κ}
    → (Outcome ℕ × List ℕ) × World S
    → (ℕ → List ℕ → World S → Outcome A × World S)
    → Outcome A × World S
proceed ((ok n, data_), w) k = k n data_ w
proceed ((err e, data_), w) k = (err e, w)
proceed ((fault, data_), w) k = (fault, w)
proceed ((stuck, data_), w) k = (stuck, w)

module _ {ℓ} {S : Type ℓ} (b : Backend S) (succeeds : Allocator) (junk : ℕ) where
  -- `usbyb_get_descriptor`, then a request GET_DESCRIPTOR where that is not supported.
  abbrev pub or_request :
      ℕ → ℕ → List ℕ → ℕ → World S → Outcome (List ℕ) × S → (Outcome ℕ × List ℕ) × World S
  or_request value index data_ length_ w (r, s) =
      if is_not_supported r
      then control_transfer b succeeds junk 0 128 6 value index data_ (length_ % 2 ^ 16) 0
          (with_system w s)
      else (store_bytes data_ r, with_system w s)

  -- `r` and the byte of a request GET_CONFIGURATION.
  abbrev pub one_byte : (Outcome ℕ × List ℕ) × World S → Outcome ℕ × World S
  one_byte r = proceed r λ n data_ w. if n == 1 then (ok (get_or data_ 0 0), w) else (err io, w)

  abbrev pub or_ask : World S → Outcome ℕ × S → Outcome ℕ × World S
  or_ask w (r, s) =
      if is_not_supported r
      then one_byte (control_transfer b succeeds junk 0 128 8 0 0 (junk ∷ []) 1 0 (with_system w s))
      else (r, with_system w s)

  -- The configuration value.
  unfoldable pub get_configuration : World S → Outcome ℕ × World S
  get_configuration w = or_ask w (b.get_configuration false w.system)

  -- `if (r == 0) r = LIBUSBY_SUCCESS; else r = LIBUSBY_ERROR_IO;`
  abbrev pub zero_or_io : (Outcome ℕ × List ℕ) × World S → Outcome ℕ × World S
  zero_or_io ((ok n, data_), w) = if n == 0 then (ok 0, w) else (err io, w)
  zero_or_io ((err e, data_), w) = (err io, w)
  zero_or_io ((fault, data_), w) = (fault, w)
  zero_or_io ((stuck, data_), w) = (stuck, w)

  abbrev pub or_order : ℕ → World S → Outcome ℕ × S → Outcome ℕ × World S
  or_order config_value w (r, s) =
      if is_not_supported r
      then zero_or_io (
          control_transfer b succeeds junk 0 128 9 (config_value % 2 ^ 16) 0 [] 0 0
            (with_system w s))
      else (r, with_system w s)

  unfoldable pub set_configuration : ℕ → World S → Outcome ℕ × World S
  set_configuration config_value w =
      or_order config_value w (b.set_configuration config_value w.system)

module _ {ℓ} {S : Type ℓ} (b : Backend S) (succeeds : Allocator) (junk : ℕ)
    (device_desc : DeviceDescriptor) where
  unfoldable pub get_descriptor : ℕ → ℕ → List ℕ → ℕ → World S → (Outcome ℕ × List ℕ) × World S
  get_descriptor desc_type desc_index data_ length_ w =
      or_request b succeeds junk (bit_or desc_index (desc_type * 256)) 0 data_ length_ w
        (b.get_descriptor device_desc desc_type desc_index 0 length_ w.system)

  unfoldable pub get_string_descriptor :
      ℕ → ℕ → List ℕ → ℕ → World S → (Outcome ℕ × List ℕ) × World S
  get_string_descriptor desc_index langid data_ length_ w =
      or_request b succeeds junk (bit_or desc_index 768) langid data_ length_ w
        (b.get_descriptor device_desc 3 desc_index langid length_ w.system)

  -- The parse of what was read, and `free(rawdesc)`.
  abbrev pub sanitize_and_free : (Outcome ℕ × List ℕ) × World S → Outcome ConfigDescriptor × World S
  sanitize_and_free r =
      let (c, w) = proceed r λ n raw w.
        let (c, h) = sanitize_config_descriptor succeeds raw (n % 2 ^ 16) w.heap in
        (c, with_heap w h) in
      (c, with_heap w (free w.heap))

  abbrev pub read_config : ℕ → ℕ → World S → Outcome ConfigDescriptor × World S
  read_config config_index total w =
      let (made, h) = malloc succeeds w.heap in
      if made
      then sanitize_and_free
          (get_descriptor 2 config_index (replicate total junk) total (with_heap w h))
      else (err no_mem, with_heap w h)

  unfoldable pub get_config_descriptor : ℕ → World S → Outcome ConfigDescriptor × World S
  get_config_descriptor config_index w =
      proceed (get_descriptor 2 config_index (replicate 6 junk) 6 w)
        λ n header w. read_config config_index (word (get_or header 2 0) (get_or header 3 0)) w

-- The descriptor for the caller, and what `dev->device_desc` is from now on.
abbrev pub sanitize_into : DeviceDescriptor → List ℕ → Outcome DeviceDescriptor × DeviceDescriptor
sanitize_into device_desc raw = elim (sanitize_device_desc raw) [
  | ok desc ↦ (ok desc, desc)
  | err e ↦ (err e, device_desc)
  | fault ↦ (fault, device_desc)
  | stuck ↦ (stuck, device_desc)
]

abbrev pub device_desc_read {ℓ} :
    {S : Type ℓ}
    → DeviceDescriptor
    → (Outcome ℕ × List ℕ) × World S
    → (Outcome DeviceDescriptor × DeviceDescriptor) × World S
device_desc_read device_desc ((ok n, raw), w) = (sanitize_into device_desc raw, w)
device_desc_read device_desc ((err e, raw), w) = ((err e, device_desc), w)
device_desc_read device_desc ((fault, raw), w) = ((fault, device_desc), w)
device_desc_read device_desc ((stuck, raw), w) = ((stuck, device_desc), w)

module _ {ℓ} {S : Type ℓ} (b : Backend S) (succeeds : Allocator) (junk : ℕ) where
  unfoldable pub get_device_descriptor :
      DeviceDescriptor → World S → (Outcome DeviceDescriptor × DeviceDescriptor) × World S
  get_device_descriptor device_desc w = elim (get_device_descriptor_cached device_desc) [
    | ok desc ↦ ((ok desc, device_desc), w)
    | _ ↦
        device_desc_read device_desc
          (get_descriptor b succeeds junk device_desc 1 0 (replicate 18 junk) 18 w)
  ]

  -- `libusby_free_config_descriptor(config_desc)`, and on.
  abbrev pub free_config_and :
      Outcome ℕ
      → World S
      → (World S → Outcome ConfigDescriptor × World S)
      → Outcome ConfigDescriptor × World S
  free_config_and (ok freed) w k =
      k (with_heap w (record { calls = w.heap.calls; live = w.heap.live - freed }))
  free_config_and _ w k = (fault, w)

  abbrev pub config_found :
      ℕ
      → Outcome ConfigDescriptor × World S
      → (World S → Outcome ConfigDescriptor × World S)
      → Outcome ConfigDescriptor × World S
  config_found config_value (ok c, w) k =
      if c.header.b_configuration_value == config_value
      then (ok c, w)
      else free_config_and (free_config_descriptor c) w k
  config_found config_value (err e, w) k = (err e, w)
  config_found config_value (fault, w) k = (fault, w)
  config_found config_value (stuck, w) k = (stuck, w)

  -- `for (i = 0; i < desc.bNumConfigurations; ++i)`, with `n` rounds left.
  unfoldable pub find_config :
      DeviceDescriptor → ℕ → ℕ → ℕ → World S → Outcome ConfigDescriptor × World S
  find_config device_desc config_value zero i w = (err not_found, w)
  find_config device_desc config_value (suc n) i w =
      config_found config_value (get_config_descriptor b succeeds junk device_desc (i % 256) w)
        (find_config device_desc config_value n (i + 1))

  abbrev pub find_in :
      ℕ
      → (Outcome DeviceDescriptor × DeviceDescriptor) × World S
      → (Outcome ConfigDescriptor × DeviceDescriptor) × World S
  find_in config_value ((ok desc, device_desc), w) =
      let (r, w') = find_config device_desc config_value desc.b_num_configurations 0 w in
      ((r, device_desc), w')
  find_in config_value ((err e, device_desc), w) = ((err e, device_desc), w)
  find_in config_value ((fault, device_desc), w) = ((fault, device_desc), w)
  find_in config_value ((stuck, device_desc), w) = ((stuck, device_desc), w)

  unfoldable pub get_config_descriptor_by_value :
      DeviceDescriptor → ℕ → World S → (Outcome ConfigDescriptor × DeviceDescriptor) × World S
  get_config_descriptor_by_value device_desc config_value w =
      find_in config_value (get_device_descriptor device_desc w)
