-- ===== src/Requests/Cached.antt =====
-- The requests of src/libusby.c that build on others: `libusby_get_config_descriptor_cached`, where
-- `cached` is the `usbyb_get_descriptor_cached` of the device, and
-- `libusby_get_active_config_descriptor`.
pub mod Agreement
use libusby.Base.{
  ℕ, ◌%◌, ◌^◌, Bool, true, false, List, [], ◌∷◌, if◌then◌else◌, get_or, replicate, word, Outcome,
  Error, ok, err, fault, stuck, no_mem, Allocator, Heap, malloc, free,
}
use libusby.Config.{ConfigDescriptor}
use libusby.Config.{sanitize_config_descriptor}
use libusby.Devices.Descriptor.{DeviceDescriptor}
use libusby.Transfer.{Backend, World}
use libusby.Requests.{
  store_bytes, with_system, with_heap, proceed, get_configuration, get_config_descriptor_by_value,
}

module _ {ℓ} {S : Type ℓ} (cached : ℕ → ℕ → ℕ → ℕ → S → Outcome (List ℕ) × S) (succeeds : Allocator)
    (junk : ℕ) where
  abbrev pub read_cached : ℕ → List ℕ → ℕ → World S → (Outcome ℕ × List ℕ) × World S
  read_cached config_index data_ length_ w =
      let (r, s) = cached 2 config_index 0 length_ w.system in
      (store_bytes data_ r, with_system w s)

  abbrev pub sanitize_cached : (Outcome ℕ × List ℕ) × World S → Outcome ConfigDescriptor × World S
  sanitize_cached r =
      let (c, w) = proceed r λ n raw w.
        let (c, h) = sanitize_config_descriptor succeeds raw (n % 2 ^ 16) w.heap in
        (c, with_heap w h) in
      (c, with_heap w (free w.heap))

  abbrev pub read_total : ℕ → ℕ → World S → Outcome ConfigDescriptor × World S
  read_total config_index total w =
      let (made, h) = malloc succeeds w.heap in
      if made
      then sanitize_cached (read_cached config_index (replicate total junk) total (with_heap w h))
      else (err no_mem, with_heap w h)

  unfoldable pub get_config_descriptor_cached : ℕ → World S → Outcome ConfigDescriptor × World S
  get_config_descriptor_cached config_index w =
      proceed (read_cached config_index (replicate 6 junk) 6 w)
        λ n header w. read_total config_index (word (get_or header 2 0) (get_or header 3 0)) w

module _ {ℓ} {S : Type ℓ} (b : Backend S) (succeeds : Allocator) (junk : ℕ) where
  -- The value is passed on as a `uint8_t`.
  abbrev pub by_value :
      DeviceDescriptor
      → Outcome ℕ × World S
      → (Outcome ConfigDescriptor × DeviceDescriptor) × World S
  by_value device_desc (ok value, w) =
      get_config_descriptor_by_value b succeeds junk device_desc (value % 2 ^ 8) w
  by_value device_desc (err e, w) = ((err e, device_desc), w)
  by_value device_desc (fault, w) = ((fault, device_desc), w)
  by_value device_desc (stuck, w) = ((stuck, device_desc), w)

  unfoldable pub get_active_config_descriptor :
      DeviceDescriptor → World S → (Outcome ConfigDescriptor × DeviceDescriptor) × World S
  get_active_config_descriptor device_desc w =
      by_value device_desc (get_configuration b succeeds junk w)
