-- ===== src/Requests/Cached/Agreement.antt =====
-- Requests of src/libusby.c with and without an open handle, and the active configuration.
use libusby.Base.{
  ℕ, zero, suc, ◌+◌, ◌%◌, ◌^◌, ◌≡◌, refl, false, List, ◌==◌, ==→eq, Bool-cases, inl, inr, get_or,
  replicate, word, Outcome, ok, err, fault, stuck, Allocator, malloc,
}
use libusby.Config.{ConfigDescriptor}
use libusby.Config.{free_config_descriptor}
use libusby.Devices.Descriptor.{DeviceDescriptor}
use libusby.Transfer.{Backend, World, is_not_supported}
use libusby.Requests.{
  with_heap, proceed, get_descriptor, get_configuration, get_config_descriptor, config_found,
  free_config_and, find_config, find_in, get_device_descriptor, get_config_descriptor_by_value,
}
use libusby.Requests.Cached.{
  read_cached, get_config_descriptor_cached, by_value, get_active_config_descriptor,
}

-- What is delivered for the value that the request for the configuration returns: its low byte
-- is the value of the configuration.
abbrev pub IsActive : Outcome ℕ → Outcome ConfigDescriptor → Type 0
IsActive r (ok c) = (value : ℕ) × (r ≡ ok value) × (c.header.b_configuration_value ≡ value % 2 ^ 8)
IsActive r _ = Unit

module _ {ℓ} {S : Type ℓ} (b : Backend S) (succeeds : Allocator) (junk : ℕ) where
  -- A configuration that is found has the value asked for.
  abbrev HasValue : ℕ → Outcome ConfigDescriptor → Type 0
  HasValue value (ok c) = c.header.b_configuration_value ≡ value
  HasValue value _ = Unit

  config_found-HasValue :
      (value : ℕ) (r : Outcome ConfigDescriptor × World S)
      (k : World S → Outcome ConfigDescriptor × World S)
      → ((w : World S) → HasValue value (k w).0)
      → HasValue value (config_found b succeeds junk value r k).0
  config_found-HasValue value (ok c, w) k next =
      elim (Bool-cases (c.header.b_configuration_value == value)) [
        | inl e ↦ rw e (==→eq c.header.b_configuration_value value e)
        | inr e ↦ rw e (freed (free_config_descriptor c))
      ]
    where
      freed : (f : Outcome ℕ) → HasValue value (free_config_and b succeeds junk f w k).0
      freed (ok n) = next _
      freed (err e) = tt
      freed fault = tt
      freed stuck = tt
  config_found-HasValue value (err e, w) k next = tt
  config_found-HasValue value (fault, w) k next = tt
  config_found-HasValue value (stuck, w) k next = tt

  find_config-HasValue :
      (device_desc : DeviceDescriptor) (value n i : ℕ) (w : World S)
      → HasValue value (find_config b succeeds junk device_desc value n i w).0
  unfolding find_config
  find_config-HasValue device_desc value zero i w = tt
  find_config-HasValue device_desc value (suc n) i w =
      config_found-HasValue value _ _ (find_config-HasValue device_desc value n (i + 1))

  by_value-IsActive :
      (device_desc : DeviceDescriptor) (r : Outcome ℕ × World S)
      → IsActive r.0 (by_value b succeeds junk device_desc r).0.0
  unfolding get_config_descriptor_by_value
  by_value-IsActive device_desc (ok value, w) =
      go (get_device_descriptor b succeeds junk device_desc w)
    where
      active : (c : Outcome ConfigDescriptor) → HasValue (value % 2 ^ 8) c → IsActive (ok value) c
      active (ok c) h = (value, refl, h)
      active (err e) h = tt
      active fault h = tt
      active stuck h = tt

      go :
          (d : (Outcome DeviceDescriptor × DeviceDescriptor) × World S)
          → IsActive (ok value) (find_in b succeeds junk (value % 2 ^ 8) d).0.0
      go ((ok desc, kept), w') =
          active _ (find_config-HasValue kept (value % 2 ^ 8) desc.b_num_configurations 0 w')
      go ((err e, kept), w') = tt
      go ((fault, kept), w') = tt
      go ((stuck, kept), w') = tt
  by_value-IsActive device_desc (err e, w) = tt
  by_value-IsActive device_desc (fault, w) = tt
  by_value-IsActive device_desc (stuck, w) = tt

  -- Over every backend, a descriptor that `libusby_get_active_config_descriptor` delivers is of a
  -- configuration whose value is the low byte of what `libusby_get_configuration` returns.
  pub get_active_config_descriptor-IsActive :
      (device_desc : DeviceDescriptor) (w : World S)
      → IsActive
          (get_configuration b succeeds junk w).0
          (get_active_config_descriptor b succeeds junk device_desc w).0.0
  unfolding get_active_config_descriptor
  get_active_config_descriptor-IsActive device_desc w =
      by_value-IsActive device_desc (get_configuration b succeeds junk w)

proceed-cong {ℓ κ} :
    {S : Type ℓ} {A : Type κ} (r : (Outcome ℕ × List ℕ) × World S)
    (k k' : ℕ → List ℕ → World S → Outcome A × World S)
    → ((n : ℕ) (data_ : List ℕ) (w : World S) → k n data_ w ≡ k' n data_ w)
    → proceed r k ≡ proceed r k'
proceed-cong ((ok n, data_), w) k k' e = e n data_ w
proceed-cong ((err x, data_), w) k k' e = refl
proceed-cong ((fault, data_), w) k k' e = refl
proceed-cong ((stuck, data_), w) k k' e = refl

module _ {ℓ} {S : Type ℓ} (b : Backend S) (succeeds : Allocator) (junk : ℕ)
    (cached : ℕ → ℕ → ℕ → ℕ → S → Outcome (List ℕ) × S) (device_desc : DeviceDescriptor)
    (same : (i length_ : ℕ) (s : S)
      → b.get_descriptor device_desc 2 i 0 length_ s ≡ cached 2 i 0 length_ s)
    (supported : (i length_ : ℕ) (s : S)
      → is_not_supported (cached 2 i 0 length_ s).0 ≡ false) where
  get_descriptor-cached :
      (i : ℕ) (data_ : List ℕ) (length_ : ℕ) (w : World S)
      → get_descriptor b succeeds junk device_desc 2 i data_ length_ w
        ≡ read_cached cached succeeds junk i data_ length_ w
  unfolding get_descriptor
  get_descriptor-cached i data_ length_ w =
      rw (same i length_ w.system, supported i length_ w.system) refl

  -- Where the backend answers for a handle what it answers for the device, and supports both,
  -- `libusby_get_config_descriptor` and `libusby_get_config_descriptor_cached` do the same.
  pub get_config_descriptor-cached :
      (config_index : ℕ) (w : World S)
      → get_config_descriptor b succeeds junk device_desc config_index w
        ≡ get_config_descriptor_cached cached succeeds junk config_index w
  unfolding get_config_descriptor get_config_descriptor_cached
  get_config_descriptor-cached config_index w =
      rw (get_descriptor-cached config_index (replicate 6 junk) 6 w) (
        proceed-cong (read_cached cached succeeds junk config_index (replicate 6 junk) 6 w) _ _
          (λ n header w'.
            rw
              (get_descriptor-cached config_index
                (replicate (word (get_or header 2 0) (get_or header 3 0)) junk)
                (word (get_or header 2 0) (get_or header 3 0))
                (with_heap w' (malloc succeeds w'.heap).1))
              refl))
