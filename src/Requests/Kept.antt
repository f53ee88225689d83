-- ===== src/Requests/Kept.antt =====
-- `libusby_get_device_descriptor` of src/libusby.c: what it stores in the device.
use libusby.Base.{
  ℕ, ◌≡◌, refl, List, replicate, ◌==◌, if-intro, Outcome, ok, err, fault, stuck, Allocator,
}
use libusby.Devices.Descriptor.{
  DeviceDescriptor, sanitize_device_desc, get_device_descriptor_cached,
}
use libusby.Transfer.{World, Backend}
use libusby.Requests.{get_device_descriptor, get_descriptor, device_desc_read}

-- A descriptor that is delivered is kept for the device.
abbrev pub IsKept : Outcome DeviceDescriptor × DeviceDescriptor → Type 0
IsKept (ok desc, kept) = kept ≡ desc
IsKept _ = Unit

abbrev pub IsAnswer {ℓ} : {A : Type ℓ} → Outcome A → Type 0
IsAnswer (ok a) = Unit
IsAnswer (err e) = Unit
IsAnswer _ = ⊥

sanitize_into-IsKept :
    (desc : DeviceDescriptor) (r : Outcome DeviceDescriptor)
    → IsKept (elim r [
      | ok d ↦ (ok d, d)
      | err e ↦ (err e, desc)
      | fault ↦ (fault, desc)
      | stuck ↦ (stuck, desc)
    ])
sanitize_into-IsKept desc (ok d) = refl
sanitize_into-IsKept desc (err e) = tt
sanitize_into-IsKept desc fault = tt
sanitize_into-IsKept desc stuck = tt

device_desc_read-IsKept {ℓ} :
    {S : Type ℓ} (desc : DeviceDescriptor) (r : (Outcome ℕ × List ℕ) × World S)
    → IsKept (device_desc_read desc r).0
device_desc_read-IsKept desc ((ok n, raw), w) = sanitize_into-IsKept desc (sanitize_device_desc raw)
device_desc_read-IsKept desc ((err e, raw), w) = tt
device_desc_read-IsKept desc ((fault, raw), w) = tt
device_desc_read-IsKept desc ((stuck, raw), w) = tt

abbrev pub or_read {ℓ} :
    {S : Type ℓ}
    → DeviceDescriptor
    → World S
    → (Outcome DeviceDescriptor × DeviceDescriptor) × World S
    → Outcome DeviceDescriptor
    → (Outcome DeviceDescriptor × DeviceDescriptor) × World S
or_read desc w ask r = elim r [ ok d ↦ ((ok d, desc), w) | _ ↦ ask ]

pub get_device_descriptor-IsKept {ℓ} :
    {S : Type ℓ} (b : Backend S) (succeeds : Allocator) (junk : ℕ) (desc : DeviceDescriptor)
    (w : World S)
    → IsKept (get_device_descriptor b succeeds junk desc w).0
unfolding get_device_descriptor get_device_descriptor_cached
get_device_descriptor-IsKept b succeeds junk desc w =
    let ask =
      device_desc_read desc (get_descriptor b succeeds junk desc 1 0 (replicate 18 junk) 18 w) in
    if-intro (λ r. IsKept (or_read desc w ask r).0) (desc.b_length == 18) (λ _. refl)
      (λ _. device_desc_read-IsKept desc _)

-- A descriptor that is known already is an answer.
pub get_device_descriptor-IsAnswer {ℓ} :
    {S : Type ℓ} (b : Backend S) (succeeds : Allocator) (junk : ℕ) (desc : DeviceDescriptor)
    (w : World S)
    → IsAnswer
        (device_desc_read desc
          (get_descriptor b succeeds junk desc 1 0 (replicate 18 junk) 18 w)).0.0
    → IsAnswer (get_device_descriptor b succeeds junk desc w).0.0
unfolding get_device_descriptor get_device_descriptor_cached
get_device_descriptor-IsAnswer b succeeds junk desc w a =
    let ask =
      device_desc_read desc (get_descriptor b succeeds junk desc 1 0 (replicate 18 junk) 18 w) in
    if-intro (λ r. IsAnswer (or_read desc w ask r).0.0) (desc.b_length == 18) (λ _. tt) (λ _. a)
