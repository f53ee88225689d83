-- ===== src/Handles/Search.antt =====
-- `libusby_open_device_with_vid_pid` of src/libusby.c. The enumeration is an argument: it returns an
-- error code, or the array of devices with one reference for each of its cells.
pub mod Loops
pub mod Found
use libusby.Base.{
  ℕ, zero, suc, Bool, true, false, ◌&&◌, List, [], ◌∷◌, Option, none, some, ◌==◌, if◌then◌else◌,
  Outcome, ok, err, fault, stuck, ◌>>=◌, Allocator,
}
use libusby.Devices.Ring.{update}
use libusby.Devices.Array.{DeviceList}
use libusby.Devices.Descriptor.{DeviceDescriptor, get_device_descriptor_cached}
use libusby.Transfer.{World}
use libusby.Requests.{get_device_descriptor}
use libusby.Handles.{Driver, Store, open_device, close_device, free_device_list}

abbrev pub is_product : ℕ → ℕ → DeviceDescriptor → Bool
is_product vendor_id product_id desc = desc.id_vendor == vendor_id && desc.id_product == product_id

-- A descriptor was delivered, and is that of the product.
abbrev pub matches : ℕ → ℕ → Outcome DeviceDescriptor → Bool
matches vendor_id product_id (ok desc) = is_product vendor_id product_id desc
matches vendor_id product_id _ = false

-- `device_list[i]`, used without a test.
abbrev pub deref_device {ℓ} : {A : Type ℓ} → Option ℕ → (ℕ → Outcome A) → Outcome A
deref_device none k = fault
deref_device (some dev) k = k dev

module _ {ℓ} {S : Type ℓ} (drv : Driver S) (succeeds : Allocator)
    (junk vendor_id product_id : ℕ) where
  -- A loop ends at the first handle; `k` is the rest of it.
  abbrev pub or_next :
      Outcome ℕ × Store S → (Store S → Outcome (Option ℕ × Store S)) → Outcome (Option ℕ × Store S)
  or_next (ok h, s) k = ok (some h, s)
  or_next (err e, s) k = k s
  or_next (fault, s) k = fault
  or_next (stuck, s) k = stuck

  -- The first loop, with `n` rounds left: what is known of the devices without a request.
  unfoldable pub open_cached : ℕ → List (Option ℕ) → Store S → Outcome (Option ℕ × Store S)
  open_cached zero cells s = ok (none, s)
  open_cached (suc n) [] s = fault
  open_cached (suc n) (cell ∷ cells) s = deref_device cell λ dev.
      if matches vendor_id product_id (get_device_descriptor_cached (s.device_desc dev))
      then or_next (open_device drv succeeds dev s) (open_cached n cells)
      else open_cached n cells s

  -- `libusby_get_device_descriptor(handle, &desc)`, which may fill the device's descriptor in.
  abbrev pub describe : ℕ → Store S → Outcome DeviceDescriptor × Store S
  describe dev s =
      let ((r, desc), w) =
        get_device_descriptor (drv.handle dev) succeeds junk (s.device_desc dev) s.world in
      (r, record s { world = w; device_desc = update s.device_desc dev desc })

  abbrev pub keep_match :
      ℕ
      → Outcome DeviceDescriptor × Store S
      → (Store S → Outcome (Option ℕ × Store S))
      → Outcome (Option ℕ × Store S)
  keep_match dev (ok desc, s) k =
      if is_product vendor_id product_id desc
      then ok (some dev, s)
      else close_device drv dev s >>= k
  keep_match dev (err e, s) k = close_device drv dev s >>= k
  keep_match dev (fault, s) k = fault
  keep_match dev (stuck, s) k = stuck

  abbrev pub described :
      Outcome ℕ × Store S → (Store S → Outcome (Option ℕ × Store S)) → Outcome (Option ℕ × Store S)
  described (ok h, s) k = keep_match h (describe h s) k
  described (err e, s) k = k s
  described (fault, s) k = fault
  described (stuck, s) k = stuck

  -- The second loop: every device is opened and asked.
  unfoldable pub open_asked : ℕ → List (Option ℕ) → Store S → Outcome (Option ℕ × Store S)
  open_asked zero cells s = ok (none, s)
  open_asked (suc n) [] s = fault
  open_asked (suc n) (cell ∷ cells) s =
      deref_device cell λ dev. described (open_device drv succeeds dev s) (open_asked n cells)

  abbrev pub or_ask_all : DeviceList → Option ℕ × Store S → Outcome (Option ℕ × Store S)
  or_ask_all l (none, s) = open_asked l.count l.list s
  or_ask_all l (some h, s) = ok (some h, s)

  abbrev pub search_list : DeviceList → Store S → Outcome (Option ℕ × Store S)
  search_list l s = open_cached l.count l.list s >>= or_ask_all l >>= λ (h, s').
      free_device_list drv l.list true s' >>= λ s''. ok (h, s'')

  -- The handle, or `none` for NULL.
  unfoldable pub open_device_with_vid_pid :
      Outcome DeviceList × Store S → Outcome (Option ℕ × Store S)
  open_device_with_vid_pid (ok l, s) = search_list l s
  open_device_with_vid_pid (err e, s) = ok (none, s)
  open_device_with_vid_pid (fault, s) = fault
  open_device_with_vid_pid (stuck, s) = stuck
