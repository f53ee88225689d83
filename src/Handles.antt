-- ===== src/Handles.antt =====
-- Handles and reference counts of src/libusby.c: `usbyi_alloc_device`, `libusby_ref_device` to
-- `libusby_close`, `libusby_free_device_list` and `libusby_open_device_with_vid_pid`.
-- A device is named by its address, which is also that of its node in the ring; a handle is named
-- by its device. The functions of src/os/os.h that need more than one handle are a `Driver`: the
-- `Backend` of a device's handles, and what opens and closes them. `usbyb_finalize_device` takes
-- the node out of the ring in both backends; `finalize` is the rest of it. The use of a device that
-- was freed is a fault.
pub mod Counting
pub mod Listing
pub mod Search
use libusby.Base.{
  ℕ, zero, suc, ◌+◌, Bool, true, false, ◌||◌, not, List, [], ◌∷◌, Option, none, some, ltb, ◌==◌,
  if◌then◌else◌, increment, decrement, Outcome, Error, ok, err, fault, stuck, ◌>>=◌, no_mem,
  Allocator, Heap, malloc, free,
}
use libusby.Devices.Ring.{Links, update, remove_devlist_node, insert_before_devlist_node}
use libusby.Devices.Descriptor.{DeviceDescriptor, device_descriptor}
use libusby.Transfer.{Backend, World, is_ok}

-- `usbyb_open` returns an error code, or succeeds.
pub record Driver {ℓ} (S : Type ℓ) : Type ℓ where
  pub handle : ℕ → Backend S
  pub open_handle : ℕ → S → Option Error × S
  pub close_handle : ℕ → S → S
  pub finalize : ℕ → S → S

-- The devices: their fields of src/libusbyi.h, which of them were freed, and their nodes.
pub record Store {ℓ} (S : Type ℓ) : Type ℓ where
  pub world : World S
  pub ref_count : ℕ → ℕ
  pub device_desc : ℕ → DeviceDescriptor
  pub freed : ℕ → Bool
  pub links : Links

abbrev pub with_world {ℓ} : {S : Type ℓ} → Store S → World S → Store S
with_world s w = record s { world = w }

unfoldable pub ref_device {ℓ} : {S : Type ℓ} → ℕ → Store S → Outcome (Store S)
ref_device dev s =
    if s.freed dev
    then fault
    else ok (record s { ref_count = update s.ref_count dev (increment (s.ref_count dev)) })

module _ {ℓ} {S : Type ℓ} (drv : Driver S) where
  -- `usbyb_finalize_device(dev); free(dev);`
  unfoldable pub finalize_device : ℕ → Store S → Store S
  finalize_device dev s = record s {
    world = record { heap = free s.world.heap; system = drv.finalize dev s.world.system };
    freed = update s.freed dev true;
    links = (remove_devlist_node dev s.links).0;
  }

  unfoldable pub unref_device : ℕ → Store S → Outcome (Store S)
  unref_device dev s =
      let n = decrement (s.ref_count dev) in
      let s' = record s { ref_count = update s.ref_count dev n } in
      if s.freed dev then fault else if n == 0 then ok (finalize_device dev s') else ok s'

  -- The loop of `libusby_free_device_list`.
  unfoldable pub unref_devices : List (Option ℕ) → Store S → Outcome (Store S)
  unref_devices [] s = fault
  unref_devices (none ∷ cells) s = ok s
  unref_devices (some dev ∷ cells) s = unref_device dev s >>= unref_devices cells

  abbrev pub free_block : Store S → Store S
  free_block s = with_world s (record { heap = free s.world.heap; system = s.world.system })

  -- The empty list of cells is NULL.
  unfoldable pub free_device_list : List (Option ℕ) → Bool → Store S → Outcome (Store S)
  free_device_list [] unref_them s = ok s
  free_device_list (cell ∷ cells) unref_them s =
      (if unref_them then unref_devices (cell ∷ cells) s else ok s) >>= λ s'. ok (free_block s')

  -- A handle of the device, or an error code, and the devices afterwards.
  abbrev pub ref_opened : ℕ → Outcome (Store S) → Store S → Outcome ℕ × Store S
  ref_opened dev (ok s') s = (ok dev, s')
  ref_opened dev _ s = (fault, s)

  abbrev pub opened : ℕ → Option Error × S → Store S → Heap → Outcome ℕ × Store S
  opened dev (none, system) s h =
      let s' = with_world s (record { heap = h; system = system }) in
      ref_opened dev (ref_device dev s') s'
  opened dev (some e, system) s h =
      (err e, with_world s (record { heap = free h; system = system }))

  unfoldable pub open_device : Allocator → ℕ → Store S → Outcome ℕ × Store S
  open_device succeeds dev s =
      let (made, h) = malloc succeeds s.world.heap in
      if made
      then opened dev (drv.open_handle dev s.world.system) s h
      else (err no_mem, with_world s (record { heap = h; system = s.world.system }))

  unfoldable pub close_device : ℕ → Store S → Outcome (Store S)
  close_device dev s =
      unref_device dev (
        with_world s (record { heap = s.world.heap; system = drv.close_handle dev s.world.system }))
      >>= λ s'. ok (free_block s')

-- A new device with one reference; the result of malloc is used without a test.
unfoldable pub alloc_device {ℓ} : {S : Type ℓ} → Allocator → ℕ → Store S → Outcome (Store S)
alloc_device succeeds dev s =
    let (made, h) = malloc succeeds s.world.heap in
    if made
    then ok (record s {
      world = record { heap = h; system = s.world.system };
      ref_count = update s.ref_count dev 1;
      device_desc = update s.device_desc dev (device_descriptor []);
      freed = update s.freed dev false;
    })
    else fault
