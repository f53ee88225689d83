-- ===== src/Usbfs/Enumeration.antt =====
-- `usbyb_get_device_list` of src/os/linux_usbfs.c over the files below /dev/bus/usb that could be
-- opened. The block of a descriptor cache is freed in the backend's part of the release of a device. `grows` says whether the array of devices can grow when it has so many, and the search in
-- the ring runs on fuel, one step for each node and one for the head.
pub mod Walk
pub mod Fresh
pub mod Visits
pub mod Counts
use libusby.Base.{
  ℕ, zero, suc, ◌+◌, Bool, true, false, ◌&&◌, List, [], ◌∷◌, length, take, drop, ltb, ◌==◌,
  if◌then◌else◌, Option, none, some, Outcome, Error, ok, err, fault, stuck, Allocator, Heap,
}
use libusby.Devices.Ring.{update, insert_before_devlist_node}
use libusby.Devices.Array.{DeviceList, no_devices, append_device_list}
use libusby.Devices.Descriptor.{DeviceDescriptor, device_descriptor}
use libusby.Transfer.{World}
use libusby.Handles.{
  Driver, Store, with_world, ref_device, unref_device, free_device_list, alloc_device,
}
use libusby.Usbfs.{build_cache}

-- A file with its numbers and its bytes, and the address of the device that is allocated for it.
pub record Entry : Type 0 where
  pub busno : ℕ
  pub devno : ℕ
  pub address : ℕ
  pub file : List ℕ

-- The devices with the fields of `usbyb_device`.
pub record Bus {ℓ} (S : Type ℓ) : Type ℓ where
  pub store : Store S
  pub busno : ℕ → ℕ
  pub devno : ℕ → ℕ
  pub desc_cache : ℕ → List ℕ

abbrev pub with_store {ℓ} : {S : Type ℓ} → Bus S → Store S → Bus S
with_store b s = record b { store = s }

abbrev pub Result {ℓ} : Type ℓ → Type ℓ
Result S = Outcome DeviceList × Bus S

module _ {ℓ} {S : Type ℓ} (head : ℕ) where
  -- The loop over the ring, from a node on.
  unfoldable pub find_device : ℕ → Entry → Bus S → ℕ → Outcome (Option ℕ)
  find_device zero e b node = stuck
  find_device (suc n) e b node =
      let rest = find_device n e b (b.store.links.next node) in
      if node == head
      then ok none
      else if b.busno node == e.busno && b.devno node == e.devno
      then ok (some node)
      else rest

module _ {ℓ} {S : Type ℓ} (drv : Driver S) (succeeds : Allocator) (junk : Option ℕ)
    (grows : ℕ → Bool) (fuel head : ℕ) where
  abbrev pub store_result : Outcome (Store S) → Bus S → (Bus S → Result S) → Result S
  store_result (ok s) b k = k (with_store b s)
  store_result _ b k = (fault, b)

  -- The label `error`: the array is freed, with its references.
  abbrev pub fail : Error → DeviceList → Bus S → Result S
  fail e l b = store_result (free_device_list drv l.list true b.store) b λ b. (err e, b)

  abbrev pub append_existing :
      ℕ → Outcome DeviceList → DeviceList → Bus S → (DeviceList → Bus S → Result S) → Result S
  append_existing dev (ok l') l b k = store_result (ref_device dev b.store) b (k l')
  append_existing dev (err e) l b k = fail e l b
  append_existing dev _ l b k = (fault, b)

  -- The label `error_unref_dev`.
  abbrev pub unref_new : ℕ → Bus S → (Bus S → Result S) → Result S
  unref_new dev b k = store_result (unref_device drv dev b.store) b k

  -- Where the array does not grow, `r < 0` ends the loops, and what was found so far is returned.
  abbrev pub append_new :
      ℕ → Outcome DeviceList → DeviceList → Bus S → (DeviceList → Bus S → Result S) → Result S
  append_new dev (ok l') l b k = k l' b
  append_new dev (err e) l b k = unref_new dev b λ b. (ok l, b)
  append_new dev _ l b k = (fault, b)

  abbrev pub cache_read :
      ℕ
      → Outcome (Option (List ℕ)) × Heap
      → DeviceList
      → Bus S
      → (DeviceList → Bus S → Result S)
      → Result S
  cache_read dev (r, h) l b k =
      let s = with_world b.store (record { heap = h; system = b.store.world.system }) in
      let b = with_store b s in
      elim r [
        | ok (some cache) ↦
            append_new dev (append_device_list (grows l.count) junk dev l) l
              (record b { desc_cache = update b.desc_cache dev cache }) k
        | ok none ↦ unref_new dev b (k l)
        | err e ↦ unref_new dev b λ b. (ok l, b)
        | fault ↦ (fault, b)
        | stuck ↦ (stuck, b)
      ]

  -- From the read of the device descriptor on.
  abbrev pub read_new : Entry → DeviceList → Bus S → (DeviceList → Bus S → Result S) → Result S
  read_new e l b k =
      if ltb (length e.file) 18
      then unref_new e.address b (k l)
      else (let desc = device_descriptor (take 18 e.file) in
          let s = record b.store { device_desc = update b.store.device_desc e.address desc } in
          cache_read e.address
            (build_cache succeeds desc.b_num_configurations (drop 18 e.file) [] true s.world.heap) l
            (with_store b s) k)

  abbrev pub insert_new : Entry → DeviceList → Bus S → (DeviceList → Bus S → Result S) → Result S
  insert_new e l b k =
      let s = record b.store { links = insert_before_devlist_node e.address head b.store.links } in
      read_new e l
        (record b {
          store = s;
          busno = update b.busno e.address e.busno;
          devno = update b.devno e.address e.devno;
        })
        k

  abbrev pub visit :
      Entry → Outcome (Option ℕ) → DeviceList → Bus S → (DeviceList → Bus S → Result S) → Result S
  visit e (ok (some dev)) l b k =
      append_existing dev (append_device_list (grows l.count) junk dev l) l b k
  visit e (ok none) l b k =
      store_result (alloc_device succeeds e.address b.store) b λ b. insert_new e l b k
  visit e (err x) l b k = (fault, b)
  visit e fault l b k = (fault, b)
  visit e stuck l b k = (stuck, b)

  unfoldable pub enumerate : List Entry → DeviceList → Bus S → Result S
  enumerate [] l b = (ok l, b)
  enumerate (e ∷ entries) l b =
      visit e (find_device head fuel e b (b.store.links.next head)) l b (enumerate entries)

  unfoldable pub get_device_list : List Entry → Bus S → Result S
  get_device_list entries b = enumerate entries no_devices b
