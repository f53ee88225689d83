-- ===== src/Win32/Enumeration.antt =====
-- `usbyb_get_device_list` of src/os/libusb0_win32.c over the devices that could be opened, and the
-- `Driver` of Windows. A handle that CreateFileW opens is counted with the other handles of the
-- process. `grows` says whether the array of devices can grow when it has so many, and the search in
-- the ring runs on fuel, one step for each node and one for the head.
pub mod Search
pub mod Visits
pub mod Counts
use libusby.Base.{
  ℕ, zero, suc, ◌+◌, Bool, true, false, List, [], ◌∷◌, replicate, ◌==◌, if◌then◌else◌, Option, none,
  some, Outcome, ok, err, fault, stuck, no_mem, Allocator, Heap, free,
}
use libusby.Devices.Ring.{update, insert_before_devlist_node}
use libusby.Devices.Array.{DeviceList, no_devices, append_device_list}
use libusby.Devices.Descriptor.{DeviceDescriptor, sanitize_device_desc}
use libusby.Transfer.{Transfer, World}
use libusby.Handles.{
  Driver, Store, with_world, ref_device, unref_device, free_device_list, alloc_device,
}
use libusby.Win32.Io.{Windows, Process, with_handles, get_descriptor_with_handle, backend}

-- A number whose device could be opened: its handle, and the address of the device that is allocated.
pub record Opened : Type 0 where
  pub devno : ℕ
  pub h_file : ℕ
  pub address : ℕ

-- The devices with the fields of `usbyb_device`.
pub record Bus {ℓ} (S : Type ℓ) : Type ℓ where
  pub store : Store (Process S)
  pub devno : ℕ → ℕ
  pub h_file : ℕ → ℕ

abbrev pub Result {ℓ} : Type ℓ → Type ℓ
Result S = Outcome DeviceList × Bus S

-- `usbyb_open` and `usbyb_close` do nothing: a handle uses the file of its device, which
-- `usbyb_finalize_device` closes.
abbrev pub driver {ℓ} :
    {S : Type ℓ}
    → Windows S
    → (ℕ → ℕ)
    → Allocator
    → ℕ
    → (Transfer → Process S → (Outcome ℕ × Transfer) × Process S)
    → (Transfer → Process S → (Outcome ℕ × Transfer) × Process S)
    → Driver (Process S)
driver k h_file creates junk submit wait = record {
  handle = λ dev. backend k (h_file dev) creates junk submit wait;
  open_handle = λ dev w. (none, w);
  close_handle = λ dev w. w;
  finalize = λ dev w. with_handles w (free w.handles);
}

abbrev pub with_process {ℓ} : {S : Type ℓ} → Process S → Bus S → Bus S
with_process w b = record b {
  store = with_world b.store (record { heap = b.store.world.heap; system = w });
}

abbrev pub open_file {ℓ} : {S : Type ℓ} → Bus S → Bus S
open_file b =
    let w = b.store.world.system in
    with_process (with_handles w (record { calls = w.handles.calls; live = w.handles.live + 1 })) b

abbrev pub close_file {ℓ} : {S : Type ℓ} → Bus S → Bus S
close_file b = let w = b.store.world.system in with_process (with_handles w (free w.handles)) b

module _ {ℓ} {S : Type ℓ} (head : ℕ) where
  -- The loop over the ring, from a node on.
  unfoldable pub find_devno : ℕ → ℕ → Bus S → ℕ → Outcome (Option ℕ)
  find_devno zero i b node = stuck
  find_devno (suc n) i b node =
      let rest = find_devno n i b (b.store.links.next node) in
      if node == head then ok none else if b.devno node == i then ok (some node) else rest

module _ {ℓ} {S : Type ℓ} (k : Windows S) (drv : Driver (Process S)) (succeeds creates : Allocator)
    (junk : Option ℕ) (junk_byte : ℕ) (grows : ℕ → Bool) (fuel head : ℕ) where
  abbrev pub store_result : Outcome (Store (Process S)) → Bus S → (Bus S → Result S) → Result S
  store_result (ok s) b next = next (record b { store = s })
  store_result _ b next = (fault, b)

  -- The label `error`: the array is freed, with its references.
  abbrev pub fail : DeviceList → Bus S → Result S
  fail l b = store_result (free_device_list drv l.list true b.store) b λ b. (err no_mem, b)

  abbrev pub append_existing :
      ℕ → Outcome DeviceList → DeviceList → Bus S → (DeviceList → Bus S → Result S) → Result S
  append_existing dev (ok l') l b next = store_result (ref_device dev b.store) b (next l')
  append_existing dev (err e) l b next = fail l b
  append_existing dev _ l b next = (fault, b)

  -- The new device is given up, and `goto error`.
  abbrev pub give_up : ℕ → DeviceList → Bus S → Result S
  give_up dev l b = store_result (unref_device drv dev b.store) b (fail l)

  abbrev pub append_new :
      ℕ → Outcome DeviceList → DeviceList → Bus S → (DeviceList → Bus S → Result S) → Result S
  append_new dev (ok l') l b next = next l' b
  append_new dev (err e) l b next = give_up dev l b
  append_new dev _ l b next = (fault, b)

  abbrev pub sanitized :
      ℕ → Outcome DeviceDescriptor → DeviceList → Bus S → (DeviceList → Bus S → Result S) → Result S
  sanitized dev (ok desc) l b next =
      append_new dev (append_device_list (grows l.count) junk dev l) l
        (record b { store = record b.store { device_desc = update b.store.device_desc dev desc } })
        next
  sanitized dev (err e) l b next = give_up dev l b
  sanitized dev _ l b next = (fault, b)

  abbrev pub described :
      ℕ
      → (Outcome ℕ × List ℕ) × Process S
      → DeviceList
      → Bus S
      → (DeviceList → Bus S → Result S)
      → Result S
  described dev ((ok n, raw), w) l b next =
      if n == 18
      then sanitized dev (sanitize_device_desc raw) l (with_process w b) next
      else give_up dev l (with_process w b)
  described dev ((err e, raw), w) l b next = give_up dev l (with_process w b)
  described dev ((_, raw), w) l b next = (fault, b)

  abbrev pub insert_new : Opened → DeviceList → Bus S → (DeviceList → Bus S → Result S) → Result S
  insert_new e l b next =
      let s = record b.store { links = insert_before_devlist_node e.address head b.store.links } in
      described e.address
        (get_descriptor_with_handle k e.h_file creates 1 0 0 (replicate 18 junk_byte)
          s.world.system)
        l
        (record {
          store = s;
          devno = update b.devno e.address e.devno;
          h_file = update b.h_file e.address e.h_file;
        })
        next

  abbrev pub visit :
      Opened → Outcome (Option ℕ) → DeviceList → Bus S → (DeviceList → Bus S → Result S) → Result S
  visit e (ok (some dev)) l b next =
      append_existing dev (append_device_list (grows l.count) junk dev l) l (close_file b) next
  visit e (ok none) l b next =
      store_result (alloc_device succeeds e.address b.store) b λ b. insert_new e l b next
  visit e (err x) l b next = (fault, b)
  visit e fault l b next = (fault, b)
  visit e stuck l b next = (stuck, b)

  unfoldable pub enumerate : List Opened → DeviceList → Bus S → Result S
  enumerate [] l b = (ok l, b)
  enumerate (e ∷ entries) l b =
      visit e (find_devno head fuel e.devno (open_file b) (b.store.links.next head)) l (open_file b)
        (enumerate entries)

  unfoldable pub get_device_list : List Opened → Bus S → Result S
  get_device_list entries b = enumerate entries no_devices b
