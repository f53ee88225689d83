-- ===== src/Usbfs/Enumeration/Counts.antt =====
-- The references of `usbyb_get_device_list` of src/os/linux_usbfs.c.
use libusby.Base.{
  ℕ, suc, ◌+◌, ◌^◌, ◌<◌, ◌≡◌, Bool, true, List, [], ◌∷◌, length, arith, Option, none, some, Outcome,
  ok, err, fault, stuck, Allocator,
}
use libusby.Devices.Ring.{has, update, insert_before_devlist_node}
use libusby.Devices.Array.{DeviceList, no_devices, no_devices-IsDeviceList}
use libusby.Handles.{Driver}
use libusby.Handles.Counting.{Held, more_all, Counted}
use libusby.Usbfs.Enumeration.{Entry, Bus, Result, visit, enumerate, get_device_list}
use libusby.Handles.Listing.{IsAmong, IsFresh, IsKnown, new_device-Counted, length-Distinct}
use libusby.Usbfs.Enumeration.Walk.{find_device-IsAmong}
use libusby.Usbfs.Enumeration.Fresh.{Enumerated, address}
use libusby.Usbfs.Enumeration.Visits.{Ready, Next, append_existing-Enumerated, read_new-Enumerated}

module _ {ℓ} {S : Type ℓ} (drv : Driver S) (succeeds : Allocator) (junk : Option ℕ)
    (grows : ℕ → Bool) (fuel head : ℕ) (held : Held) (known : List ℕ) where
  visit-Enumerated :
      (e : Entry) (entries : List Entry) (devs nodes : List ℕ) (l : DeviceList) (b : Bus S)
      (found : Outcome (Option ℕ)) (k : DeviceList → Bus S → Result S)
      → Ready drv succeeds junk grows fuel head held known (e ∷ entries) devs l b.store
      → ((d : ℕ) → has d nodes ≡ true → 0 < more_all devs held d)
      → IsAmong nodes found
      → has e.address known ≡ true
      → ((i : ℕ) → succeeds i ≡ true)
      → Next drv succeeds junk grows fuel head held known entries k
      → Enumerated head held (visit drv succeeds junk grows fuel head e found l b k)
  visit-Enumerated e entries devs nodes l b (ok (some dev)) k r listed a i memory next =
      append_existing-Enumerated drv succeeds junk grows fuel head held known dev e entries devs l b
        k r (listed dev a) next
  visit-Enumerated e entries devs nodes l b (ok none) k r listed a i memory next =
      let (s', f, c) =
        new_device-Counted succeeds head e.address b.store (more_all devs held) r.counted r.fresh.0
          r.fresh.1 memory in
      rw f (
        read_new-Enumerated drv succeeds junk grows fuel head held known e entries devs l
          (record b {
            store = record s' { links = insert_before_devlist_node e.address head s'.links };
            busno = update b.busno e.address e.busno;
            devno = update b.devno e.address e.devno;
          })
          k (record { before = b.store; ready = r; made = c; present = i }) next)
  visit-Enumerated e entries devs nodes l b (err x) k r listed a i memory next = absurd a
  visit-Enumerated e entries devs nodes l b fault k r listed a i memory next = absurd a
  visit-Enumerated e entries devs nodes l b stuck k r listed a i memory next = absurd a

  enumerate-Enumerated :
      (entries : List Entry) (devs : List ℕ) (l : DeviceList) (b : Bus S)
      → IsKnown address known entries
      → length known < fuel
      → ((i : ℕ) → succeeds i ≡ true)
      → Ready drv succeeds junk grows fuel head held known entries devs l b.store
      → Enumerated head held (enumerate drv succeeds junk grows fuel head entries l b)
  unfolding enumerate
  enumerate-Enumerated [] devs l b i enough memory r =
      (devs, r.array, r.counted, λ d. omega (arith, r.few d))
  enumerate-Enumerated (e ∷ entries) devs l b i enough memory r =
      let c = r.counted in
      let few =
        length-Distinct c.nodes known c.ring.distinct.1
          (λ d h. r.addressed d (ground (arith, h, c.listed d))) in
      visit-Enumerated e entries devs c.nodes l b _
        (enumerate drv succeeds junk grows fuel head entries) r
        (λ d h. ground (arith, h, c.listed d))
        (find_device-IsAmong head fuel e b head c.nodes c.ring.chain c.ring.distinct.0
          (omega (arith, few, enough)))
        i.0 memory (λ devs' l' b' r'. enumerate-Enumerated entries devs' l' b' i.1 enough memory r')

  -- Where the counts are the references that are held, the ring takes fewer steps than there is fuel,
  -- no call of malloc fails, the addresses of new devices are not in use and the counts are far from
  -- 2^31: `usbyb_get_device_list` returns an array of devices with one reference for each of its
  -- cells, or an error code and no reference; the ring has the devices that are held.
  pub get_device_list-Enumerated :
      (entries : List Entry) (b : Bus S)
      → Counted head b.store held
      → IsFresh address head held entries
      → IsKnown address known entries
      → ((d : ℕ) → 0 < held d → has d known ≡ true)
      → ((d : ℕ) → suc (held d + length entries) < 2 ^ 31)
      → length known < fuel
      → ((i : ℕ) → succeeds i ≡ true)
      → Enumerated head held (get_device_list drv succeeds junk grows fuel head entries b)
  unfolding get_device_list
  get_device_list-Enumerated entries b c fresh i addressed few enough memory =
      enumerate-Enumerated entries [] no_devices b i enough memory (record {
        array = no_devices-IsDeviceList;
        counted = c;
        fresh = fresh;
        few = few;
        addressed = addressed;
      })
