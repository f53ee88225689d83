-- ===== src/Win32/Enumeration/Counts.antt =====
-- The references of `usbyb_get_device_list` of src/os/libusb0_win32.c.
use libusby.Base.{
  ℕ, suc, ◌+◌, ◌^◌, ◌<◌, ◌≡◌, Bool, true, List, [], ◌∷◌, length, arith, Option, Allocator,
}
use libusby.Devices.Ring.{has}
use libusby.Devices.Array.{DeviceList, no_devices, no_devices-IsDeviceList}
use libusby.Handles.{Driver}
use libusby.Handles.Counting.{Held, Counted, Counted-world}
use libusby.Handles.Listing.{IsFresh, IsKnown, length-Distinct}
use libusby.Win32.Io.{Windows, Process}
use libusby.Win32.Enumeration.{Opened, Bus, open_file, enumerate, get_device_list}
use libusby.Win32.Enumeration.Search.{find_devno-IsAmong}
use libusby.Win32.Enumeration.Visits.{address, Enumerated, Ready, Ready-store, visit-Enumerated}

module _ {ℓ} {S : Type ℓ} (k : Windows S) (drv : Driver (Process S)) (succeeds creates : Allocator)
    (junk : Option ℕ) (junk_byte : ℕ) (grows : ℕ → Bool) (fuel head : ℕ) (held : Held)
    (known : List ℕ) where
  enumerate-Enumerated :
      (entries : List Opened) (devs : List ℕ) (l : DeviceList) (b : Bus S)
      → IsKnown address known entries
      → length known < fuel
      → ((i : ℕ) → succeeds i ≡ true)
      → Ready k drv succeeds creates junk junk_byte grows fuel head held known entries devs l
          b.store
      → Enumerated head held
          (enumerate k drv succeeds creates junk junk_byte grows fuel head entries l b)
  unfolding enumerate
  enumerate-Enumerated [] devs l b i enough memory r =
      (devs, r.array, r.counted, λ d. omega (arith, r.few d))
  enumerate-Enumerated (e ∷ entries) devs l b i enough memory r =
      let c = r.counted in
      let few =
        length-Distinct c.nodes known c.ring.distinct.1
          (λ d h. r.addressed d (ground (arith, h, c.listed d))) in
      visit-Enumerated k drv succeeds creates junk junk_byte grows fuel head held known e entries
        devs c.nodes l (open_file b) _
        (enumerate k drv succeeds creates junk junk_byte grows fuel head entries)
        (Ready-store k drv succeeds creates junk junk_byte grows fuel head held known (e ∷ entries)
          devs l b.store (open_file b).store r (Counted-world head b.store _ _ c))
        (λ d h. ground (arith, h, c.listed d))
        (find_devno-IsAmong head fuel e.devno (open_file b) head c.nodes c.ring.chain
          c.ring.distinct.0 (omega (arith, few, enough)))
        i.0 memory (λ devs' l' b' r'. enumerate-Enumerated entries devs' l' b' i.1 enough memory r')

  -- Where the counts are the references that are held, the ring takes fewer steps than there is fuel,
  -- no call of malloc fails, the addresses of new devices are not in use and the counts are far from
  -- 2^31: on Windows `usbyb_get_device_list` returns an array of devices with one reference for each
  -- of its cells, or an error code and no reference; the ring has the devices that are held.
  pub get_device_list-Listed :
      (entries : List Opened) (b : Bus S)
      → Counted head b.store held
      → IsFresh address head held entries
      → IsKnown address known entries
      → ((d : ℕ) → 0 < held d → has d known ≡ true)
      → ((d : ℕ) → suc (held d + length entries) < 2 ^ 31)
      → length known < fuel
      → ((i : ℕ) → succeeds i ≡ true)
      → Enumerated head held
          (get_device_list k drv succeeds creates junk junk_byte grows fuel head entries b)
  unfolding get_device_list
  get_device_list-Listed entries b c fresh i addressed few enough memory =
      enumerate-Enumerated entries [] no_devices b i enough memory (record {
        array = no_devices-IsDeviceList;
        counted = c;
        fresh = fresh;
        few = few;
        addressed = addressed;
      })
