-- ===== src/Win32/Enumeration/Visits.antt =====
-- One number of the loop of `usbyb_get_device_list` of src/os/libusb0_win32.c.
use libusby.Base.{
  ℕ, ◌<◌, ◌≡◌, inl, inr, Bool, true, List, [], ◌∷◌, ◌++◌, replicate, ◌==◌, if-intro, arith, Option,
  none, some, Outcome, ok, err, fault, stuck, Allocator,
}
use libusby.Devices.Ring.{has, update, insert_before_devlist_node}
use libusby.Devices.Array.{DeviceList, append_device_list, append_device_list-cases}
use libusby.Devices.Descriptor.{DeviceDescriptor, sanitize_device_desc}
use libusby.Handles.{Driver, Store}
use libusby.Handles.Counting.{
  Held, more, more_all, Counted, Counted-world, ref_device-Counted, unref_device-Counted,
  free_device_list-Counted,
}
use libusby.Handles.Listing.{
  Listed, IsAmong, IsReady, IsReady-skip, IsReady-add, new_device-Counted,
}
use libusby.Requests.Kept.{IsAnswer}
use libusby.Win32.Io.{Windows, Process, get_descriptor_with_handle}
use libusby.Win32.Enumeration.{
  Opened, Bus, Result, with_process, close_file, fail, append_existing, give_up, sanitized,
  described, visit,
}
use libusby.Win32.Enumeration.Search.{
  get_descriptor_with_handle-IsAnswer, sanitize_device_desc-IsAnswer,
}

abbrev pub address : Opened → ℕ
address e = e.address

abbrev pub Enumerated {ℓ} : {S : Type ℓ} → ℕ → Held → Result S → Type 0
Enumerated head held x = Listed head held (x.0, (x.1).store)

module _ {ℓ} {S : Type ℓ} (k : Windows S) (drv : Driver (Process S)) (succeeds creates : Allocator)
    (junk : Option ℕ) (junk_byte : ℕ) (grows : ℕ → Bool) (fuel head : ℕ) (held : Held)
    (known : List ℕ) where
  abbrev pub Ready : List Opened → List ℕ → DeviceList → Store (Process S) → Type 0
  Ready = IsReady address head held known

  abbrev pub Next : List Opened → (DeviceList → Bus S → Result S) → Type ℓ
  Next entries next =
      (devs : List ℕ) (l : DeviceList) (b : Bus S)
      → Ready entries devs l b.store
      → Enumerated head held (next l b)

  fail-Enumerated :
      (entries : List Opened) (devs : List ℕ) (l : DeviceList) (b : Bus S)
      → Ready entries devs l b.store
      → Enumerated head held (fail k drv succeeds creates junk junk_byte grows fuel head l b)
  fail-Enumerated entries devs l b r =
      let (s', f, c, g) =
        free_device_list-Counted drv head l devs b.store held r.array r.counted
          (λ d. omega (arith, r.few d)) in
      rw f c

  pub Ready-store :
      (entries : List Opened) (devs : List ℕ) (l : DeviceList) (s s' : Store (Process S))
      → Ready entries devs l s
      → Counted head s' (more_all devs held)
      → Ready entries devs l s'
  Ready-store entries devs l s s' r c = record {
    array = r.array;
    counted = c;
    fresh = r.fresh;
    few = r.few;
    addressed = r.addressed;
  }

  append_existing-Enumerated :
      (dev : ℕ) (e : Opened) (entries : List Opened) (devs : List ℕ) (l : DeviceList) (b : Bus S)
      (next : DeviceList → Bus S → Result S)
      → Ready (e ∷ entries) devs l b.store
      → 0 < more_all devs held dev
      → Next entries next
      → Enumerated head held (
          append_existing k drv succeeds creates junk junk_byte grows fuel head dev
            (append_device_list (grows l.count) junk dev l)
            l
            b
            next)
  append_existing-Enumerated dev e entries devs l b next r one go =
      elim (append_device_list-cases (grows l.count) junk dev l devs r.array) [
        | inl failed ↦ rw failed (fail-Enumerated (e ∷ entries) devs l b r)
        | inr (l', done, v) ↦
            let (s', f, c, g) =
              ref_device-Counted head dev b.store (more_all devs held) r.counted one
                (omega (arith, r.few dev)) in
            rw (done, f)
              (go (devs ++ dev ∷ []) l' (record b { store = s' })
                (IsReady-add address head held known e entries devs dev l l' b.store s' r v c
                  (inl one) (r.addressed dev one)))
      ]

  -- A device is made for the entry, and it is not in the array yet.
  record Made (e : Opened) (entries : List Opened) (devs : List ℕ) (l : DeviceList)
      (s : Store (Process S)) : Type ℓ where
    before : Store (Process S)
    ready : Ready (e ∷ entries) devs l before
    made : Counted head s (more e.address (more_all devs held))
    present : has e.address known ≡ true

  give_up-Enumerated :
      (e : Opened) (entries : List Opened) (devs : List ℕ) (l : DeviceList) (b : Bus S)
      → Made e entries devs l b.store
      → Enumerated head held
          (give_up k drv succeeds creates junk junk_byte grows fuel head e.address l b)
  give_up-Enumerated e entries devs l b m =
      let (s', f, c, g, h) =
        unref_device-Counted drv head e.address b.store (more_all devs held) m.made
          (omega (arith, m.ready.few e.address)) in
      rw f (
        fail-Enumerated entries devs l (record b { store = s' })
          (IsReady-skip address head held known e entries devs l m.before s' m.ready c))

  sanitized-Enumerated :
      (e : Opened) (entries : List Opened) (devs : List ℕ) (l : DeviceList) (b : Bus S)
      (r : Outcome DeviceDescriptor) (next : DeviceList → Bus S → Result S)
      → IsAnswer r
      → Made e entries devs l b.store
      → Next entries next
      → Enumerated head held
          (sanitized k drv succeeds creates junk junk_byte grows fuel head e.address r l b next)
  sanitized-Enumerated e entries devs l b (ok desc) next a m go =
      let s : Store (Process S) = record b.store {
        device_desc = update b.store.device_desc e.address desc;
      } in
      let c : Counted head s (more e.address (more_all devs held)) = record {
        nodes = m.made.nodes;
        ring = m.made.ring;
        listed = m.made.listed;
        kept = m.made.kept;
      } in
      elim (append_device_list-cases (grows l.count) junk e.address l devs m.ready.array) [
        | inl failed ↦ rw failed (
            give_up-Enumerated e entries devs l (record b { store = s })
              (record { before = m.before; ready = m.ready; made = c; present = m.present }))
        | inr (l', done, v) ↦ rw done (
            go (devs ++ e.address ∷ []) l' (record b { store = s })
              (IsReady-add address head held known e entries devs e.address l l' m.before s m.ready
                v c (inr m.ready.fresh.2) m.present))
      ]
  sanitized-Enumerated e entries devs l b (err x) next a m go =
      give_up-Enumerated e entries devs l b m
  sanitized-Enumerated e entries devs l b fault next a m go = absurd a
  sanitized-Enumerated e entries devs l b stuck next a m go = absurd a

  Made-process :
      (e : Opened) (entries : List Opened) (devs : List ℕ) (l : DeviceList) (b : Bus S)
      (w : Process S)
      → Made e entries devs l b.store
      → Made e entries devs l (with_process w b).store
  Made-process e entries devs l b w m = record {
    before = m.before;
    ready = m.ready;
    made = Counted-world head b.store _ _ m.made;
    present = m.present;
  }

  described-Enumerated :
      (e : Opened) (entries : List Opened) (devs : List ℕ) (l : DeviceList) (b : Bus S)
      (r : Outcome ℕ) (raw : List ℕ) (w : Process S) (next : DeviceList → Bus S → Result S)
      → IsAnswer r
      → Made e entries devs l b.store
      → Next entries next
      → Enumerated head held (
          described k drv succeeds creates junk junk_byte grows fuel head e.address
            ((r, raw), w)
            l
            b
            next)
  described-Enumerated e entries devs l b (ok n) raw w next a m go =
      if-intro (Enumerated head held) (n == 18)
        (λ _.
          sanitized-Enumerated e entries devs l (with_process w b) (sanitize_device_desc raw) next
            (sanitize_device_desc-IsAnswer raw) (Made-process e entries devs l b w m) go)
        (λ _.
          give_up-Enumerated e entries devs l (with_process w b)
            (Made-process e entries devs l b w m))
  described-Enumerated e entries devs l b (err x) raw w next a m go =
      give_up-Enumerated e entries devs l (with_process w b) (Made-process e entries devs l b w m)
  described-Enumerated e entries devs l b fault raw w next a m go = absurd a
  described-Enumerated e entries devs l b stuck raw w next a m go = absurd a

  pub visit-Enumerated :
      (e : Opened) (entries : List Opened) (devs nodes : List ℕ) (l : DeviceList) (b : Bus S)
      (found : Outcome (Option ℕ)) (next : DeviceList → Bus S → Result S)
      → Ready (e ∷ entries) devs l b.store
      → ((d : ℕ) → has d nodes ≡ true → 0 < more_all devs held d)
      → IsAmong nodes found
      → has e.address known ≡ true
      → ((i : ℕ) → succeeds i ≡ true)
      → Next entries next
      → Enumerated head held
          (visit k drv succeeds creates junk junk_byte grows fuel head e found l b next)
  visit-Enumerated e entries devs nodes l b (ok (some dev)) next r listed a i memory go =
      append_existing-Enumerated dev e entries devs l (close_file b) next
        (Ready-store (e ∷ entries) devs l b.store (close_file b).store r
          (Counted-world head b.store _ _ r.counted))
        (listed dev a) go
  visit-Enumerated e entries devs nodes l b (ok none) next r listed a i memory go =
      let (s', f, c) =
        new_device-Counted succeeds head e.address b.store (more_all devs held) r.counted r.fresh.0
          r.fresh.1 memory in
      let s : Store (Process S) = record s' {
        links = insert_before_devlist_node e.address head s'.links;
      } in
      let w = s.world.system in
      let x = get_descriptor_with_handle k e.h_file creates 1 0 0 (replicate 18 junk_byte) w in
      rw f (
        described-Enumerated e entries devs l
          (record {
            store = s;
            devno = update b.devno e.address e.devno;
            h_file = update b.h_file e.address e.h_file;
          })
          (x.0).0 (x.0).1 x.1 next
          (get_descriptor_with_handle-IsAnswer k e.h_file creates (replicate 18 junk_byte) w)
          (record { before = b.store; ready = r; made = c; present = i }) go)
  visit-Enumerated e entries devs nodes l b (err x) next r listed a i memory go = absurd a
  visit-Enumerated e entries devs nodes l b fault next r listed a i memory go = absurd a
  visit-Enumerated e entries devs nodes l b stuck next r listed a i memory go = absurd a
