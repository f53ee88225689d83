-- ===== src/Usbfs/Enumeration/Visits.antt =====
-- A visit of `usbyb_get_device_list` of src/os/linux_usbfs.c: a device that is held, or a new one.
use libusby.Base.{
  ℕ, ◌<◌, ◌≡◌, inl, inr, Bool, true, List, [], ◌∷◌, ◌++◌, length, take, drop, no_mem, ltb, if-intro,
  arith, Option, none, some, Outcome, Error, ok, err, fault, stuck, Allocator, Heap,
}
use libusby.Devices.Ring.{has, update}
use libusby.Devices.Array.{DeviceList, append_device_list, append_device_list-cases}
use libusby.Handles.{Driver, Store}
use libusby.Handles.Counting.{
  Held, more, more_all, Counted, Counted-world, ref_device-Counted, unref_device-Counted,
  free_device_list-Counted,
}
use libusby.Handles.Listing.{IsReady, IsReady-skip, IsReady-add}
use libusby.Requests.Kept.{IsAnswer}
use libusby.Devices.Descriptor.{device_descriptor}
use libusby.Usbfs.{build_cache}
use libusby.Usbfs.Enumeration.{
  Entry, Bus, Result, with_store, fail, append_existing, unref_new, append_new, cache_read,
  read_new,
}
use libusby.Usbfs.Enumeration.Fresh.{Enumerated, address, build_cache-IsAnswer}

module _ {ℓ} {S : Type ℓ} (drv : Driver S) (succeeds : Allocator) (junk : Option ℕ)
    (grows : ℕ → Bool) (fuel head : ℕ) (held : Held) (known : List ℕ) where
  -- What holds before the visit of an entry.
  abbrev pub Ready : List Entry → List ℕ → DeviceList → Store S → Type 0
  Ready = IsReady address head held known

  abbrev pub Next : List Entry → (DeviceList → Bus S → Result S) → Type ℓ
  Next entries k =
      (devs : List ℕ) (l : DeviceList) (b : Bus S)
      → Ready entries devs l b.store
      → Enumerated head held (k l b)

  fail-Enumerated :
      (x : Error) (e : Entry) (entries : List Entry) (devs : List ℕ) (l : DeviceList) (b : Bus S)
      → Ready (e ∷ entries) devs l b.store
      → Enumerated head held (fail drv succeeds junk grows fuel head x l b)
  fail-Enumerated x e entries devs l b r =
      let (s', f, c, g) =
        free_device_list-Counted drv head l devs b.store held r.array r.counted
          (λ d. omega (arith, r.few d)) in
      rw f c

  pub append_existing-Enumerated :
      (dev : ℕ) (e : Entry) (entries : List Entry) (devs : List ℕ) (l : DeviceList) (b : Bus S)
      (k : DeviceList → Bus S → Result S)
      → Ready (e ∷ entries) devs l b.store
      → 0 < more_all devs held dev
      → Next entries k
      → Enumerated head held (
          append_existing drv succeeds junk grows fuel head dev
            (append_device_list (grows l.count) junk dev l)
            l
            b
            k)
  append_existing-Enumerated dev e entries devs l b k r one next =
      elim (append_device_list-cases (grows l.count) junk dev l devs r.array) [
        | inl failed ↦ rw failed (fail-Enumerated no_mem e entries devs l b r)
        | inr (l', done, v) ↦
            let (s', f, c, g) =
              ref_device-Counted head dev b.store (more_all devs held) r.counted one
                (omega (arith, r.few dev)) in
            rw (done, f)
              (next (devs ++ dev ∷ []) l' (with_store b s') (
                IsReady-add address head held known e entries devs dev l l' b.store s' r v c
                  (inl one) (r.addressed dev one)))
      ]

  -- A device is made for the entry, and it is not in the array yet.
  pub record Made (e : Entry) (entries : List Entry) (devs : List ℕ) (l : DeviceList) (b : Bus S)
      : Type ℓ where
    pub before : Store S
    pub ready : Ready (e ∷ entries) devs l before
    pub made : Counted head b.store (more e.address (more_all devs held))
    pub present : has e.address known ≡ true

  Made-store :
      (e : Entry) (entries : List Entry) (devs : List ℕ) (l : DeviceList) (b b' : Bus S)
      → Made e entries devs l b
      → Counted head b'.store (more e.address (more_all devs held))
      → Made e entries devs l b'
  Made-store e entries devs l b b' m c = record {
    before = m.before;
    ready = m.ready;
    made = c;
    present = m.present;
  }

  -- `k` goes on with the counts of before.
  unref_new-Enumerated :
      (e : Entry) (entries : List Entry) (devs : List ℕ) (l : DeviceList) (b : Bus S)
      (k : Bus S → Result S)
      → Made e entries devs l b
      → ((b' : Bus S) → Ready entries devs l b'.store → Enumerated head held (k b'))
      → Enumerated head held (unref_new drv succeeds junk grows fuel head e.address b k)
  unref_new-Enumerated e entries devs l b k m next =
      let (s', f, c, g, h) =
        unref_device-Counted drv head e.address b.store (more_all devs held) m.made
          (omega (arith, m.ready.few e.address)) in
      rw f (
        next (with_store b s')
          (IsReady-skip address head held known e entries devs l m.before s' m.ready c))

  stop-Enumerated :
      (entries : List Entry) (devs : List ℕ) (l : DeviceList) (b : Bus S)
      → Ready entries devs l b.store
      → Enumerated head held (ok l, b)
  stop-Enumerated entries devs l b r = (devs, r.array, r.counted, λ d. omega (arith, r.few d))

  append_new-Enumerated :
      (e : Entry) (entries : List Entry) (devs : List ℕ) (l : DeviceList) (b : Bus S)
      (k : DeviceList → Bus S → Result S)
      → Made e entries devs l b
      → Next entries k
      → Enumerated head held (
          append_new drv succeeds junk grows fuel head e.address
            (append_device_list (grows l.count) junk e.address l)
            l
            b
            k)
  append_new-Enumerated e entries devs l b k m next =
      elim (append_device_list-cases (grows l.count) junk e.address l devs m.ready.array) [
        | inl failed ↦ rw failed (
            unref_new-Enumerated e entries devs l b _ m
              (λ b' r. stop-Enumerated entries devs l b' r))
        | inr (l', done, v) ↦ rw done (
            next (devs ++ e.address ∷ []) l' b (
              IsReady-add address head held known e entries devs e.address l l' m.before b.store
                m.ready v m.made (inr m.ready.fresh.2) m.present))
      ]

  cache_read-Enumerated :
      (e : Entry) (entries : List Entry) (devs : List ℕ) (l : DeviceList) (b : Bus S)
      (r : Outcome (Option (List ℕ))) (h : Heap) (k : DeviceList → Bus S → Result S)
      → IsAnswer r
      → Made e entries devs l b
      → Next entries k
      → Enumerated head held (cache_read drv succeeds junk grows fuel head e.address (r, h) l b k)
  cache_read-Enumerated e entries devs l b (ok (some cache)) h k a m next =
      append_new-Enumerated e entries devs l _ k
        (Made-store e entries devs l b _ m (Counted-world head b.store _ _ m.made)) next
  cache_read-Enumerated e entries devs l b (ok none) h k a m next =
      unref_new-Enumerated e entries devs l _ (k l)
        (Made-store e entries devs l b _ m (Counted-world head b.store _ _ m.made))
        (λ b' r. next devs l b' r)
  cache_read-Enumerated e entries devs l b (err x) h k a m next =
      unref_new-Enumerated e entries devs l _ _
        (Made-store e entries devs l b _ m (Counted-world head b.store _ _ m.made))
        (λ b' r. stop-Enumerated entries devs l b' r)
  cache_read-Enumerated e entries devs l b fault h k a m next = absurd a
  cache_read-Enumerated e entries devs l b stuck h k a m next = absurd a

  pub read_new-Enumerated :
      (e : Entry) (entries : List Entry) (devs : List ℕ) (l : DeviceList) (b : Bus S)
      (k : DeviceList → Bus S → Result S)
      → Made e entries devs l b
      → Next entries k
      → Enumerated head held (read_new drv succeeds junk grows fuel head e l b k)
  read_new-Enumerated e entries devs l b k m next =
      if-intro (Enumerated head held) (ltb (length e.file) 18)
        (λ _. unref_new-Enumerated e entries devs l b (k l) m (λ b' r. next devs l b' r))
        (λ _.
          let desc = device_descriptor (take 18 e.file) in
          let s = record b.store { device_desc = update b.store.device_desc e.address desc } in
          let r =
            build_cache succeeds desc.b_num_configurations (drop 18 e.file) [] true
              b.store.world.heap in
          cache_read-Enumerated e entries devs l (with_store b s) r.0 r.1 k
            (build_cache-IsAnswer succeeds desc.b_num_configurations (drop 18 e.file) [] true
              b.store.world.heap)
            (Made-store e entries devs l b (with_store b s) m (record {
              nodes = m.made.nodes;
              ring = m.made.ring;
              listed = m.made.listed;
              kept = m.made.kept;
            }))
            next)
