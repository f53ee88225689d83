-- ===== src/Handles/Counting.antt =====
-- The reference counts of src/libusby.c against the references that are held: a device is in the ring
-- and not freed as long as there is one.
use libusby.Base.{
  ℕ, suc, ◌^◌, ◌<◌, ◌≡◌, refl, sym, ap, ◌∙◌, ◌⊎◌, inl, inr, true, false, List, [], ◌∷◌, ◌++◌,
  Option, none, some, map, arith, ltb, ◌==◌, ==→eq, Bool-cases, if◌then◌else◌, if-intro, Error,
  no_mem, increment, decrement, Outcome, ok, err, Allocator, Heap, malloc,
}
use mathlib.Core.Path.{subst}
use libusby.Devices.Ring.{IsRing, update, has}
use libusby.Devices.Ring.Chain.{has-insert, Distinct-fresh}
use libusby.Devices.Ring.Order.{remove_devlist_node-IsRing}
use libusby.Devices.Array.{DeviceList, IsDeviceList}
use libusby.Transfer.{World}
use libusby.Handles.{
  Driver, Store, with_world, ref_device, finalize_device, unref_device, unref_devices, free_block,
  free_device_list, opened, open_device, close_device,
}

-- How many references to each device are held: by handles, by arrays and by the program.
abbrev pub Held : Type 0
Held = ℕ → ℕ

abbrev pub more : ℕ → Held → Held
more dev held e = if dev == e then suc (held e) else held e

abbrev pub more_all : List ℕ → Held → Held
more_all [] held = held
more_all (dev ∷ devs) held = more dev (more_all devs held)

-- The counts are the references held, and the ring has exactly the devices with one or more.
pub record Counted {ℓ} {S : Type ℓ} (head : ℕ) (s : Store S) (held : Held) : Type 0 where
  pub nodes : List ℕ
  pub ring : IsRing s.links head nodes
  pub listed : (dev : ℕ) → has dev nodes ≡ ltb 0 (held dev)
  pub kept : (dev : ℕ) → 0 < held dev → (s.freed dev ≡ false) × (s.ref_count dev ≡ held dev)

pub Counted-world {ℓ} :
    {S : Type ℓ} (head : ℕ) (s : Store S) (held : Held) (w : World S)
    → Counted head s held
    → Counted head (with_world s w) held
Counted-world head s held w c = record {
  nodes = c.nodes;
  ring = c.ring;
  listed = c.listed;
  kept = c.kept;
}

-- `libusby_ref_device` of a device that is held.
pub ref_device-Counted {ℓ} :
    {S : Type ℓ} (head dev : ℕ) (s : Store S) (held : Held)
    → Counted head s held
    → 0 < held dev
    → suc (held dev) < 2 ^ 31
    → (s' : Store S) × (ref_device dev s ≡ ok s')
      × Counted head s' (more dev held)
      × (s'.device_desc ≡ s.device_desc)
unfolding ref_device
ref_device-Counted head dev s held c one few = (
  record s { ref_count = update s.ref_count dev (increment (s.ref_count dev)) },
  ground (arith, c.kept dev),
  record {
    nodes = c.nodes;
    ring = c.ring;
    listed = λ e. ground (arith, c.listed e);
    kept = λ e h. ground (arith, c.kept e, c.kept dev);
  },
  refl,
)

-- A list with a node in it, taken apart there.
pub has-split :
    (a : ℕ) (xs : List ℕ)
    → has a xs ≡ true
    → (front : List ℕ) × (back : List ℕ) × (xs ≡ front ++ a ∷ back)
has-split a [] h = absurd (cc)
has-split a (x ∷ xs) h = elim (Bool-cases (a == x)) [
  | inl e ↦ ([], xs, ap (λ (b : ℕ). b ∷ xs) (sym (==→eq a x e)))
  | inr n ↦ let (front, back, e) = has-split a xs (ground arith) in (x ∷ front, back, ap (◌∷◌ x) e)
]

-- What an attempt to open a device does to the counts.
abbrev pub Opened {ℓ} : {S : Type ℓ} → ℕ → ℕ → Store S → Held → Outcome ℕ × Store S → Type 0
Opened head dev s held (r, s') =
    (s'.device_desc ≡ s.device_desc)
    × (((r ≡ ok dev) × Counted head s' (more dev held))
        ⊎ ((e : Error) × (r ≡ err e) × Counted head s' held))

module _ {ℓ} {S : Type ℓ} (drv : Driver S) (head : ℕ) where
  unref-last :
      (dev : ℕ) (s : Store S) (held : Held)
      → Counted head s (more dev held)
      → held dev ≡ 0
      → Counted head
          (finalize_device drv dev (record s { ref_count = update s.ref_count dev 0 }))
          held
  unfolding finalize_device
  unref-last dev s held c last =
      let (front, back, e) = has-split dev c.nodes (ground (arith, c.listed dev)) in
      let ring = rw e at (c.ring) in
      let listed = λ (d : ℕ). sym (ap (has d) e) ∙ c.listed d in
      record {
        nodes = front ++ back;
        ring = (remove_devlist_node-IsRing s.links head front back dev ring).0;
        listed = λ d. elim (Bool-cases (dev == d)) [
          | inl q ↦
              subst (λ (a : ℕ). has a (front ++ back) ≡ ltb 0 (held a)) (==→eq dev d q)
                (Distinct-fresh dev front back ring.distinct.1 ∙ sym (ap (ltb 0) last))
          | inr n ↦ ground (arith, listed d, has-insert d dev front back)
        ];
        kept = λ d h. ground (arith, last, c.kept d);
      }

  -- Where the counts are the references that are held, `libusby_unref_device` of a device that is
  -- held gives up one of its references: the counts are the references that are left, the device is
  -- freed just where that was the last one, and the ring has the devices that are still held.
  pub unref_device-Counted :
      (dev : ℕ) (s : Store S) (held : Held)
      → Counted head s (more dev held)
      → suc (held dev) < 2 ^ 31
      → (s' : Store S) × (unref_device drv dev s ≡ ok s')
        × Counted head s' held
        × (s'.freed dev ≡ (held dev == 0))
        × (s'.device_desc ≡ s.device_desc)
  unfolding unref_device finalize_device
  unref_device-Counted dev s held c few = elim (Bool-cases (held dev == 0)) [
    | inl last ↦
        let none_left : held dev ≡ 0 = ==→eq (held dev) 0 last in
        (
          finalize_device drv dev (record s { ref_count = update s.ref_count dev 0 }),
          ground (arith, c.kept dev),
          unref-last dev s held c none_left,
          ground arith,
          refl,
        )
    | inr others ↦ (
      record s { ref_count = update s.ref_count dev (decrement (s.ref_count dev)) },
      ground (arith, c.kept dev),
      record {
        nodes = c.nodes;
        ring = c.ring;
        listed = λ d. ground (arith, c.listed d);
        kept = λ d h. ground (arith, c.kept d, c.kept dev);
      },
      ground (arith, c.kept dev),
      refl,
    )
  ]

  -- `libusby_free_device_list` takes the reference of each cell away.
  unref_devices-Counted :
      (devs : List ℕ) (rest : List (Option ℕ)) (s : Store S) (held : Held)
      → Counted head s (more_all devs held)
      → ((dev : ℕ) → more_all devs held dev < 2 ^ 31)
      → (s' : Store S) × (unref_devices drv (map some devs ++ none ∷ rest) s ≡ ok s')
        × Counted head s' held
        × (s'.device_desc ≡ s.device_desc)
  unfolding unref_devices
  unref_devices-Counted [] rest s held c few = (s, refl, c, refl)
  unref_devices-Counted (dev ∷ devs) rest s held c few =
      let (s', e, c', f, g) =
        unref_device-Counted dev s (more_all devs held) c (ground (arith, few dev)) in
      let (s'', e', c'', g') =
        unref_devices-Counted devs rest s' held c' (λ d. ground (arith, few d)) in
      (s'', rw e e', c'', g' ∙ g)

  free_device_list-some :
      (devs : List ℕ) (rest : List (Option ℕ)) (s s' : Store S)
      → unref_devices drv (map some devs ++ none ∷ rest) s ≡ ok s'
      → free_device_list drv (map some devs ++ none ∷ rest) true s ≡ ok (free_block drv s')
  unfolding free_device_list
  free_device_list-some [] rest s s' e = rw e refl
  free_device_list-some (dev ∷ devs) rest s s' e = rw e refl

  pub free_device_list-Counted :
      (l : DeviceList) (devs : List ℕ) (s : Store S) (held : Held)
      → IsDeviceList l devs
      → Counted head s (more_all devs held)
      → ((dev : ℕ) → more_all devs held dev < 2 ^ 31)
      → (s' : Store S) × (free_device_list drv l.list true s ≡ ok s')
        × Counted head s' held
        × (s'.device_desc ≡ s.device_desc)
  unfolding free_device_list
  free_device_list-Counted l devs s held v c few = elim v.ended [
    | inl (d, n) ↦ (s, rw n refl, rw d at c, refl)
    | inr (rest, _, n) ↦
        let (s', e, c', g) = unref_devices-Counted devs rest s held c few in
        (
          free_block drv s',
          rw n (free_device_list-some devs rest s s' e),
          Counted-world head s' held _ c',
          g,
        )
  ]

  -- Where the counts are the references that are held, `libusby_open` of a device that is held adds
  -- one reference to it with the handle, or returns an error and leaves the counts as they are.
  pub open_device-Opened :
      (succeeds : Allocator) (dev : ℕ) (s : Store S) (held : Held)
      → Counted head s held
      → 0 < held dev
      → suc (held dev) < 2 ^ 31
      → Opened head dev s held (open_device drv succeeds dev s)
  unfolding open_device
  open_device-Opened succeeds dev s held c one few =
      if-intro (Opened head dev s held) (malloc succeeds s.world.heap).0
        (λ _. attempt (drv.open_handle dev s.world.system) (malloc succeeds s.world.heap).1)
        (λ _. (refl, inr (no_mem, refl, Counted-world head s held _ c)))
    where
      attempt : (r : Option Error × S) (h : Heap) → Opened head dev s held (opened drv dev r s h)
      attempt (some e, system) h = (refl, inr (e, refl, Counted-world head s held _ c))
      attempt (none, system) h =
          let s' = with_world s (record { heap = h; system = system }) in
          let (s'', e, c', g) =
            ref_device-Counted head dev s' held (Counted-world head s held _ c) one few in
          rw e (g, inl (refl, c'))

  -- Where the counts are the references that are held, `libusby_close` gives up the reference of the
  -- handle: the counts are the references that are left.
  pub close_device-Counted :
      (dev : ℕ) (s : Store S) (held : Held)
      → Counted head s (more dev held)
      → suc (held dev) < 2 ^ 31
      → (s' : Store S) × (close_device drv dev s ≡ ok s')
        × Counted head s' held
        × (s'.device_desc ≡ s.device_desc)
  unfolding close_device
  close_device-Counted dev s held c few =
      let s1 =
        with_world s
          (record { heap = s.world.heap; system = drv.close_handle dev s.world.system }) in
      let (s', e, c', f, g) =
        unref_device-Counted dev s1 held (Counted-world head s (more dev held) _ c) few in
      (free_block drv s', rw e refl, Counted-world head s' held _ c', g)
