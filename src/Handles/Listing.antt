-- ===== src/Handles/Listing.antt =====
-- The lists of devices that the backends of src/os/ enumerate: their references, and the addresses of
-- new devices. What is enumerated has an address, that of the device that is made for it.
use libusby.Base.{
  ℕ, suc, ◌+◌, ◌^◌, ◌≤◌, ◌<◌, ◌≡◌, refl, sym, ap, ◌⊎◌, inl, inr, Bool, true, false, ◌||◌, List, [],
  ◌∷◌, ◌++◌, append-nil, length, length-append, ◌==◌, ==→eq, Bool-cases, arith, Option, none, some,
  Outcome, ok, err, fault, stuck, Allocator,
}
use mathlib.Core.Path.{subst}
use libusby.Devices.Ring.{update, has, Distinct, insert_before_devlist_node}
use libusby.Devices.Ring.Chain.{has-insert}
use libusby.Devices.Ring.Order.{insert_before_devlist_node-IsRing}
use libusby.Devices.Array.{DeviceList, IsDeviceList}
use libusby.Devices.Descriptor.{device_descriptor}
use libusby.Handles.{Store, alloc_device}
use libusby.Handles.Counting.{Held, more, more_all, Counted, has-split}
use libusby.Handles.Search.Loops.{Counted-cong}

-- A list of devices with a reference for each cell, or an error code and no reference; on no input
-- a fault.
abbrev pub Listed {ℓ} : {S : Type ℓ} → ℕ → Held → Outcome DeviceList × Store S → Type 0
Listed head held (ok l, s) =
    (devs : List ℕ) × IsDeviceList l devs
    × Counted head s (more_all devs held)
    × ((d : ℕ) → suc (more_all devs held d) < 2 ^ 31)
Listed head held (err e, s) = Counted head s held
Listed head held _ = ⊥

-- A device of the list, or none.
abbrev pub IsAmong : List ℕ → Outcome (Option ℕ) → Type 0
IsAmong nodes (ok none) = Unit
IsAmong nodes (ok (some dev)) = has dev nodes ≡ true
IsAmong nodes _ = ⊥

pub IsAmong-weaken :
    (x : ℕ) (xs : List ℕ) (r : Outcome (Option ℕ)) → IsAmong xs r → IsAmong (x ∷ xs) r
IsAmong-weaken x xs (ok none) a = tt
IsAmong-weaken x xs (ok (some dev)) a = ground arith
IsAmong-weaken x xs (err e) a = absurd a
IsAmong-weaken x xs fault a = absurd a
IsAmong-weaken x xs stuck a = absurd a

-- A new device in the ring, with one reference.
pub new_device-Counted {ℓ} :
    {S : Type ℓ} (succeeds : Allocator) (head dev : ℕ) (s : Store S) (held : Held)
    → Counted head s held
    → held dev ≡ 0
    → (dev == head) ≡ false
    → ((i : ℕ) → succeeds i ≡ true)
    → (s' : Store S) × (alloc_device succeeds dev s ≡ ok s')
      × Counted head
          (record s' { links = insert_before_devlist_node dev head s'.links })
          (more dev held)
unfolding alloc_device
new_device-Counted succeeds head dev s held c idle apart memory = (
  record s {
    world = record {
      heap = record { calls = s.world.heap.calls + 1; live = s.world.heap.live + 1 };
      system = s.world.system;
    };
    ref_count = update s.ref_count dev 1;
    device_desc = update s.device_desc dev (device_descriptor []);
    freed = update s.freed dev false;
  },
  rw (memory s.world.heap.calls) refl,
  record {
    nodes = c.nodes ++ dev ∷ [];
    ring = insert_before_devlist_node-IsRing s.links head c.nodes [] dev (rw append-nil c.ring) (
        subst (λ (xs : List ℕ). has dev (head ∷ xs) ≡ false) (sym (append-nil c.nodes))
          (ground (arith, c.listed dev, idle, apart)));
    listed = λ d. ground (arith, c.listed d, has-insert d dev c.nodes [], append-nil c.nodes, idle);
    kept = λ d h. ground (arith, c.kept d, idle);
  },
)

-- Nodes that differ and are all in a list are not more than it has.
pub length-Distinct :
    (xs known : List ℕ)
    → Distinct xs
    → ((d : ℕ) → has d xs ≡ true → has d known ≡ true)
    → length xs ≤ length known
length-Distinct [] known d i = omega arith
length-Distinct (x ∷ xs) known d i =
    let (front, back, e) = has-split x known (i x (ground arith)) in
    let fewer = length-Distinct xs (front ++ back) d.1 (λ a h. elim (Bool-cases (x == a)) [
      | inl q ↦ absurd (cc (sym d.0, ap (λ (c : ℕ). has c xs) (==→eq x a q), h))
      | inr n ↦ ground (arith, i a, h, ap (has a) e, has-insert a x front back)
    ]) in
    omega (arith, fewer, ap length e, length-append front back, length-append front (x ∷ back))

pub more_all-last :
    (devs : List ℕ) (dev : ℕ) (held : Held) (d : ℕ)
    → more dev (more_all devs held) d ≡ more_all (devs ++ dev ∷ []) held d
more_all-last [] dev held d = refl
more_all-last (x ∷ devs) dev held d = ground (arith, more_all-last devs dev held d)

module _ {κ} {A : Type κ} (address : A → ℕ) where
  abbrev pub has_address : ℕ → List A → Bool
  has_address a [] = false
  has_address a (e ∷ entries) = (a == address e) || has_address a entries

  -- The addresses of new devices are not those of devices that are held, of the head or of each other.
  abbrev pub IsFresh : ℕ → Held → List A → Type 0
  IsFresh head held [] = Unit {0}
  IsFresh head held (e ∷ entries) =
      (held (address e) ≡ 0)
      × ((address e == head) ≡ false)
      × (has_address (address e) entries ≡ false)
      × IsFresh head held entries

  pub IsFresh-more :
      (head dev : ℕ) (held held' : Held) (entries : List A)
      → ((d : ℕ) → more dev held d ≡ held' d)
      → (0 < held dev) ⊎ (has_address dev entries ≡ false)
      → IsFresh head held entries
      → IsFresh head held' entries
  IsFresh-more head dev held held' [] e o f = tt
  IsFresh-more head dev held held' (x ∷ entries) e o f = (
    ground (arith, e (address x), f.0, o),
    f.1,
    f.2,
    IsFresh-more head dev held held' entries e
        (elim o [ inl p ↦ inl p | inr n ↦ inr (ground arith) ]) f.3,
  )

  -- Every address is one of a list.
  abbrev pub IsKnown : List ℕ → List A → Type 0
  IsKnown known [] = Unit {0}
  IsKnown known (e ∷ entries) = (has (address e) known ≡ true) × IsKnown known entries

module _ {ℓ κ} {S : Type ℓ} {A : Type κ} (address : A → ℕ) (head : ℕ) (held : Held)
    (known : List ℕ) where
  -- What holds before the visit of an entry.
  pub record IsReady (entries : List A) (devs : List ℕ) (l : DeviceList) (s : Store S)
      : Type 0 where
    pub array : IsDeviceList l devs
    pub counted : Counted head s (more_all devs held)
    pub fresh : IsFresh address head (more_all devs held) entries
    pub few : (d : ℕ) → suc (more_all devs held d + length entries) < 2 ^ 31
    pub addressed : (d : ℕ) → 0 < more_all devs held d → has d known ≡ true

  pub IsReady-skip :
      (e : A) (entries : List A) (devs : List ℕ) (l : DeviceList) (s s' : Store S)
      → IsReady (e ∷ entries) devs l s
      → Counted head s' (more_all devs held)
      → IsReady entries devs l s'
  IsReady-skip e entries devs l s s' r c = record {
    array = r.array;
    counted = c;
    fresh = r.fresh.3;
    few = λ d. omega (arith, r.few d);
    addressed = r.addressed;
  }

  pub IsReady-add :
      (e : A) (entries : List A) (devs : List ℕ) (dev : ℕ) (l l' : DeviceList) (s s' : Store S)
      → IsReady (e ∷ entries) devs l s
      → IsDeviceList l' (devs ++ dev ∷ [])
      → Counted head s' (more dev (more_all devs held))
      → (0 < more_all devs held dev) ⊎ (has_address address dev entries ≡ false)
      → has dev known ≡ true
      → IsReady entries (devs ++ dev ∷ []) l' s'
  IsReady-add e entries devs dev l l' s s' r v c o i = record {
    array = v;
    counted = Counted-cong head s' _ _ (more_all-last devs dev held) c;
    fresh = IsFresh-more address head dev _ _ entries (more_all-last devs dev held) o r.fresh.3;
    few = λ d. ground (arith, r.few d, more_all-last devs dev held d);
    addressed = λ d h. elim (Bool-cases (dev == d)) [
      | inl q ↦ subst (λ (a : ℕ). has a known ≡ true) (==→eq dev d q) i
      | inr n ↦ r.addressed d (ground (arith, h, more_all-last devs dev held d))
    ];
  }
