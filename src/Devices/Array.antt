-- ===== src/Devices/Array.antt =====
-- `usbyi_append_device_list` of src/libusby.c, and the loop of `libusby_free_device_list` that runs
-- over the array that it builds. A device is named by its address, and a null pointer is `none`.
-- The empty list of cells is the array NULL. `junk` is what a grown array holds in its new cells.
-- The multiplication of a capacity by the size of a pointer does not wrap: an enumeration finds
-- some hundreds of devices.
use libusby.Base.{
  ℕ, suc, ◌+◌, ◌-◌, ◌*◌, ◌≤◌, ◌<◌, ◌≡◌, refl, sym, ap, ◌∙◌, ◌⊎◌, inl, inr, Bool, true, false, not,
  ◌&&◌, ◌||◌, List, [], ◌∷◌, ◌++◌, append_assoc, map, Option, none, some, arith, ltb, leb, ◌==◌,
  if◌then◌else◌, length, length-append, length-replicate, set, replicate, Outcome, ok, err, fault,
  ◌>>=◌, no_mem,
}

pub record DeviceList : Type 0 where
  pub count : ℕ
  pub capacity : ℕ
  pub list : List (Option ℕ)

-- `memset(&devlist, 0, sizeof devlist)`
abbrev pub no_devices : DeviceList
no_devices = record { count = 0; capacity = 0; list = [] }

-- `realloc` to more cells.
abbrev pub grow : Option ℕ → ℕ → List (Option ℕ) → List (Option ℕ)
grow junk capacity cells = cells ++ replicate (capacity - length cells) junk

-- The stores behind the second assert.
abbrev pub store_device : ℕ → DeviceList → Outcome DeviceList
store_device dev l =
    if ltb (l.count + 1) l.capacity
    then ok (record l {
      list = set (set l.list l.count (some dev)) (l.count + 1) none;
      count = l.count + 1;
    })
    else fault

unfoldable pub append_device_list : Bool → Option ℕ → ℕ → DeviceList → Outcome DeviceList
append_device_list succeeds junk dev l =
    if not (leb l.count l.capacity)
    then fault
    else if length l.list == 0 && not (l.capacity == 0)
    then fault
    else if l.count == 0 || l.count + 1 == l.capacity
    then (if succeeds
        then store_device dev
            (record l { capacity = (l.count + 1) * 2; list = grow junk ((l.count + 1) * 2) l.list })
        else err no_mem)
    else store_device dev l

-- `for (; *cur; ++cur)` of `libusby_free_device_list`: the devices that it drops.
unfoldable pub devices_of : List (Option ℕ) → Outcome (List ℕ)
devices_of [] = fault
devices_of (none ∷ cells) = ok []
devices_of (some dev ∷ cells) = devices_of cells >>= λ devs. ok (dev ∷ devs)

-- The array holds these devices, one or more, and a null pointer behind them; or it is still NULL.
pub record IsDeviceList (l : DeviceList) (devs : List ℕ) : Type 0 where
  pub counted : l.count ≡ length devs
  pub sized : length l.list ≡ l.capacity
  pub ended :
      ((devs ≡ []) × (l.list ≡ []))
      ⊎ ((rest : List (Option ℕ)) × (0 < length devs) × (l.list ≡ map some devs ++ none ∷ rest))

pub no_devices-IsDeviceList : IsDeviceList no_devices []
no_devices-IsDeviceList = record { counted = refl; sized = refl; ended = inl (refl, refl) }

length-some : (devs : List ℕ) → length (map some devs) ≡ length devs
length-some [] = refl
length-some (x ∷ devs) = ap suc (length-some devs)

-- Two stores behind the devices.
set-end :
    (devs : List ℕ) (dev : ℕ) (x y : Option ℕ) (rest : List (Option ℕ))
    → set (set (map some devs ++ x ∷ y ∷ rest) (length devs) (some dev)) (suc (length devs)) none
      ≡ map some (devs ++ dev ∷ []) ++ none ∷ rest
set-end [] dev x y rest = refl
set-end (d ∷ devs) dev x y rest = ap (◌∷◌ (some d)) (set-end devs dev x y rest)

abbrev Appended : ℕ → List ℕ → ℕ → Outcome DeviceList → Type 0
Appended dev devs cap r =
    (l' : DeviceList) × (r ≡ ok l') × IsDeviceList l' (devs ++ dev ∷ []) × (l'.capacity ≤ cap)

store_device-Appended :
    (dev count cap : ℕ) (devs : List ℕ) (x y : Option ℕ) (rest : List (Option ℕ))
    → count ≡ length devs
    → length (map some devs ++ x ∷ y ∷ rest) ≡ cap
    → Appended dev devs cap (
        store_device dev
          (record { count = count; capacity = cap; list = map some devs ++ x ∷ y ∷ rest }))
store_device-Appended dev count cap devs x y rest e f = (
  record { count = count + 1; capacity = cap; list = map some (devs ++ dev ∷ []) ++ none ∷ rest },
  ground (
    arith,
    length-append (map some devs) (x ∷ y ∷ rest),
    length-some devs,
    set-end devs dev x y rest,
    e,
    f,
  ),
  record {
    counted = omega (arith, length-append devs (dev ∷ []), e);
    sized = omega (
      arith,
      length-append (map some (devs ++ dev ∷ [])) (none ∷ rest),
      length-append (map some devs) (x ∷ y ∷ rest),
      length-some (devs ++ dev ∷ []),
      length-some devs,
      length-append devs (dev ∷ []),
      f,
    );
    ended = inr (rest, omega (arith, length-append devs (dev ∷ [])), refl);
  },
  omega arith,
)

weaken :
    (dev : ℕ) (devs : List ℕ) {a b : ℕ} {r : Outcome DeviceList}
    → Appended dev devs a r
    → a ≤ b
    → Appended dev devs b r
weaken dev devs (l', e, v, le) h = (l', e, v, omega arith)

-- The first device: the array is still NULL.
append-first :
    (junk : Option ℕ) (dev : ℕ) → Appended dev [] 2 (append_device_list true junk dev no_devices)
unfolding append_device_list
append-first junk dev = store_device-Appended dev 0 2 [] junk junk [] refl refl

module _ (junk : Option ℕ) (dev count cap : ℕ) (devs : List ℕ) (e : count ≡ length devs)
    (pos : 0 < length devs) where
  abbrev at : List (Option ℕ) → DeviceList
  at cells = record { count = count; capacity = cap; list = cells }

  -- The null pointer stands in the last cell: the array grows.
  append-full :
      suc count ≡ cap
      → append_device_list true junk dev (at (map some devs ++ none ∷ []))
        ≡ store_device dev (record {
          count = count;
          capacity = (count + 1) * 2;
          list = map some devs ++ none ∷ junk ∷ replicate count junk;
        })
  unfolding append_device_list
  append-full full = ground (
    arith,
    length-append (map some devs) (none ∷ []),
    length-some devs,
    e,
    append_assoc (map some devs) (none ∷ []) (replicate (suc count) junk),
    ap (λ (n : ℕ). replicate n junk) room,
  )
    where
      room : (count + 1) * 2 - length (map some devs ++ none ∷ []) ≡ suc count
      room = omega (arith, length-append (map some devs) (none ∷ []), length-some devs, e)

  -- There is a cell behind it: the array stays.
  append-room :
      (y : Option ℕ) (rest : List (Option ℕ))
      → length (map some devs ++ none ∷ y ∷ rest) ≡ cap
      → append_device_list true junk dev (at (map some devs ++ none ∷ y ∷ rest))
        ≡ store_device dev (at (map some devs ++ none ∷ y ∷ rest))
  unfolding append_device_list
  append-room y rest sized =
      ground (arith, length-append (map some devs) (none ∷ y ∷ rest), length-some devs, e)

  append-more :
      (rest : List (Option ℕ))
      → length (map some devs ++ none ∷ rest) ≡ cap
      → Appended dev devs
          (cap + 2 * (count + 1))
          (append_device_list true junk dev (at (map some devs ++ none ∷ rest)))
  append-more [] sized =
      let total : suc count ≡ cap =
        omega (arith, length-append (map some devs) (none ∷ []), length-some devs, e, sized) in
      rw (append-full total) (
        weaken dev devs
          (store_device-Appended dev count ((count + 1) * 2) devs none junk (replicate count junk) e
            (omega (
              arith,
              length-append (map some devs) (none ∷ junk ∷ replicate count junk),
              length-some devs,
              length-replicate count junk,
              e,
            )))
          (omega arith))
  append-more (y ∷ rest) sized =
      rw (append-room y rest sized) (
        weaken dev devs (store_device-Appended dev count cap devs none y rest e sized)
          (omega arith))

append-Appended :
    (junk : Option ℕ) (dev count cap : ℕ) (cells : List (Option ℕ)) (devs : List ℕ)
    (v : IsDeviceList (record { count = count; capacity = cap; list = cells }) devs)
    → Appended dev devs
        (cap + 2 * (count + 1))
        (append_device_list true junk dev (record { count = count; capacity = cap; list = cells }))
append-Appended junk dev count cap cells devs v = elim v.ended [
  | inl (d, c) ↦
      let none_yet : count ≡ 0 = v.counted ∙ ap length d in
      let empty : cap ≡ 0 = sym v.sized ∙ ap length c in
      rw (none_yet, empty, d, c) (append-first junk dev)
  | inr (rest, pos, c) ↦
      rw c (append-more junk dev count cap devs v.counted pos rest (ap length (sym c) ∙ v.sized))
]

-- On a list with these devices, where memory suffices, `usbyi_append_device_list` passes its
-- asserts and puts the device behind the others, with a null pointer after it.
pub append_device_list-IsDeviceList :
    (junk : Option ℕ) (dev : ℕ) (l : DeviceList) (devs : List ℕ)
    → IsDeviceList l devs
    → (l' : DeviceList) × (append_device_list true junk dev l ≡ ok l')
      × IsDeviceList l' (devs ++ dev ∷ [])
      × (l'.capacity ≤ l.capacity + 2 * (l.count + 1))
append_device_list-IsDeviceList junk dev l devs v =
    append-Appended junk dev l.count l.capacity l.list devs v

-- Without memory, `usbyi_append_device_list` returns NO_MEM or does what it does with memory.
append_device_list-no_mem :
    (junk : Option ℕ) (dev : ℕ) (l : DeviceList) (devs : List ℕ)
    → IsDeviceList l devs
    → (append_device_list false junk dev l ≡ err no_mem)
      ⊎ (append_device_list false junk dev l ≡ append_device_list true junk dev l)
unfolding append_device_list
append_device_list-no_mem junk dev l devs v = ground arith

-- On such a list `usbyi_append_device_list` fails with NO_MEM or appends.
pub append_device_list-cases :
    (succeeds : Bool) (junk : Option ℕ) (dev : ℕ) (l : DeviceList) (devs : List ℕ)
    → IsDeviceList l devs
    → (append_device_list succeeds junk dev l ≡ err no_mem)
      ⊎ ((l' : DeviceList) × (append_device_list succeeds junk dev l ≡ ok l')
          × IsDeviceList l' (devs ++ dev ∷ []))
append_device_list-cases true junk dev l devs v =
    let (l', e, w, b) = append_device_list-IsDeviceList junk dev l devs v in inr (l', e, w)
append_device_list-cases false junk dev l devs v =
    let (l', e, w, b) = append_device_list-IsDeviceList junk dev l devs v in
    elim (append_device_list-no_mem junk dev l devs v) [
      | inl failed ↦ inl failed
      | inr same ↦ inr (l', same ∙ e, w)
    ]

devices_of-some :
    (devs : List ℕ) (rest : List (Option ℕ)) → devices_of (map some devs ++ none ∷ rest) ≡ ok devs
unfolding devices_of
devices_of-some [] rest = refl
devices_of-some (x ∷ devs) rest = rw (devices_of-some devs rest)

-- On a list with one device or more, the loop of `libusby_free_device_list` stays in the array and
-- drops each device once.
devices_of-IsDeviceList :
    (l : DeviceList) (devs : List ℕ)
    → IsDeviceList l devs
    → 0 < l.count
    → devices_of l.list ≡ ok devs
devices_of-IsDeviceList l devs v pos = elim v.ended [
  | inl (d, c) ↦ absurd (omega (arith, v.counted, ap length d))
  | inr (rest, _, c) ↦ ap devices_of c ∙ devices_of-some devs rest
]
