-- ===== src/Wrapper/Objects.antt =====
-- The objects of class `device` of src/libusby.hpp: each that is not empty holds a reference.
use libusby.Base.{ℕ, ◌+◌, ◌-◌, ◌<◌, ◌≡◌, List, [], ◌∷◌, Option, length, Outcome, ok}
use libusby.Handles.{Driver, Store}
use libusby.Handles.Counting.{Held, Counted}
use libusby.Wrapper.{DeviceCall, construct, destroy, copy, clear, assign, swap, ref, take_ownership}
use libusby.Wrapper.Holding.{holding, less}

-- The places that a call names are those of objects; `ref` is given a device that is held, and
-- `take_ownership` a reference that is held.
abbrev pub Fits : DeviceCall → ℕ → Held → Type 0
Fits construct n held = Unit {0}
Fits (destroy at) n held = at < n
Fits (copy at) n held = at < n
Fits (clear at) n held = at < n
Fits (assign to from) n held = (to < n) × (from < n)
Fits (swap this other) n held = (this < n) × (other < n)
Fits (ref dev) n held = 0 < held dev
Fits (take_ownership dev) n held = 0 < held dev

-- How many objects there are after a call.
abbrev pub after : DeviceCall → ℕ → ℕ
after construct n = n + 1
after (destroy at) n = n - 1
after (copy at) n = n + 1
after (clear at) n = n
after (assign to from) n = n
after (swap this other) n = n
after (ref dev) n = n + 1
after (take_ownership dev) n = n + 1

-- The references that are held beside those of the objects.
abbrev pub kept : DeviceCall → Held → Held
kept (take_ownership dev) held = less dev held
kept _ held = held

abbrev pub kept_all : List DeviceCall → Held → Held
kept_all [] held = held
kept_all (c ∷ calls) held = kept_all calls (kept c held)

abbrev pub FitsAll : List DeviceCall → ℕ → Held → Type 0
FitsAll [] n held = Unit {0}
FitsAll (c ∷ calls) n held = Fits c n held × FitsAll calls (after c n) (kept c held)

module _ {ℓ} {S : Type ℓ} (drv : Driver S) (head : ℕ) where
  -- The objects afterwards, with a reference for each.
  abbrev pub Holds : Held → ℕ → Outcome (List (Option ℕ) × Store S) → Type ℓ
  Holds held n r =
      (objects : List (Option ℕ)) × (s : Store S) × (r ≡ ok (objects, s))
      × (length objects ≡ n)
      × Counted head s (holding objects held)
