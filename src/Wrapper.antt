-- ===== src/Wrapper.antt =====
-- The C++ wrapper src/libusby.hpp: the classes `device` and `device_handle` and the enumeration of
-- the class `context`, over the reference counts of src/libusby.c. An object of the first two is its
-- pointer; the objects of class `device` that live are a list, the last one made in front. An error
-- code that `error::check` throws is an `err`. Memory for the objects does not run out.
pub mod Holding
pub mod Objects
pub mod HandleObject
pub mod DeviceVector
use libusby.Base.{
  ℕ, zero, suc, ◌+◌, Bool, true, false, List, [], ◌∷◌, ◌++◌, Option, none, some, get_elem?, set,
  take, replicate, Outcome, ok, err, fault, stuck, ◌>>=◌, Allocator,
}
use libusby.Devices.Array.{DeviceList}
use libusby.Handles.{
  Driver, Store, ref_device, unref_device, free_device_list, open_device, close_device,
}
use libusby.Utf8.{get_string_descriptor_utf8}

-- The members of class `device` that make, change and destroy objects, by the places of the objects.
-- `ref` and `take_ownership` assert that the pointer is not NULL; what they are given is a device.
pub data DeviceCall : Type 0 where
  construct : DeviceCall
  destroy copy clear : (at : ℕ) → DeviceCall
  assign : (to from : ℕ) → DeviceCall
  swap : (this other : ℕ) → DeviceCall
  ref take_ownership : (dev : ℕ) → DeviceCall

-- `if (m_dev) libusby_ref_device(m_dev);`
abbrev pub ref_pointer {ℓ} : {S : Type ℓ} → Option ℕ → Store S → Outcome (Store S)
ref_pointer none s = ok s
ref_pointer (some dev) s = ref_device dev s

-- The object at a place; there is none behind the last.
abbrev pub with_object {ℓ κ} : {A : Type ℓ} {B : Type κ} → Option A → (A → Outcome B) → Outcome B
with_object none next = fault
with_object (some m) next = next m

-- The objects without the one at a place.
abbrev pub remove_at : List (Option ℕ) → ℕ → List (Option ℕ)
remove_at [] at = []
remove_at (m ∷ objects) zero = objects
remove_at (m ∷ objects) (suc at) = m ∷ remove_at objects at

module _ {ℓ} {S : Type ℓ} (drv : Driver S) where
  -- What `clear` does with the device of the object.
  abbrev pub unref_pointer : Option ℕ → Store S → Outcome (Store S)
  unref_pointer none s = ok s
  unref_pointer (some dev) s = unref_device drv dev s

  -- The argument of an assignment is a copy, which is swapped with the object and destroyed.
  unfoldable pub call_device :
      DeviceCall → List (Option ℕ) → Store S → Outcome (List (Option ℕ) × Store S)
  call_device construct objects s = ok (none ∷ objects, s)
  call_device (destroy at) objects s =
      with_object (get_elem? objects at)
        λ m_dev. unref_pointer m_dev s >>= λ s. ok (remove_at objects at, s)
  call_device (copy at) objects s =
      with_object (get_elem? objects at)
        λ m_dev. ref_pointer m_dev s >>= λ s. ok (m_dev ∷ objects, s)
  call_device (clear at) objects s =
      with_object (get_elem? objects at)
        λ m_dev. unref_pointer m_dev s >>= λ s. ok (set objects at none, s)
  call_device (assign to from) objects s = with_object (get_elem? objects from) λ other.
      with_object (get_elem? objects to) λ m_dev.
        ref_pointer other s >>= λ s. unref_pointer m_dev s >>= λ s. ok (set objects to other, s)
  call_device (swap this other) objects s = with_object (get_elem? objects this) λ m_dev.
      with_object (get_elem? objects other)
        λ m_other. ok (set (set objects this m_other) other m_dev, s)
  call_device (ref dev) objects s = ref_device dev s >>= λ s. ok (some dev ∷ objects, s)
  call_device (take_ownership dev) objects s = ok (some dev ∷ objects, s)

  unfoldable pub call_devices :
      List DeviceCall → List (Option ℕ) → Store S → Outcome (List (Option ℕ) × Store S)
  call_devices [] objects s = ok (objects, s)
  call_devices (c ∷ calls) objects s = call_device c objects s >>= λ r. call_devices calls r.0 r.1

  -- `clear` of class `device_handle`.
  abbrev pub close_pointer : Option ℕ → Store S → Outcome (Store S)
  close_pointer none s = ok s
  close_pointer (some handle) s = close_device drv handle s

  -- The destructors of some objects of class `device_handle`. The class has no copy constructor of its
  -- own, so that a copy has the pointer of the object.
  unfoldable pub destroy_handles : List (Option ℕ) → Store S → Outcome (Store S)
  destroy_handles [] s = ok s
  destroy_handles (m_handle ∷ handles) s = close_pointer m_handle s >>= destroy_handles handles

  abbrev pub replaced :
      ℕ → Option ℕ → Store S → Outcome (Store S) → (Outcome ℕ × Option ℕ) × Store S
  replaced handle m_handle s (ok s') = ((ok 0, some handle), s')
  replaced handle m_handle s _ = ((fault, m_handle), s)

  abbrev pub replace_handle : Option ℕ → Outcome ℕ × Store S → (Outcome ℕ × Option ℕ) × Store S
  replace_handle m_handle (ok handle, s) = replaced handle m_handle s (close_pointer m_handle s)
  replace_handle m_handle (r, s) = ((r, m_handle), s)

  -- The return value, and the pointer of the object.
  unfoldable pub try_open : Allocator → Option ℕ → ℕ → Store S → (Outcome ℕ × Option ℕ) × Store S
  try_open succeeds m_handle dev s = replace_handle m_handle (open_device drv succeeds dev s)

  -- `res.push_back(device::ref(list[i]))`: the vector holds a copy of an object that is destroyed.
  abbrev pub push_ref : ℕ → Store S → Outcome (Store S)
  push_ref dev s = ref_device dev s >>= λ s. ref_device dev s >>= λ s. unref_device drv dev s

  -- The loop with so many rounds left; `device::ref` asserts that the pointer is not NULL.
  unfoldable pub push_all : ℕ → List (Option ℕ) → Store S → Outcome (List (Option ℕ) × Store S)
  push_all zero cells s = ok ([], s)
  push_all (suc r) [] s = fault
  push_all (suc r) (none ∷ cells) s = fault
  push_all (suc r) (some dev ∷ cells) s =
      push_ref dev s >>= λ s. push_all r cells s >>= λ x. ok (some dev ∷ x.0, x.1)

  -- The destructor of `devlist_guard`.
  abbrev pub guarded :
      DeviceList
      → Store S
      → Outcome (List (Option ℕ) × Store S)
      → Outcome (List (Option ℕ)) × Store S
  guarded l s (ok (objects, s')) = elim (free_device_list drv l.list true s') [
    | ok s'' ↦ (ok objects, s'')
    | err e ↦ (fault, s)
    | fault ↦ (fault, s)
    | stuck ↦ (fault, s)
  ]
  guarded l s _ = (fault, s)

  -- `context::get_device_list`, with what `libusby_get_device_list` returns.
  unfoldable pub get_device_vector :
      Outcome DeviceList × Store S → Outcome (List (Option ℕ)) × Store S
  get_device_vector (ok l, s) = guarded l s (push_all l.count l.list s)
  get_device_vector (err e, s) = (err e, s)
  get_device_vector (fault, s) = (fault, s)
  get_device_vector (stuck, s) = (stuck, s)

-- `device_handle::get_string_desc_utf8`, with what the request for the descriptor returns, and
-- `junk` in the array.
unfoldable pub get_string_desc_utf8 : Outcome (List ℕ) → ℕ → Outcome (List ℕ)
get_string_desc_utf8 descriptor junk =
    get_string_descriptor_utf8 descriptor 256 (replicate 256 junk) >>= λ r. ok (take r.0 r.1)
