-- ===== src/Wrapper/HandleObject.antt =====
-- The objects of class `device_handle` of src/libusby.hpp: the reference of the handle, the copy of an
-- object, and a string descriptor.
use libusby.Base.{
  ℕ, suc, ◌^◌, ◌≤◌, ◌<◌, ◌≡◌, refl, sym, ap, ◌∙◌, inl, inr, true, false, List, [], ◌∷◌, Option,
  none, some, arith, drop, take, take-append_length, length, length-replicate, replicate, Outcome,
  ok, err, fault, stuck, ◌>>=◌, Allocator, eq→==,
}
use libusby.Handles.{Driver, Store, close_device, unref_device, open_device, with_world, free_block}
use libusby.Handles.Counting.{
  Held, more, Counted, Counted-world, Opened, open_device-Opened, close_device-Counted,
  unref_device-Counted,
}
use libusby.Handles.Search.Loops.{hold, Counted-cong}
use libusby.Utf8.{get_string_descriptor_utf8}
use libusby.Utf8.Translate.{AllPlain, text_bytes}
use libusby.Utf8.Strings.{string_descriptor, Reads, has_boundary, get_string_descriptor_utf8-Reads}
use libusby.Wrapper.{close_pointer, destroy_handles, replace_handle, try_open, get_string_desc_utf8}
use libusby.Wrapper.Holding.{hold-swap}

-- The object has the new handle in place of its old one, or it is as it was.
abbrev pub Reopened {ℓ} :
    {S : Type ℓ} → ℕ → ℕ → Option ℕ → Held → (Outcome ℕ × Option ℕ) × Store S → Type 0
Reopened head dev m_handle held ((ok r, m), s) = (m ≡ some dev) × Counted head s (more dev held)
Reopened head dev m_handle held ((err e, m), s) =
    (m ≡ m_handle) × Counted head s (hold m_handle held)
Reopened head dev m_handle held _ = ⊥

module _ {ℓ} {S : Type ℓ} (drv : Driver S) (head : ℕ) where
  close_pointer-Counted :
      (m : Option ℕ) (s : Store S) (held : Held)
      → Counted head s (hold m held)
      → ((d : ℕ) → suc (held d) < 2 ^ 31)
      → (s' : Store S) × (close_pointer drv m s ≡ ok s') × Counted head s' held
  close_pointer-Counted none s held c few = (s, refl, c)
  close_pointer-Counted (some d) s held c few =
      let (s', e, c', g) = close_device-Counted drv head d s held c (few d) in (s', e, c')

  replace_handle-Reopened :
      (dev : ℕ) (m : Option ℕ) (s : Store S) (held : Held) (x : Outcome ℕ × Store S)
      → Opened head dev s (hold m held) x
      → ((d : ℕ) → suc (suc (held d)) < 2 ^ 31)
      → Reopened head dev m held (replace_handle drv m x)
  replace_handle-Reopened dev m s held (ok r, s1) (g, inl (e, c)) few =
      let c' : Counted head s1 (hold m (more dev held)) =
        Counted-cong head s1 _ _ (λ d. hold-swap (some dev) m held d) c in
      let (s', f, c2) =
        close_pointer-Counted m s1 (more dev held) c' (λ d. ground (arith, few d)) in
      rw f (ap (λ (d : ℕ). some d) (cc), c2)
  replace_handle-Reopened dev m s held (ok r, s1) (g, inr (e, f, c)) few = absurd (cc)
  replace_handle-Reopened dev m s held (err e, s1) (g, inl (f, c)) few = absurd (cc)
  replace_handle-Reopened dev m s held (err e, s1) (g, inr (e', f, c)) few = (refl, c)
  replace_handle-Reopened dev m s held (fault, s1) (g, inl (e, c)) few = absurd (cc)
  replace_handle-Reopened dev m s held (fault, s1) (g, inr (e, f, c)) few = absurd (cc)
  replace_handle-Reopened dev m s held (stuck, s1) (g, inl (e, c)) few = absurd (cc)
  replace_handle-Reopened dev m s held (stuck, s1) (g, inr (e, f, c)) few = absurd (cc)

  close_device-freed : (dev : ℕ) (s : Store S) → s.freed dev ≡ true → close_device drv dev s ≡ fault
  unfolding close_device unref_device
  close_device-freed dev s e = rw e refl

  close_device-last :
      (dev : ℕ) (s : Store S) (held : Held)
      → Counted head s (more dev held)
      → held dev ≡ 0
      → (s' : Store S) × (close_device drv dev s ≡ ok s') × (s'.freed dev ≡ true)
  unfolding close_device
  close_device-last dev s held c last =
      let s1 =
        with_world s
          (record { heap = s.world.heap; system = drv.close_handle dev s.world.system }) in
      let (s', e, c', f, g) =
        unref_device-Counted drv head dev s1 held (Counted-world head s (more dev held) _ c)
          (omega (arith, last)) in
      (free_block drv s', rw e refl, f ∙ eq→== (held dev) 0 last)

  -- Where the counts are the references that are held, the object among them, and are far from 2^31:
  -- `try_open` of a device that is held gives the object a handle with a reference to the device and
  -- gives up the reference of its old handle, or it returns an error and changes neither the object
  -- nor the counts.
  pub try_open-Reopened :
      (succeeds : Allocator) (m : Option ℕ) (dev : ℕ) (s : Store S) (held : Held)
      → Counted head s (hold m held)
      → 0 < hold m held dev
      → ((d : ℕ) → suc (suc (held d)) < 2 ^ 31)
      → Reopened head dev m held (try_open drv succeeds m dev s)
  unfolding try_open
  try_open-Reopened succeeds m dev s held c one few =
      replace_handle-Reopened dev m s held (open_device drv succeeds dev s)
        (open_device-Opened drv head succeeds dev s (hold m held) c one (fewer m)) few
    where
      fewer : (n : Option ℕ) → suc (hold n held dev) < 2 ^ 31
      fewer none = omega (arith, few dev)
      fewer (some h) = ground (arith, few dev)

  -- Where the counts are the references that are held and an object of class `device_handle` has the
  -- only one to its device: the destructors of the object and of a copy of it use the device after it
  -- was freed.
  pub destroy_handles-copy :
      (dev : ℕ) (s : Store S) (held : Held)
      → Counted head s (more dev held)
      → held dev ≡ 0
      → destroy_handles drv (some dev ∷ some dev ∷ []) s ≡ fault
  unfolding destroy_handles
  destroy_handles-copy dev s held c last =
      let (s', e, f) = close_device-last dev s held c last in
      rw e (rw (close_device-freed dev s' f) refl)

-- A string of up to 126 units of plain text without 0x7f, 0x7ff and 0xffff, which fits in 256 bytes:
-- `get_string_desc_utf8` returns its UTF-8, whatever the array held before.
pub get_string_desc_utf8-Reads :
    (us : List ℕ) (junk : ℕ)
    → AllPlain us
    → has_boundary us ≡ false
    → length us ≤ 126
    → length (text_bytes us) ≤ 256
    → (out : List ℕ) × (get_string_desc_utf8 (ok (string_descriptor us)) junk ≡ ok out)
      × Reads us out
unfolding get_string_desc_utf8
get_string_desc_utf8-Reads us junk p clear h fits =
    sized 256 (replicate 256 junk) (length-replicate 256 junk) fits
  where
    sized :
        (n : ℕ) (buffer : List ℕ)
        → length buffer ≡ n
        → length (text_bytes us) ≤ n
        → (out : List ℕ) × ((get_string_descriptor_utf8 (ok (string_descriptor us)) n buffer
              >>= λ r. ok (take r.0 r.1))
            ≡ ok out)
          × Reads us out
    sized n buffer l fit =
        let (out, e, r) =
          get_string_descriptor_utf8-Reads us buffer p clear h (omega (arith, l, fit)) in
        (
          out,
          rw (sym l) (
              rw e (ap (λ (x : List ℕ). ok x) (take-append_length out (drop (length out) buffer)))),
          r,
        )
