-- ===== src/Wrapper/DeviceVector.antt =====
-- `context::get_device_list` of src/libusby.hpp: the vector of devices in place of the array.
use libusby.Base.{
  ℕ, suc, ◌^◌, ◌≤◌, ◌<◌, ◌≡◌, refl, sym, ap, ◌∙◌, inl, inr, true, List, [], ◌∷◌, ◌++◌, map, length,
  Option, none, some, arith, ok,
}
use libusby.Devices.Array.{DeviceList, IsDeviceList}
use libusby.Handles.{Driver, Store, free_device_list}
use libusby.Handles.Counting.{
  Held, more, more_all, Counted, ref_device-Counted, unref_device-Counted, free_device_list-Counted,
}
use libusby.Handles.Search.Loops.{Counted-cong, more_all-hold}
use libusby.Wrapper.{push_ref, push_all, guarded, get_device_vector}

pub more_all-le : (devs : List ℕ) (held : Held) (d : ℕ) → held d ≤ more_all devs held d
more_all-le [] held d = omega arith
more_all-le (dev ∷ devs) held d = ground (arith, more_all-le devs held d)

more_all-zero :
    (devs : List ℕ) (held held' : Held) (d : ℕ)
    → more_all devs held d ≡ 0
    → held' d ≡ 0
    → more_all devs held' d ≡ 0
more_all-zero [] held held' d e f = f
more_all-zero (dev ∷ devs) held held' d e f = ground (arith, more_all-zero devs held held' d, e, f)

more_all-twice :
    (devs : List ℕ) (held : Held) (d : ℕ)
    → 0 < more_all devs (more_all devs held) d
    → 0 < more_all devs held d
more_all-twice devs held d h = ground (arith, h, more_all-zero devs held (more_all devs held) d)

module _ {ℓ} {S : Type ℓ} (drv : Driver S) (head : ℕ) where
  push_ref-Counted :
      (dev : ℕ) (s : Store S) (held : Held)
      → Counted head s held
      → 0 < held dev
      → suc (suc (held dev)) < 2 ^ 31
      → (s' : Store S) × (push_ref drv dev s ≡ ok s') × Counted head s' (more dev held)
  push_ref-Counted dev s held c one few =
      let (s1, e1, c1, g1) = ref_device-Counted head dev s held c one (omega (arith, few)) in
      let (s2, e2, c2, g2) =
        ref_device-Counted head dev s1 (more dev held) c1 (ground arith) (ground (arith, few)) in
      let (s3, e3, c3, f, g3) =
        unref_device-Counted drv head dev s2 (more dev held) c2 (ground (arith, few)) in
      (s3, rw e1 (rw e2 e3), c3)

  push_all-Counted :
      (devs : List ℕ) (rest : List (Option ℕ)) (s : Store S) (held : Held)
      → Counted head s held
      → ((d : ℕ) → 0 < more_all devs held d → 0 < held d)
      → ((d : ℕ) → suc (suc (more_all devs held d)) < 2 ^ 31)
      → (s' : Store S) × (push_all drv (length devs) (map some devs ++ rest) s
          ≡ ok (map some devs, s'))
        × Counted head s' (more_all devs held)
  unfolding push_all
  push_all-Counted [] rest s held c one few = (s, refl, c)
  push_all-Counted (dev ∷ devs) rest s held c one few =
      let held1 : Held = more dev held in
      let same : (d : ℕ) → more dev (more_all devs held) d ≡ more_all devs held1 d =
        more_all-hold (some dev) devs held in
      let (s1, e1, c1) =
        push_ref-Counted dev s held c (one dev (ground arith))
          (ground (arith, few dev, more_all-le devs held dev)) in
      let (s2, e2, c2) =
        push_all-Counted devs rest s1 held1 c1 (λ d h. ground (arith, one d, same d, h))
          (λ d. omega (arith, few d, same d)) in
      (s2, rw e1 (rw e2 refl), Counted-cong head s2 _ _ (λ d. sym (same d)) c2)

  -- The loop over the array that is enumerated.
  push_list-Counted :
      (l : DeviceList) (devs : List ℕ) (s : Store S) (held : Held)
      → IsDeviceList l devs
      → Counted head s held
      → ((d : ℕ) → 0 < more_all devs held d → 0 < held d)
      → ((d : ℕ) → suc (suc (more_all devs held d)) < 2 ^ 31)
      → (s' : Store S) × (push_all drv l.count l.list s ≡ ok (map some devs, s'))
        × Counted head s' (more_all devs held)
  push_list-Counted l devs s held v c one few = elim v.ended [
    | inl (d, n) ↦
        let (s', e, c') = push_all-Counted devs [] s held c one few in
        (
          s',
          rw (v.counted, n)
              (ap (λ (cells : List (Option ℕ)). push_all drv (length devs) cells s)
                  (sym (rw d refl))
                ∙ e),
          c',
        )
    | inr (rest, _, n) ↦
        let (s', e, c') = push_all-Counted devs (none ∷ rest) s held c one few in
        (s', rw (v.counted, n) e, c')
  ]

  guarded_lem :
      (l : DeviceList) (objects : List (Option ℕ)) (s s1 s2 : Store S)
      → push_all drv l.count l.list s ≡ ok (objects, s1)
      → free_device_list drv l.list true s1 ≡ ok s2
      → get_device_vector drv (ok l, s) ≡ (ok objects, s2)
  unfolding get_device_vector
  guarded_lem l objects s s1 s2 e f = rw e (rw (guarded, f) refl)

  -- Where `libusby_get_device_list` returned an array of devices with a reference for each of its
  -- cells, and the counts are the references that are held and far from 2^31: the vector of
  -- `context::get_device_list` has the devices of the array in their order, one reference for each of
  -- its objects and no other, although those of the array were given up.
  pub get_device_vector-Counted :
      (l : DeviceList) (devs : List ℕ) (s : Store S) (held : Held)
      → IsDeviceList l devs
      → Counted head s (more_all devs held)
      → ((d : ℕ) → suc (suc (more_all devs (more_all devs held) d)) < 2 ^ 31)
      → (s' : Store S) × (get_device_vector drv (ok l, s) ≡ (ok (map some devs), s'))
        × Counted head s' (more_all devs held)
  get_device_vector-Counted l devs s held v c few =
      let (s1, e, c1) =
        push_list-Counted l devs s (more_all devs held) v c (λ d h. more_all-twice devs held d h)
          few in
      let (s2, f, c2, g) =
        free_device_list-Counted drv head l devs s1 (more_all devs held) v c1
          (λ d. omega (arith, few d)) in
      (s2, guarded_lem l (map some devs) s s1 s2 e f, c2)
