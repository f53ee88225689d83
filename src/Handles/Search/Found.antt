-- ===== src/Handles/Search/Found.antt =====
-- What `libusby_open_device_with_vid_pid` of src/libusby.c leaves behind, with a list of devices
-- from the enumeration.
use libusby.Base.{
  ℕ, suc, ◌^◌, ◌<◌, ◌≡◌, refl, List, ◌++◌, map, length, Option, none, some, arith, ok, ◌>>=◌,
  Allocator,
}
use libusby.Devices.Array.{DeviceList, IsDeviceList}
use libusby.Handles.{Driver, Store}
use libusby.Handles.Counting.{Held, more_all, Counted, free_device_list-Counted}
use libusby.Handles.Search.{open_cached, or_ask_all, open_device_with_vid_pid}
use libusby.Handles.Search.Loops.{
  Counted-cong, IsFound-desc, hold, more_all-hold, more_all-has, IsFound, few-hold, Answers, Sought,
  open_cached-Sought, open_asked-Sought, cells-array,
}

module _ {ℓ} {S : Type ℓ} (drv : Driver S) (head : ℕ) (succeeds : Allocator) (junk v p : ℕ)
    (held : Held) where
  -- The two loops, over the array.
  loops-Sought :
      (l : DeviceList) (devs : List ℕ) (s : Store S)
      → IsDeviceList l devs
      → Answers drv succeeds junk
      → ((d : ℕ) → suc (more_all devs held d) < 2 ^ 31)
      → Counted head s (more_all devs held)
      → Sought drv head succeeds junk v p (more_all devs held) devs (
          open_cached drv succeeds junk v p l.count l.list s >>= or_ask_all drv succeeds junk v p l)
  loops-Sought l devs s w answers few c =
      let T : Held = more_all devs held in
      let (rest, e) = cells-array l devs w in
      let (h, s', e', c', f) =
        open_cached-Sought drv head succeeds junk v p T devs rest s (more_all-has devs held) few
          c in
      rw (w.counted, e, e') (ask h s' rest c' f)
    where
      ask :
          (h : Option ℕ) (s' : Store S) (rest : List (Option ℕ))
          → Counted head s' (hold h (more_all devs held))
          → IsFound v p devs h s'
          → Sought drv head succeeds junk v p (more_all devs held) devs (
              or_ask_all drv succeeds junk v p
                (record {
                  count = length devs;
                  capacity = l.capacity;
                  list = map some devs ++ rest;
                })
                (h, s'))
      ask (some h) s' rest c' f = (some h, s', refl, c', f)
      ask none s' rest c' f =
          open_asked-Sought drv head succeeds junk v p (more_all devs held) devs rest s' answers
            (more_all-has devs held) few c'

  -- Given an array with a reference for each of its devices, where every request for a descriptor
  -- ends and the counts are far from 2^31: `libusby_open_device_with_vid_pid` returns, and gives up
  -- the references of the array. It returns NULL, and no reference is new, or a handle, which holds
  -- one reference more to a device of the array whose descriptor is that of the product asked for.
  pub open_device_with_vid_pid-Counted :
      (l : DeviceList) (devs : List ℕ) (s : Store S)
      → IsDeviceList l devs
      → Answers drv succeeds junk
      → ((d : ℕ) → suc (more_all devs held d) < 2 ^ 31)
      → Counted head s (more_all devs held)
      → (h : Option ℕ) × (s' : Store S) × (open_device_with_vid_pid drv succeeds junk v p (ok l, s)
          ≡ ok (h, s'))
        × Counted head s' (hold h held)
        × IsFound v p devs h s'
  unfolding open_device_with_vid_pid
  open_device_with_vid_pid-Counted l devs s w answers few c =
      let T : Held = more_all devs held in
      let (h, s', e, c', f) = loops-Sought l devs s w answers few c in
      let (s'', e', c'', g) =
        free_device_list-Counted drv head l devs s' (hold h held) w
          (Counted-cong head s' (hold h T) (more_all devs (hold h held)) (more_all-hold h devs held)
            c')
          (λ d. ground (arith, more_all-hold h devs held d, few-hold h T d (2 ^ 31) (few d))) in
      (h, s'', rw (e, e') refl, c'', IsFound-desc v p devs h s' s'' g f)
