-- ===== src/Usbfs/Enumeration/Walk.antt =====
-- The search of `usbyb_get_device_list` of src/os/linux_usbfs.c in the ring.
use libusby.Base.{ℕ, zero, suc, ◌<◌, ◌≡◌, false, ◌&&◌, List, [], ◌∷◌, length, ◌==◌, if-intro, arith}
use libusby.Devices.Ring.{has, Chain}
use libusby.Handles.Listing.{IsAmong, IsAmong-weaken}
use libusby.Usbfs.Enumeration.{Entry, Bus, find_device}

module _ {ℓ} {S : Type ℓ} (head : ℕ) where
  pub find_device-IsAmong :
      (n : ℕ) (e : Entry) (b : Bus S) (a : ℕ) (xs : List ℕ)
      → Chain b.store.links a xs head
      → has head xs ≡ false
      → length xs < n
      → IsAmong xs (find_device head n e b (b.store.links.next a))
  unfolding find_device
  find_device-IsAmong zero e b a xs c o l = absurd (omega arith)
  find_device-IsAmong (suc n) e b a [] c o l =
      if-intro (IsAmong []) (b.store.links.next a == head) (λ _. tt)
        (λ q. absurd (ground (arith, c.0)))
  find_device-IsAmong (suc n) e b a (x ∷ xs) c o l =
      let rest = find_device-IsAmong n e b x xs c.2 (ground arith) (omega arith) in
      if-intro (IsAmong (x ∷ xs)) (b.store.links.next a == head) (λ _. tt)
        (λ _.
          if-intro (IsAmong (x ∷ xs))
            (b.busno (b.store.links.next a) == e.busno && b.devno (b.store.links.next a) == e.devno)
            (λ _. ground (arith, c.0)) (λ _. rw c.0 (IsAmong-weaken x xs _ rest)))
