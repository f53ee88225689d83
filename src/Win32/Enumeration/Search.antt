-- ===== src/Win32/Enumeration/Search.antt =====
-- The search in the ring and the requests of `usbyb_get_device_list` of src/os/libusb0_win32.c.
use libusby.Base.{
  ℕ, zero, suc, ◌<◌, ◌≡◌, false, List, [], ◌∷◌, length, get_or, ◌==◌, if-intro, arith, Outcome,
  malloc, Allocator,
}
use libusby.Devices.Ring.{has, Chain}
use libusby.Devices.Descriptor.{sanitize_device_desc}
use libusby.Handles.Listing.{IsAmong, IsAmong-weaken}
use libusby.Requests.Kept.{IsAnswer}
use libusby.Win32.{SystemError}
use libusby.Win32.Io.{
  Windows, Process, io_result, sync_device_io_control, get_descriptor_with_handle,
}
use libusby.Win32.Enumeration.{Bus, find_devno}

io_result-IsAnswer : (e : SystemError) (n : ℕ) → IsAnswer (io_result e n)
io_result-IsAnswer SystemError.error_success n = tt
io_result-IsAnswer SystemError.error_busy n = tt
io_result-IsAnswer _ n = tt

module _ {ℓ} {S : Type ℓ} (head : ℕ) where
  pub find_devno-IsAmong :
      (n i : ℕ) (b : Bus S) (a : ℕ) (xs : List ℕ)
      → Chain b.store.links a xs head
      → has head xs ≡ false
      → length xs < n
      → IsAmong xs (find_devno head n i b (b.store.links.next a))
  unfolding find_devno
  find_devno-IsAmong zero i b a xs c o l = absurd (omega arith)
  find_devno-IsAmong (suc n) i b a [] c o l =
      if-intro (IsAmong []) (b.store.links.next a == head) (λ _. tt)
        (λ q. absurd (ground (arith, c.0)))
  find_devno-IsAmong (suc n) i b a (x ∷ xs) c o l =
      let rest = find_devno-IsAmong n i b x xs c.2 (ground arith) (omega arith) in
      if-intro (IsAmong (x ∷ xs)) (b.store.links.next a == head) (λ _. tt)
        (λ _.
          if-intro (IsAmong (x ∷ xs)) (b.devno (b.store.links.next a) == i)
            (λ _. ground (arith, c.0)) (λ _. rw c.0 (IsAmong-weaken x xs _ rest)))

pub get_descriptor_with_handle-IsAnswer {ℓ} :
    {S : Type ℓ} (k : Windows S) (h_file : ℕ) (creates : Allocator) (memory : List ℕ)
    (w : Process S)
    → IsAnswer (get_descriptor_with_handle k h_file creates 1 0 0 memory w).0.0
unfolding get_descriptor_with_handle sync_device_io_control
get_descriptor_with_handle-IsAnswer {S} k h_file creates memory w =
    if-intro (λ (x : (Outcome ℕ × List ℕ) × Process S). IsAnswer (x.0).0)
      (malloc creates w.handles).0 (λ _. io_result-IsAnswer _ _) (λ _. tt)

pub sanitize_device_desc-IsAnswer : (raw : List ℕ) → IsAnswer (sanitize_device_desc raw)
unfolding sanitize_device_desc
sanitize_device_desc-IsAnswer raw = if-intro IsAnswer (get_or raw 0 0 == 18) (λ _. tt) (λ _. tt)
