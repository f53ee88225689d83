-- ===== src/Tests/Wrapper.antt =====
-- The classes of src/libusby.hpp with one device, 8, in the ring of the head 7.
use libusby.Base.{ℕ, ◌≡◌, refl, arith, List, [], ◌∷◌, some, ok, fault}
use libusby.Handles.{Store}
use libusby.Handles.Counting.{more, Counted}
use libusby.Wrapper.{
  DeviceCall, construct, destroy, copy, clear, assign, swap, ref, take_ownership, try_open,
  destroy_handles, get_device_vector,
}
use libusby.Wrapper.HandleObject.{Reopened, try_open-Reopened, destroy_handles-copy}
use libusby.Wrapper.DeviceVector.{get_device_vector-Counted}
use libusby.Tests.Handles.{
  driver, always, idle, enumerated, enumerated-Counted, one_device, one_device-IsDeviceList,
}

abbrev calls : List DeviceCall
calls =
    ref 8
    ∷ copy 0
    ∷ construct
    ∷ assign 0 1
    ∷ assign 1 1
    ∷ swap 0 2
    ∷ clear 2
    ∷ destroy 1
    ∷ take_ownership 8
    ∷ []

try_open-Reopened_example :
    Reopened 7 8 (some 8) idle (try_open driver always (some 8) 8 enumerated)
try_open-Reopened_example =
    try_open-Reopened driver 7 always (some 8) 8 enumerated idle enumerated-Counted (omega arith)
      (λ d. omega arith)

destroy_handles-copy_example : destroy_handles driver (some 8 ∷ some 8 ∷ []) enumerated ≡ fault
destroy_handles-copy_example =
    destroy_handles-copy driver 7 8 enumerated idle enumerated-Counted refl

get_device_vector-Counted_example :
    (s : Store ℕ) × (get_device_vector driver (ok one_device, enumerated) ≡ (ok (some 8 ∷ []), s))
    × Counted 7 s (more 8 idle)
get_device_vector-Counted_example =
    get_device_vector-Counted driver 7 one_device (8 ∷ []) enumerated idle one_device-IsDeviceList
      enumerated-Counted (λ d. ground arith)
