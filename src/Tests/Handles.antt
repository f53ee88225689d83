-- ===== src/Tests/Handles.antt =====
-- The references of src/libusby.c with one device, 8, in the ring of the head 7.
use libusby.Base.{
  ℕ, ◌+◌, ◌≡◌, refl, inr, true, false, List, [], ◌∷◌, Option, none, some, arith, ok, Allocator,
  ◌++◌, Bool,
}
use libusby.Devices.Array.{DeviceList, IsDeviceList}
use libusby.Devices.Descriptor.{device_descriptor, sanitize_device_desc}
use libusby.Transfer.{Backend}
use libusby.Requests.{get_descriptor}
use libusby.Handles.{Driver, Store, unref_device}
use libusby.Handles.Counting.{Held, more, Counted, unref_device-Counted}
use libusby.Handles.Search.{open_device_with_vid_pid}
use libusby.Handles.Search.Found.{open_device_with_vid_pid-Counted}
use libusby.Handles.Search.Loops.{hold, IsFound, Answers}
use libusby.Requests.Kept.{get_device_descriptor-IsAnswer}
use libusby.Usbfs.Enumeration.{Entry, Bus, get_device_list}
use libusby.Usbfs.Enumeration.Fresh.{Enumerated}
use libusby.Usbfs.Enumeration.Counts.{get_device_list-Enumerated}
use libusby.Tests.Devices.{one_node, one_node-IsRing}

-- A device that has its descriptor at hand, vendor 0x1234 and product 0x5678.
abbrev pub raw : List ℕ
raw = 18 ∷ 1 ∷ 0 ∷ 2 ∷ 0 ∷ 0 ∷ 0 ∷ 64 ∷ 52 ∷ 18 ∷ 120 ∷ 86 ∷ 0 ∷ 1 ∷ 0 ∷ 0 ∷ 0 ∷ 1 ∷ []

abbrev pub answering : Backend ℕ
answering = record {
  init_transfer = λ s. (ok 0, s);
  clear_transfer = λ s. s;
  perform_transfer = λ t s. ((ok 0, t), s);
  submit_transfer = λ t s. ((ok 0, t), s);
  wait_for_transfer = λ t s. ((ok 0, t), s);
  get_descriptor = λ desc desc_type index langid length_ s. (ok raw, s);
  get_configuration = λ cached s. (ok 1, s);
  set_configuration = λ value s. (ok 0, s);
}

abbrev pub driver : Driver ℕ
driver = record {
  handle = λ dev. answering;
  open_handle = λ dev s. (none, s + 1);
  close_handle = λ dev s. s;
  finalize = λ dev s. s;
}

abbrev pub always : Allocator
always n = true

abbrev pub idle : Held
idle dev = 0

-- The array of an enumeration holds the one reference.
abbrev pub enumerated : Store ℕ
enumerated = record {
  world = record { heap = record { calls = 2; live = 2 }; system = 0 };
  ref_count = λ dev. 1;
  device_desc = λ dev. device_descriptor [];
  freed = λ dev. false;
  links = one_node;
}

pub enumerated-Counted : Counted 7 enumerated (more 8 idle)
enumerated-Counted = record {
  nodes = 8 ∷ [];
  ring = one_node-IsRing;
  listed = λ dev. ground arith;
  kept = λ dev h. ground arith;
}

abbrev pub one_device : DeviceList
one_device = record { count = 1; capacity = 2; list = some 8 ∷ none ∷ [] }

pub one_device-IsDeviceList : IsDeviceList one_device (8 ∷ [])
one_device-IsDeviceList = record {
  counted = refl;
  sized = refl;
  ended = inr ([], omega arith, refl);
}

unref_device-Counted_example :
    (s' : Store ℕ) × (unref_device driver 8 enumerated ≡ ok s')
    × Counted 7 s' idle
    × (s'.freed 8 ≡ true)
    × (s'.device_desc ≡ enumerated.device_desc)
unref_device-Counted_example =
    unref_device-Counted driver 7 8 enumerated idle enumerated-Counted (omega arith)

answers : Answers driver always 0
unfolding get_descriptor sanitize_device_desc
answers dev desc w = get_device_descriptor-IsAnswer answering always 0 desc w tt

open_device_with_vid_pid-Counted_example :
    (h : Option ℕ) × (s' : Store ℕ) × (open_device_with_vid_pid driver always 0 4660 22136
        (ok one_device, enumerated)
      ≡ ok (h, s'))
    × Counted 7 s' (hold h idle)
    × IsFound 4660 22136 (8 ∷ []) h s'
open_device_with_vid_pid-Counted_example =
    open_device_with_vid_pid-Counted driver 7 always 0 4660 22136 idle one_device (8 ∷ [])
      enumerated one_device-IsDeviceList answers (λ d. ground arith) enumerated-Counted

-- Two files: the device 8, which is held, and a new one with one configuration of four bytes.
abbrev bus : Bus ℕ
bus = record { store = enumerated; busno = λ dev. 1; devno = λ dev. 1; desc_cache = λ dev. [] }

abbrev entries : List Entry
entries =
    record { busno = 1; devno = 1; address = 10; file = [] }
    ∷ record { busno = 1; devno = 2; address = 9; file = raw ++ 9 ∷ 2 ∷ 4 ∷ 0 ∷ [] }
    ∷ []

abbrev pub always_grows : ℕ → Bool
always_grows n = true

get_device_list-Enumerated_example :
    Enumerated 7 (more 8 idle) (get_device_list driver always none always_grows 4 7 entries bus)
get_device_list-Enumerated_example =
    get_device_list-Enumerated driver always none always_grows 4 7 (more 8 idle) (8 ∷ 9 ∷ 10 ∷ [])
      entries bus enumerated-Counted (refl, refl, refl, (refl, refl, refl, tt)) (refl, (refl, tt))
      (λ d h. ground arith) (λ d. ground arith) (omega arith) (λ i. refl)
