-- ===== src/Tests/Windows.antt =====
-- The backend of src/os/libusb0_win32.c with a driver that answers every request later, with two
-- bytes.
use libusby.Base.{
  ℕ, ◌+◌, ◌≡◌, refl, arith, true, [], ◌∷◌, Outcome, ok, replicate, Allocator, suc, length, false,
  Bool, none, inl, inr, ◌⊎◌, ◌==◌, List, ◌<◌, if◌then◌else◌,
}
use libusby.Transfer.{Transfer, World, control_transfer, fill_bulk_transfer, zero_transfer}
use libusby.Win32.{error_success, error_io_pending}
use libusby.Win32.Io.{Completion, Windows, Process, backend}
use libusby.Win32.Queue.{Queue, IsQueue, append_tran, remove_tran}
use libusby.Win32.Queue.Order.{append_tran-IsQueue, remove_tran-IsQueue}
use libusby.Win32.Reaper.{Reaper, System, submit_transfer, reap_until}
use libusby.Win32.Reaper.Rounds.{IsQuiet, Ends, reap_until-Ends}
use libusby.Win32.Reaper.Submission.{Submitted, submit_transfer-Submitted}
use libusby.Win32.Io.Control.{control_transfer-handles, control_transfer-request}
use libusby.Devices.Descriptor.{device_descriptor}
use libusby.Handles.{Driver, Store}
use libusby.Handles.Counting.{more, Counted}
use libusby.Win32.Enumeration.{Opened, Bus, driver, get_device_list}
use libusby.Win32.Enumeration.Visits.{Enumerated}
use libusby.Win32.Enumeration.Counts.{get_device_list-Listed}
use libusby.Tests.Devices.{one_node, one_node-IsRing}
use libusby.Tests.Handles.{raw, idle, always_grows}

abbrev two_bytes : Completion
two_bytes = record { dw_error = error_success; dw_transferred = 2; written = 5 ∷ 6 ∷ [] }

abbrev later : Windows ℕ
later = record {
  device_io_control = λ h_file code timeout request memory s.
      (record { dw_error = error_io_pending; dw_transferred = 0; written = [] }, s + 1);
  get_overlapped_result = λ h_file s. (two_bytes, s + 1);
}

abbrev unsupported : Transfer → Process ℕ → (Outcome ℕ × Transfer) × Process ℕ
unsupported t w = ((ok 0, t), w)

abbrev always : Allocator
always n = true

abbrev idle_world : World (Process ℕ)
idle_world = record {
  heap = record { calls = 0; live = 0 };
  system = record { handles = record { calls = 0; live = 0 }; system = 0 };
}

control_transfer-handles_example :
    (control_transfer
      (backend later 3 always 0 unsupported unsupported)
      always
      0
      0
      128
      6
      256
      0
      (replicate 4 0)
      4
      0
      idle_world).1.system.handles.live
    ≡ 0
control_transfer-handles_example =
    control_transfer-handles later 3 always 0 unsupported unsupported always 0 128 6 256 0
      (replicate 4 0) 4 0 idle_world

control_transfer-request_example :
    control_transfer
      (backend later 3 always 0 unsupported unsupported)
      always
      0
      3
      128
      6
      256
      0
      (replicate 4 0)
      4
      70
      idle_world
    ≡ (
      (ok 2, 5 ∷ 6 ∷ 0 ∷ 0 ∷ []),
      record {
        heap = record { calls = 2; live = 0 };
        system = record { handles = record { calls = 2; live = 0 }; system = 2 };
      },
    )
control_transfer-request_example =
    control_transfer-request later 3 always 0 unsupported unsupported always 3 128 6 256 0
      (replicate 4 0) 4 70 idle_world two_bytes (5 ∷ 6 ∷ 0 ∷ 0 ∷ []) 2 (λ i. refl) (λ i. refl)
      (omega arith) (omega arith) (omega arith) refl (omega arith) (omega arith)

-- A context with the lock 102 and the event 101 for changes of its list; the completion event of
-- transfer n is 200 + n and its other event 300 + n.
abbrev second_is_lock : List ℕ → Bool
second_is_lock (a ∷ b ∷ handles) = b == 102
second_is_lock handles = false

-- A wait ends with the lock, or with the first transfer, or with the target where there is none.
abbrev first_tran : List ℕ → ℕ
first_tran (a ∷ b ∷ c ∷ handles) = 2
first_tran handles = 0

abbrev one_at_a_time : System ℕ
one_at_a_time = record {
  windows = later;
  h_file = λ dev_handle. dev_handle;
  h_completion_event = λ tran. tran + 200;
  h_overlapped_event = λ tran. tran + 300;
  h_transfer_list_updated = 101;
  h_event_loop_stopped = 103;
  h_reaper_lock = 102;
  start = λ tran h_file code timeout request memory s. (error_io_pending, s + 1);
  finish = λ tran h_file s. (two_bytes, s + 1);
  cancel_io_ex = none;
  wait_for_multiple_objects =
      λ handles signalled s. (if second_is_lock handles then 1 else first_tran handles, s);
  callback = λ tran s. s;
}

one_at_a_time-IsQuiet : IsQuiet one_at_a_time
one_at_a_time-IsQuiet = record {
  answered = λ h_target handles signalled system few. waited handles;
  locked = λ h_target signalled system. inr refl;
  left_alone = λ tran s. (refl, refl);
}
  where
    waited :
        (handles : List ℕ)
        → (first_tran (0 ∷ 101 ∷ handles) ≡ 0)
          ⊎ ((1 < first_tran (0 ∷ 101 ∷ handles))
              × (first_tran (0 ∷ 101 ∷ handles) < suc (suc (length handles))))
    waited [] = inl refl
    waited (h ∷ handles) = inr (omega arith, omega arith)

abbrev no_trans : Queue
no_trans = record {
  next = λ tran. none;
  prev = λ tran. none;
  submitted = λ tran. false;
  trani_first = none;
  trani_last = none;
  tran_count = 0;
}

no_trans-IsQueue : IsQueue no_trans []
no_trans-IsQueue = record {
  linked = tt;
  distinct = tt;
  first = refl;
  last = refl;
  counted = refl;
  marked = λ tran. refl;
}

abbrev one_tran : Queue
one_tran = append_tran 5 no_trans

one_tran-IsQueue : IsQueue one_tran (5 ∷ [])
one_tran-IsQueue = append_tran-IsQueue no_trans [] 5 no_trans-IsQueue refl (omega arith)

remove_tran-IsQueue_example : IsQueue (remove_tran 5 (append_tran 6 one_tran)) (6 ∷ [])
remove_tran-IsQueue_example =
    remove_tran-IsQueue (append_tran 6 one_tran) [] (6 ∷ []) 5
      (append_tran-IsQueue one_tran (5 ∷ []) 6 one_tran-IsQueue refl (omega arith)) (omega arith)

-- A bulk transfer of two bytes from the device.
abbrev bulk_in : Transfer
bulk_in = fill_bulk_transfer zero_transfer 3 129 (0 ∷ 0 ∷ []) 2 none 0 0

abbrev submitting : Reaper ℕ
submitting = record {
  queue = one_tran;
  transfers = λ tran. bulk_in;
  signalled = λ h. false;
  handle_list = record { handles = []; capacity = 0 };
  process = idle_world.system;
}

submit_transfer-Submitted_example :
    Submitted one_at_a_time (5 ∷ []) 6 (submit_transfer one_at_a_time 6 submitting)
submit_transfer-Submitted_example =
    submit_transfer-Submitted one_at_a_time 6 (5 ∷ []) submitting one_tran-IsQueue refl
      (omega arith) (omega arith) refl

reap_until-Ends_example : Ends (5 ∷ []) (reap_until one_at_a_time 2 true 0 103 submitting)
reap_until-Ends_example =
    reap_until-Ends one_at_a_time one_at_a_time-IsQuiet 0 103 2 (5 ∷ []) submitting one_tran-IsQueue
      (omega arith) (omega arith) refl

-- Two devices that can be opened: the device 8, which is held, and a new one, which answers with its
-- descriptor.
abbrev at_once : Windows ℕ
at_once = record {
  device_io_control = λ h_file code timeout request memory s.
      (record { dw_error = error_success; dw_transferred = 18; written = raw }, s + 1);
  get_overlapped_result = λ h_file s. (two_bytes, s + 1);
}

abbrev held_store : Store (Process ℕ)
held_store = record {
  world = idle_world;
  ref_count = λ dev. 1;
  device_desc = λ dev. device_descriptor [];
  freed = λ dev. false;
  links = one_node;
}

held_store-Counted : Counted 7 held_store (more 8 idle)
held_store-Counted = record {
  nodes = 8 ∷ [];
  ring = one_node-IsRing;
  listed = λ dev. ground arith;
  kept = λ dev h. ground arith;
}

abbrev files : List Opened
files =
    record { devno = 1; h_file = 3; address = 10 }
    ∷ record { devno = 2; h_file = 4; address = 9 }
    ∷ []

abbrev windows_bus : Bus ℕ
windows_bus = record { store = held_store; devno = λ dev. 1; h_file = λ dev. 2 }

abbrev windows_driver : Driver (Process ℕ)
windows_driver = driver at_once (λ dev. 2) always 0 unsupported unsupported

get_device_list-Listed_example :
    Enumerated 7 (more 8 idle) (
      get_device_list at_once windows_driver always always none 0 always_grows 4 7 files
        windows_bus)
get_device_list-Listed_example =
    get_device_list-Listed at_once windows_driver always always none 0 always_grows 4 7
      (more 8 idle) (8 ∷ 9 ∷ 10 ∷ []) files windows_bus held_store-Counted
      (refl, refl, refl, (refl, refl, refl, tt)) (refl, (refl, tt)) (λ d h. ground arith)
      (λ d. ground arith) (omega arith) (λ i. refl)
