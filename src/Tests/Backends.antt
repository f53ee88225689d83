-- ===== src/Tests/Backends.antt =====
-- The backends on a kernel that answers each control transfer with two bytes, and on a cache with
-- two configurations.
use libusby.Base.{
  ℕ, ◌+◌, All, word_lem, ◌%◌, ◌^◌, ◌≡◌, refl, inl, inr, true, false, List, [], ◌∷◌, ◌++◌, none,
  some, arith, drop, replicate, if◌then◌else◌, Allocator, Heap, malloc, free, Outcome, ok, err,
  no_mem, not_supported,
}
use libusby.Config.{sanitize_config_descriptor}
use libusby.Devices.Descriptor.{DeviceDescriptor, device_descriptor}
use libusby.Transfer.{Transfer, bulk, World, Backend, control_transfer}
use libusby.Transfer.Memory.{control_transfer-live}
use libusby.Usbfs.{Kernel, Usbfs, backend, build_cache, get_descriptor_cached}
use libusby.Usbfs.Control.{answer, control_transfer-answer}
use libusby.Usbfs.Cache.{
  IsConfig, concat, nth_truncated, ReadBlobs, get_descriptor_cached-concat, build_cache-ReadBlobs,
  build_cache_complete,
}
use libusby.Requests.{with_heap, get_config_descriptor, get_config_descriptor_by_value}
use libusby.Requests.Usbfs.{get_config_descriptor-blob}
use libusby.Requests.Memory.{Owned, get_config_descriptor_by_value-Owned}
use libusby.Usbfs.Watch.{WatchedFd, Context, Submission, submit_transfer}
use libusby.Usbfs.Watch.Bounds.{Watched, submit_transfer-Watched}

abbrev always : Allocator
always i = true

abbrev empty : Heap
empty = record { calls = 0; live = 0 }

-- The kernel's state counts its calls.
abbrev kernel : Kernel ℕ
kernel = record {
  pthread_cond_init = λ calls. (true, calls);
  usbdevfs_control = λ fd req memory calls. ((inr 2, 18 ∷ 1 ∷ drop 2 memory), calls + 1);
  usbdevfs_setconfiguration = λ fd config_value calls. (none, calls + 1);
  usbdevfs_claiminterface = λ fd n calls. (none, calls + 1);
  usbdevfs_releaseinterface = λ fd n calls. (none, calls + 1);
}

abbrev first_config : List ℕ
first_config = 9 ∷ 2 ∷ 9 ∷ 0 ∷ 0 ∷ 1 ∷ 0 ∷ 128 ∷ 50 ∷ []

abbrev second_config : List ℕ
second_config = 9 ∷ 2 ∷ 9 ∷ 0 ∷ 0 ∷ 2 ∷ 0 ∷ 128 ∷ 50 ∷ []

abbrev configs : List (List ℕ)
configs = first_config ∷ second_config ∷ []

abbrev two_configs : DeviceDescriptor
two_configs =
    device_descriptor (18 ∷ 1 ∷ 0 ∷ 2 ∷ 0 ∷ 0 ∷ 0 ∷ 64 ∷ 1 ∷ 2 ∷ 3 ∷ 4 ∷ 0 ∷ 1 ∷ 1 ∷ 2 ∷ 3 ∷ 2 ∷ [])

abbrev handle : Usbfs ℕ
handle = record {
  kernel = 0;
  wrfd = 5;
  active_config_value = none;
  desc_cache = first_config ++ second_config ++ [];
}

abbrev world : World (Usbfs ℕ)
world = record { heap = empty; system = handle }

abbrev unsupported : Transfer → Usbfs ℕ → (Outcome ℕ × Transfer) × Usbfs ℕ
unsupported t s = ((err not_supported, t), s)

abbrev linux : Backend (Usbfs ℕ)
linux = backend kernel unsupported unsupported

control_transfer-live_example :
    (control_transfer linux always 0 0 128 6 256 0 (replicate 2 0) 2 0 world).1.heap.live ≡ 0
control_transfer-live_example =
    control_transfer-live linux always 0 0 128 6 256 0 (replicate 2 0) 2 0 world

control_transfer-answer_example :
    control_transfer linux always 0 4 128 6 256 0 (7 ∷ 7 ∷ 7 ∷ []) 3 250 world ≡ (
      answer (inr 2, 18 ∷ 1 ∷ 0 ∷ []) (7 ∷ 7 ∷ 7 ∷ []),
      record { heap = record { calls = 2; live = 0 }; system = record handle { kernel = 1 } },
    )
control_transfer-answer_example =
    control_transfer-answer kernel unsupported unsupported always 0 4 128 6 256 0 (7 ∷ 7 ∷ 7 ∷ []) 3
      250 world (inr 2, 18 ∷ 1 ∷ 0 ∷ []) 1 (λ i. refl) refl (omega arith) (omega arith)
      (omega arith) (ground arith) refl (omega arith, refl)

configs-IsConfig : All IsConfig configs
configs-IsConfig = (
  (omega arith, word_lem 9 0 (omega arith) (omega arith)),
  ((omega arith, word_lem 9 0 (omega arith) (omega arith)), tt),
)

get_descriptor_cached-concat_example :
    get_descriptor_cached two_configs (concat configs) 2 1 0 9 ≡ nth_truncated configs 1 9
unfolding device_descriptor
get_descriptor_cached-concat_example =
    get_descriptor_cached-concat two_configs configs 1 0 9 refl configs-IsConfig

build_cache_complete_example :
    (build_cache always 2 (concat configs ++ 3 ∷ []) [] true empty).0 ≡ ok (some (concat configs))
build_cache_complete_example =
    build_cache_complete always configs (3 ∷ []) empty (λ i. refl) configs-IsConfig

build_cache-ReadBlobs_example : ReadBlobs 2 (concat configs ++ 3 ∷ []) [] (concat configs)
build_cache-ReadBlobs_example =
    build_cache-ReadBlobs always 2 (concat configs ++ 3 ∷ []) (concat configs) empty
      build_cache_complete_example

get_config_descriptor-blob_example : get_config_descriptor linux always 0 two_configs 1 world ≡ (
    let (made, h) = malloc always empty in
    let (c, h') = sanitize_config_descriptor always second_config (9 % 2 ^ 16) h in
    if made then (c, with_heap world (free h')) else (err no_mem, with_heap world h))
unfolding device_descriptor
get_config_descriptor-blob_example =
    get_config_descriptor-blob kernel unsupported unsupported always 0 two_configs configs refl
      configs-IsConfig 1 second_config world refl refl

get_config_descriptor_by_value-Owned_example : Owned 0 (
  (get_config_descriptor_by_value linux always 0 two_configs 2 world).0.0,
  (get_config_descriptor_by_value linux always 0 two_configs 2 world).1,
)
get_config_descriptor_by_value-Owned_example =
    get_config_descriptor_by_value-Owned linux always 0 two_configs 2 world

-- A context of which no descriptor is watched yet.
abbrev idle : Context
idle = record {
  loop_locked = false;
  watched_fds = [];
  watched_fd_count = 0;
  watched_fd_capacity = 0;
  pipe = 0;
}

abbrev no_fd : WatchedFd
no_fd = record { fd = 0; refcount = 0 }

submit_transfer-Watched_example :
    (s : Submission) × (submit_transfer true no_fd none bulk 5 0 idle ≡ ok (none, s))
    × Watched 5 idle s.context
    × (s.active ≡ 0)
submit_transfer-Watched_example =
    submit_transfer-Watched no_fd bulk 5 0 idle
      (record { sized = refl; counted = omega arith; reserved = inl refl }) refl
