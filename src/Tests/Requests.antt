-- ===== src/Tests/Requests.antt =====
-- Requests of src/libusby.c over a backend that has an answer at hand.
use libusby.Base.{ℕ, ◌≡◌, refl, List, [], ◌∷◌, take, Outcome, ok}
use libusby.Devices.Descriptor.{device_descriptor}
use libusby.Transfer.{Backend, World}
use libusby.Requests.{get_configuration, get_config_descriptor}
use libusby.Requests.Cached.{get_config_descriptor_cached, get_active_config_descriptor}
use libusby.Requests.Cached.Agreement.{
  IsActive, get_active_config_descriptor-IsActive, get_config_descriptor-cached,
}
use libusby.Tests.Handles.{answering, always, raw}

-- A configuration descriptor of the value 1 without interfaces.
abbrev config : List ℕ
config = 9 ∷ 2 ∷ 9 ∷ 0 ∷ 0 ∷ 1 ∷ 0 ∷ 128 ∷ 50 ∷ []

abbrev configured : Backend ℕ
configured = record answering {
  get_descriptor = λ desc desc_type index langid length_ s. (ok (take length_ config), s);
}

abbrev asking : World ℕ
asking = record { heap = record { calls = 0; live = 0 }; system = 0 }

get_active_config_descriptor-IsActive_example :
    IsActive
      (get_configuration configured always 0 asking).0
      (get_active_config_descriptor configured always 0 (device_descriptor raw) asking).0.0
get_active_config_descriptor-IsActive_example =
    get_active_config_descriptor-IsActive configured always 0 (device_descriptor raw) asking

abbrev cached : ℕ → ℕ → ℕ → ℕ → ℕ → Outcome (List ℕ) × ℕ
cached desc_type index langid length_ s = (ok (take length_ config), s)

get_config_descriptor-cached_example :
    get_config_descriptor configured always 0 (device_descriptor raw) 0 asking
    ≡ get_config_descriptor_cached cached always 0 0 asking
get_config_descriptor-cached_example =
    get_config_descriptor-cached configured always 0 cached (device_descriptor raw)
      (λ i length_ s. refl) (λ i length_ s. refl) 0 asking
