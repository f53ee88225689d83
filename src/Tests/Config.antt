-- ===== src/Tests/Config.antt =====
-- The configuration parser of src/libusby.c on one configuration with one interface and one
-- endpoint.
use libusby.Base.{ℕ, ◌≢◌, refl, true, List, [], ◌∷◌, none, arith, Allocator, Heap, fault}
use libusby.Config.{Parse, sanitize_config_descriptor}
use libusby.Config.Memory.{Settled, sanitize_config_descriptor-Settled}
use libusby.Config.Safety.{sanitize_config_descriptor-ne-fault}
use libusby.Config.Room.{guarded}

abbrev always : Allocator
always i = true

abbrev empty : Heap
empty = record { calls = 0; live = 0 }

abbrev one_endpoint : List ℕ
one_endpoint =
    9 ∷ 2 ∷ 25 ∷ 0 ∷ 1 ∷ 1 ∷ 0 ∷ 128 ∷ 50 ∷ 9 ∷ 4 ∷ 0 ∷ 0 ∷ 1 ∷ 255 ∷ 0 ∷ 0 ∷ 0 ∷ 7 ∷ 5 ∷ 129 ∷ 2
    ∷ 64 ∷ 0 ∷ 0 ∷ []

abbrev endpoint_bytes : List ℕ
endpoint_bytes = 7 ∷ 5 ∷ 129 ∷ 2 ∷ 64 ∷ 0 ∷ 0 ∷ []

abbrev before_interfaces : Parse
before_interfaces = record {
  header = record {
    b_length = 9;
    b_descriptor_type = 2;
    w_total_length = 16;
    b_num_interfaces = 0;
    b_configuration_value = 1;
    i_configuration = 0;
    bm_attributes = 128;
    max_power = 50;
  };
  interface = [];
  intf_desc = none;
  endp_desc_index = 0;
  heap = record { calls = 2; live = 2 };
}

sanitize_config_descriptor-Settled_example :
    Settled 0 (sanitize_config_descriptor always one_endpoint 25 empty)
sanitize_config_descriptor-Settled_example =
    sanitize_config_descriptor-Settled always one_endpoint 25 empty

sanitize_config_descriptor-ne-fault_example :
    (sanitize_config_descriptor always one_endpoint 25 empty).0 ≢ fault
unfolding guarded
sanitize_config_descriptor-ne-fault_example =
    sanitize_config_descriptor-ne-fault always one_endpoint 25 empty (ground arith) refl
