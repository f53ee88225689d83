-- ===== src/Config/Descriptors.antt =====
-- The descriptor structs of src/libusby.h, and the copies into them of src/libusby.c.
use libusby.Base.{ℕ, List, Option, get_or, word}

pub record EndpointDescriptor : Type 0 where
  pub b_length : ℕ
  pub b_descriptor_type : ℕ
  pub b_endpoint_address : ℕ
  pub bm_attributes : ℕ
  pub w_max_packet_size : ℕ
  pub b_interval : ℕ
  pub b_refresh : ℕ
  pub b_synch_address : ℕ

pub record InterfaceDescriptor : Type 0 where
  pub b_length : ℕ
  pub b_descriptor_type : ℕ
  pub b_interface_number : ℕ
  pub b_alternate_setting : ℕ
  pub b_num_endpoints : ℕ
  pub b_interface_class : ℕ
  pub b_interface_sub_class : ℕ
  pub b_interface_protocol : ℕ
  pub i_interface : ℕ
  pub endpoint : Option (List EndpointDescriptor)

pub record Interface : Type 0 where
  pub altsetting : List InterfaceDescriptor
  pub num_altsetting : ℕ

-- The nine bytes of `libusby_config_descriptor` that come from the device.
pub record ConfigHeader : Type 0 where
  pub b_length : ℕ
  pub b_descriptor_type : ℕ
  pub w_total_length : ℕ
  pub b_num_interfaces : ℕ
  pub b_configuration_value : ℕ
  pub i_configuration : ℕ
  pub bm_attributes : ℕ
  pub max_power : ℕ

pub record ConfigDescriptor : Type 0 where
  pub header : ConfigHeader
  pub interface : Option (List Interface)

-- `memcpy(res, rawdesc, 9)`, `memcpy(intf_desc, rawdesc, 9)` and the seven bytes of an endpoint
-- over a struct of zeros.
unfoldable pub config_header : List ℕ → ConfigHeader
config_header raw = record {
  b_length = get_or raw 0 0;
  b_descriptor_type = get_or raw 1 0;
  w_total_length = word (get_or raw 2 0) (get_or raw 3 0);
  b_num_interfaces = get_or raw 4 0;
  b_configuration_value = get_or raw 5 0;
  i_configuration = get_or raw 6 0;
  bm_attributes = get_or raw 7 0;
  max_power = get_or raw 8 0;
}

unfoldable pub interface_descriptor :
    List ℕ → Option (List EndpointDescriptor) → InterfaceDescriptor
interface_descriptor raw endpoint = record {
  b_length = get_or raw 0 0;
  b_descriptor_type = get_or raw 1 0;
  b_interface_number = get_or raw 2 0;
  b_alternate_setting = get_or raw 3 0;
  b_num_endpoints = get_or raw 4 0;
  b_interface_class = get_or raw 5 0;
  b_interface_sub_class = get_or raw 6 0;
  b_interface_protocol = get_or raw 7 0;
  i_interface = get_or raw 8 0;
  endpoint = endpoint;
}

unfoldable pub endpoint_descriptor : List ℕ → EndpointDescriptor
endpoint_descriptor raw = record {
  b_length = get_or raw 0 0;
  b_descriptor_type = get_or raw 1 0;
  b_endpoint_address = get_or raw 2 0;
  bm_attributes = get_or raw 3 0;
  w_max_packet_size = word (get_or raw 4 0) (get_or raw 5 0);
  b_interval = get_or raw 6 0;
  b_refresh = 0;
  b_synch_address = 0;
}

abbrev pub zero_endpoint : EndpointDescriptor
zero_endpoint = record {
  b_length = 0;
  b_descriptor_type = 0;
  b_endpoint_address = 0;
  bm_attributes = 0;
  w_max_packet_size = 0;
  b_interval = 0;
  b_refresh = 0;
  b_synch_address = 0;
}
