-- ===== src/Devices/Descriptor.antt =====
-- The device descriptor of src/libusby.h, and `usbyi_sanitize_device_desc` and
-- `libusby_get_device_descriptor_cached` of src/libusby.c. The copy of the 18 bytes into the
-- struct is that of a little-endian host.
use libusby.Base.{ℕ, List, get_or, word, ◌==◌, if◌then◌else◌, Outcome, ok, err, io}

pub record DeviceDescriptor : Type 0 where
  pub b_length : ℕ
  pub b_descriptor_type : ℕ
  pub bcd_usb : ℕ
  pub b_device_class : ℕ
  pub b_device_sub_class : ℕ
  pub b_device_protocol : ℕ
  pub b_max_packet_size0 : ℕ
  pub id_vendor : ℕ
  pub id_product : ℕ
  pub bcd_device : ℕ
  pub i_manufacturer : ℕ
  pub i_product : ℕ
  pub i_serial_number : ℕ
  pub b_num_configurations : ℕ

-- `memcpy(desc, rawdesc, sizeof(libusby_device_descriptor))`
unfoldable pub device_descriptor : List ℕ → DeviceDescriptor
device_descriptor raw = record {
  b_length = get_or raw 0 0;
  b_descriptor_type = get_or raw 1 0;
  bcd_usb = word (get_or raw 2 0) (get_or raw 3 0);
  b_device_class = get_or raw 4 0;
  b_device_sub_class = get_or raw 5 0;
  b_device_protocol = get_or raw 6 0;
  b_max_packet_size0 = get_or raw 7 0;
  id_vendor = word (get_or raw 8 0) (get_or raw 9 0);
  id_product = word (get_or raw 10 0) (get_or raw 11 0);
  bcd_device = word (get_or raw 12 0) (get_or raw 13 0);
  i_manufacturer = get_or raw 14 0;
  i_product = get_or raw 15 0;
  i_serial_number = get_or raw 16 0;
  b_num_configurations = get_or raw 17 0;
}

unfoldable pub sanitize_device_desc : List ℕ → Outcome DeviceDescriptor
sanitize_device_desc raw = if get_or raw 0 0 == 18 then ok (device_descriptor raw) else err io

unfoldable pub get_device_descriptor_cached : DeviceDescriptor → Outcome DeviceDescriptor
get_device_descriptor_cached desc = if desc.b_length == 18 then ok desc else err io
