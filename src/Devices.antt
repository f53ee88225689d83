-- ===== src/Devices.antt =====
-- The device lists of src/libusby.c: the ring of all known devices of a context
-- (`usbyi_device_list_node`), and the array that an enumeration hands out (`usbyi_device_list`).
pub mod Ring
pub mod Array
pub mod Descriptor
