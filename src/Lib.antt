-- ===== src/Lib.antt =====
-- A verification library for libusby, a small USB library in C (src/libusby.c) with one backend for
-- Linux (src/os/linux_usbfs.c) and one for Windows (src/os/libusb0_win32.c).
--
-- Parts. The library calls a backend through the functions of src/os/os.h. It holds devices in a
-- ring for each context and hands them out in arrays; it asks an open handle for descriptors and
-- configurations, of the backend first and of the device by a control transfer where the backend
-- does not support the request; and it parses what comes back.
--   Base       numbers, lists, bytes, memory, and the return values of C functions
--   Utf8       `encode_utf8` and `libusby_get_string_descriptor_utf8` of src/libusby.c
--   Config     `usbyi_sanitize_config_descriptor` and `libusby_free_config_descriptor`
--   Devices    the ring (Ring), the array (Array) and the descriptor (Descriptor) of devices
--   Transfer   the transfer struct, `libusby_alloc_transfer` to `libusby_perform_transfer`, and
--              `libusby_bulk_transfer` and `libusby_control_transfer`, over a `Backend`, the record of
--              the functions of src/os/os.h
--   Requests   `libusby_get_descriptor`, `libusby_get_config_descriptor` and their like, and those
--              that build on them (Cached)
--   Handles    reference counts: `libusby_ref_device` to `libusby_close`, over a `Driver`, which is a
--              `Backend` for each device and what opens and closes handles; the search for a
--              product (Search), what is held at any time (Counting), and what the enumerations of
--              both backends share (Listing)
--   Context    `libusby_init` and `libusby_exit`, over the `usbyb_init` and `usbyb_exit` of Linux
--              and of Windows
--   Usbfs      src/os/linux_usbfs.c: control transfers, the descriptor cache (Cache), the watched
--              descriptors of its submissions (Watch), `usbyb_get_device_list` (Enumeration),
--              the event loop and the waits for transfers as one thread runs them (Reap), and the
--              lock of the loop, with its threads as actors (Loop)
--   Win32      src/os/libusb0_win32.c: requests to the driver, completion, the handle list, and the
--              requests that are waited for (Io); the list of submitted transfers (Queue),
--              submission, cancelling and the event loop (Reaper), and `usbyb_get_device_list`
--              with the devices that could be opened (Enumeration)
--   Wrapper    the classes `device` and `device_handle` and `context::get_device_list` of
--              src/libusby.hpp, over the reference counts of Handles
--   Tests      runs on concrete inputs
--
-- Conventions. A C function returns an `Outcome`: a number that is at least 0, an error code of
-- src/libusby.h, `fault` for a failed assert or an access outside an object, or `stuck`. State is
-- passed along and returned. Memory is a list of bytes; what malloc leaves uninitialised holds the
-- byte `junk`. An `Allocator` says which call of malloc succeeds, and a `Heap` counts the calls and
-- the live blocks. The host is little-endian.
--
-- Fuel. The loop over a configuration descriptor runs on fuel, one round for each byte and one
-- more; each round takes two bytes or more. The event loop of Windows runs on fuel, one round for
-- each wait; it waits for as long as transfers are submitted. That of Linux runs on fuel, a round
-- for each call of `poll`, which returns where a request is done or a byte is in the pipe. The
-- search in the ring runs on fuel, one step for each node and one for the head; the nodes are
-- devices whose addresses are known. The other loops are recursion on a list or on the number of
-- rounds left.
--
-- Not modelled. The kernel, the driver and the C library, which are parameters; the walk over the
-- directories below /dev/bus/usb, whose files are the input of the enumeration; threads that run at
-- the same time, but for the lock of the event loop of Linux and the waits for it; the callbacks of a
-- program, which are a parameter of the event loops; of the wrapper src/libusby.hpp the class `error`,
-- `create` and `clear` of the class `context`, the accessors and the comparisons; the renaming header
-- src/libusb.h and the declarations for the driver.
pub mod Base
pub mod Utf8
pub mod Config
pub mod Devices
pub mod Transfer
pub mod Requests
pub mod Handles
pub mod Context
pub mod Wrapper
pub mod Usbfs
pub mod Win32
pub mod Tests
