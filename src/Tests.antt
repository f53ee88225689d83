-- ===== src/Tests.antt =====
-- Runs of the functions of src/ on concrete inputs, one module for each part.
mod Config
mod Utf8
mod Devices
mod Backends
mod Handles
mod Context
mod Windows
mod Requests
mod Loop
mod Polling
mod Wrapper
