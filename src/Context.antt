-- ===== src/Context.antt =====
-- `libusby_init` and `libusby_exit` of src/libusby.c, and the `usbyb_init` and `usbyb_exit` of
-- src/os/linux_usbfs.c and src/os/libusb0_win32.c. What the system hands out is counted like blocks
-- of memory: modules, events, mutexes, condition variables and the two ends of a pipe. An
-- `Allocator` says which call succeeds.
pub mod Windows
pub mod Linux
pub mod Pairs
pub mod Held
use libusby.Base.{
  ℕ, ◌+◌, ◌-◌, Bool, true, false, not, Option, none, some, ◌==◌, if◌then◌else◌, Outcome, Error, ok,
  err, fault, stuck, ◌>>=◌, no_mem, invalid_param, Allocator, Heap, malloc, free,
}
use libusby.Devices.Ring.{Links, init_devlist_head}

-- A context: its ring, what its backend holds of the system, and the blocks.
pub record Process : Type 0 where
  pub links : Links
  pub handles : Heap
  pub heap : Heap

abbrev pub with_handles : Process → Heap → Process
with_handles p h = record { links = p.links; handles = h; heap = p.heap }

-- `if (h) CloseHandle(h);`
abbrev pub close_made : Bool → Heap → Heap
close_made true h = free h
close_made false h = h

-- `assert(ctx->devlist_head.next == &ctx->devlist_head);`
abbrev pub assert_no_devices : ℕ → Process → Outcome Process
assert_no_devices head p = if p.links.next head == head then ok p else fault

module _ (usbyb_init : Process → Outcome ℕ × Process) where
  abbrev pub or_free_context : Outcome ℕ × Process → Outcome ℕ × Process
  or_free_context (ok r, p) = (ok 0, p)
  or_free_context (r, p) = (r, record p { heap = free p.heap })

  unfoldable pub init_context : Allocator → Process → Outcome ℕ × Process
  init_context succeeds p =
      let (made, h) = malloc succeeds p.heap in
      if made
      then or_free_context (usbyb_init (record p { heap = h }))
      else (err no_mem, record p { heap = h })

unfoldable pub exit_context : (Process → Outcome Process) → Process → Outcome Process
exit_context usbyb_exit p = usbyb_exit p >>= λ p. ok (record p { heap = free p.heap })
