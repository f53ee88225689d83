-- ===== src/Context/Windows.antt =====
-- `usbyb_init` and `usbyb_exit` of src/os/libusb0_win32.c.
use libusby.Base.{
  ℕ, Bool, true, false, if◌then◌else◌, Outcome, ok, err, ◌>>=◌, no_mem, invalid_param, Allocator,
  malloc, free,
}
use libusby.Devices.Ring.{init_devlist_head}
use libusby.Context.{Process, with_handles, close_made, assert_no_devices}

-- The label `error`.
abbrev pub close_all : (reaper stopped updated : Bool) → Process → Outcome ℕ × Process
close_all reaper stopped updated p = (
  err no_mem,
  with_handles p (free (close_made reaper (close_made stopped (close_made updated p.handles)))),
)

abbrev pub create_updated : Allocator → Process → Outcome ℕ × Process
create_updated creates p =
    let (updated, h) = malloc creates p.handles in
    if updated then (ok 0, with_handles p h) else close_all true true false (with_handles p h)

abbrev pub create_stopped : Allocator → Process → Outcome ℕ × Process
create_stopped creates p =
    let (stopped, h) = malloc creates p.handles in
    if stopped
    then create_updated creates (with_handles p h)
    else close_all true false false (with_handles p h)

abbrev pub create_reaper : Allocator → Process → Outcome ℕ × Process
create_reaper creates p =
    let (reaper, h) = malloc creates p.handles in
    if reaper
    then create_stopped creates (with_handles p h)
    else close_all false false false (with_handles p h)

unfoldable pub init : ℕ → Allocator → Process → Outcome ℕ × Process
init head creates p =
    let p' = record p { links = init_devlist_head head p.links } in
    let (kernel32, h) = malloc creates p'.handles in
    if kernel32
    then create_reaper creates (with_handles p' h)
    else (err invalid_param, with_handles p' h)

unfoldable pub exit : ℕ → Process → Outcome Process
exit head p =
    assert_no_devices head p >>= λ p. ok (with_handles p (free (free (free (free p.handles)))))
