-- ===== src/Context/Linux.antt =====
-- `usbyb_init` and `usbyb_exit` of src/os/linux_usbfs.c. `pipe` returns a negative number where it
-- fails, and pthread_mutex_init and pthread_cond_init return an error number, which is positive.
-- `watched` says whether the array of watched descriptors is there.
use libusby.Base.{
  ℕ, ◌+◌, Bool, true, false, if◌then◌else◌, Outcome, ok, err, ◌>>=◌, no_mem, Allocator, Heap,
  malloc, free, ltb,
}
use libusby.Devices.Ring.{init_devlist_head}
use libusby.Context.{Process, with_handles, close_made, assert_no_devices}

-- A pipe has two ends.
abbrev pub make_pipe : Allocator → Heap → Bool × Heap
make_pipe creates h =
    if creates h.calls
    then (true, record { calls = h.calls + 1; live = h.live + 2 })
    else (false, record { calls = h.calls + 1; live = h.live })

abbrev pub create_pipe : Allocator → Process → Outcome ℕ × Process
create_pipe creates p =
    let (pipe, h) = make_pipe creates p.handles in
    if pipe then (ok 0, with_handles p h) else (err no_mem, with_handles p (free (free h)))

-- pthread_mutex_init and pthread_cond_init: 0, or ENOMEM and no object.
abbrev pub pthread_init : Allocator → Heap → ℕ × Heap
pthread_init creates h = let (made, h') = malloc creates h in if made then (0, h') else (12, h')

-- The test `< 0` is not true of any error number.
abbrev pub create_cond : Allocator → Process → Outcome ℕ × Process
create_cond creates p =
    let (r, h) = pthread_init creates p.handles in
    if ltb r 0
    then (err no_mem, with_handles p (free h))
    else create_pipe creates (with_handles p h)

unfoldable pub init : ℕ → Allocator → Process → Outcome ℕ × Process
init head creates p =
    let p' = record p { links = init_devlist_head head p.links } in
    let (r, h) = pthread_init creates p'.handles in
    if ltb r 0 then (err no_mem, with_handles p' h) else create_cond creates (with_handles p' h)

-- `free(ctx->watched_fds)`
abbrev pub free_watched : Bool → Process → Process
free_watched watched p = record p { heap = close_made watched p.heap }

unfoldable pub exit : ℕ → Bool → Process → Outcome Process
exit head watched p = assert_no_devices head p >>= λ p.
    ok (with_handles (free_watched watched p) (free (free (free (free p.handles)))))
