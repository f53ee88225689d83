-- ===== src/Tests/Polling.antt =====
-- The event loop of src/os/linux_usbfs.c over a kernel that is done with every request of the
-- descriptor 7: waits for the transfers 1 and 2. The state is the requests that it has and the number
-- of bytes in the pipe.
use libusby.Base.{
  ℕ, ◌-◌, ltb, ◌≡◌, refl, inl, Bool, true, false, List, [], ◌∷◌, Option, none, some, ◌==◌,
  if◌then◌else◌, arith, length, get_elem?, ok,
}
use libusby.Transfer.{bulk, completed}
use libusby.Usbfs.Watch.Bounds.{IsWatching}
use libusby.Usbfs.Reap.{
  transfer_status, Tran, Urb, Looping, Environment, wait_for_transfer, submit_tran,
}
use libusby.Usbfs.Reap.Unwatched.{submit_tran-wait_for_transfer}

abbrev is_7 : Option ℕ → Bool
is_7 none = false
is_7 (some fd) = fd == 7

abbrev urb_of : ℕ → Urb
urb_of tran = record { usercontext = tran; status = 0; actual_length = 4 }

abbrev State : Type 0
State = List ℕ × ℕ

abbrev next_urb : List ℕ → Looping State → Option Urb × Looping State
next_urb [] s = (none, s)
next_urb (t ∷ ts) s = (some (urb_of t), record s { system = (ts, s.system.1) })

-- The descriptor 7 is ready, and the pipe behind the others where bytes are in it.
abbrev ready_of : List ℕ → ℕ → ℕ → Bool
ready_of fds n i = if i == length fds then ltb 0 n else is_7 (get_elem? fds i)

abbrev kernel : Environment State
kernel = record {
  poll = λ fds s. (some (ready_of fds s.system.1), s);
  reap = λ fd s. if fd == 7 then next_urb s.system.0 s else (none, s);
  discard = λ tran s. (none, s);
  read_pipe = λ s. (true, record s { system = (s.system.0, s.system.1 - 1) });
  callback = λ tran s. s;
  wait_for_loop = λ s. s;
  wait_for_cond = λ tran s. s;
}

abbrev pending : State → List ℕ
pending s = s.0

abbrev bytes : State → ℕ
bytes s = s.1

abbrev any_done : List ℕ → ℕ → Bool
any_done [] fd = false
any_done (t ∷ ts) fd = fd == 7

abbrev some_done : State → ℕ → Bool
some_done s fd = any_done s.0 fd

abbrev tran_1 : Tran
tran_1 = record {
  wrfd = 7;
  transfer_type = bulk;
  status = transfer_status completed;
  actual_length = 0;
  callback = none;
  active = 1;
}

abbrev watching : Looping State
watching = record {
  loop_enabled = true;
  context = record {
    loop_locked = false;
    watched_fds = record { fd = 7; refcount = 0 } ∷ [];
    watched_fd_count = 1;
    watched_fd_capacity = 1;
    pipe = 0;
  };
  trans = λ t. tran_1;
  heap = record { calls = 0; live = 5 };
  system = (2 ∷ 1 ∷ [], 1);
}

abbrev unused : Looping State
unused = record watching {
  context = record {
    loop_locked = false;
    watched_fds = [];
    watched_fd_count = 0;
    watched_fd_capacity = 0;
    pipe = 0;
  };
  trans = λ t. record tran_1 { active = 0 };
}

unused-IsWatching : IsWatching unused.context
unused-IsWatching = record { sized = refl; counted = omega arith; reserved = inl refl }

submit_tran-wait_for_transfer_example :
    (s' : Looping State) × (submit_tran true (record { fd = 0; refcount = 0 }) none 1 unused
      ≡ ok (none, s'))
    × (wait_for_transfer kernel (λ i. true) 1 1 s' ≡ (ok 0, s'))
    × (s'.trans 1 ≡ record tran_1 { active = 0 })
    × (s'.system ≡ (2 ∷ 1 ∷ [], 1))
submit_tran-wait_for_transfer_example =
    submit_tran-wait_for_transfer kernel (λ i. true) (record { fd = 0; refcount = 0 }) 0 1 unused
      unused-IsWatching refl refl refl
