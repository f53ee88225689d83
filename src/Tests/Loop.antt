-- ===== src/Tests/Loop.antt =====
-- The event loop of src/os/linux_usbfs.c with the threads 1, 2 and 3.
use libusby.Base.{ℕ, arith, ◌≡◌, refl, ◌==◌, if◌then◌else◌, none, some, true, false}
use libusby.Usbfs.Loop.{
  outside, polling, awaiting, Threads, with_phase, enter_loop, stop_loop, run, stop, Reach, here,
  then_step,
}
use libusby.Usbfs.Loop.Stranded.{is_off, Idles, await_tran-stranded}
use libusby.Usbfs.Loop.Exclusion.{
  is_polling, IsExclusive, NoPolling, AnyTime, Reach-IsExclusive, two_polling,
}

abbrev initial : Threads
initial = record {
  loop_enabled = true;
  loop_locked = false;
  active = λ tran. 0;
  phase = λ thread. outside;
}

initial-IsExclusive : IsExclusive initial
initial-IsExclusive = record {
  alone = λ t u h k. absurd (cc (h));
  locked = λ t e h. absurd (cc (h));
}

-- The thread 1 runs the loop, and then it is stopped.
abbrev running : Threads
running = enter_loop 1 none initial

ran : Reach NoPolling initial (stop_loop running)
ran = then_step initial running (stop_loop running) (run 1 initial refl) (
    then_step running (stop_loop running) (stop_loop running) (stop running)
      (here (stop_loop running)))

Reach-IsExclusive_example : IsExclusive (stop_loop running)
Reach-IsExclusive_example = Reach-IsExclusive initial (stop_loop running) ran initial-IsExclusive

abbrev one_polls : Threads
one_polls = with_phase initial 1 (polling none)

two_polling_example :
    (e : Threads) × Reach AnyTime one_polls e
    × (is_polling (e.phase 1) ≡ true)
    × (is_polling (e.phase 3) ≡ true)
two_polling_example = two_polling one_polls 1 2 3 refl refl refl refl

-- The thread 1 polls for the transfer 5, and the thread 2 waits for the transfer 6.
abbrev two_wait : Threads
two_wait = record {
  loop_enabled = true;
  loop_locked = true;
  active = λ tran. 1;
  phase = λ thread.
      if thread == 1 then polling (some 5) else if thread == 2 then awaiting 6 else outside;
}

others_off : (x : ℕ) → (1 == x) ≡ false → is_off (two_wait.phase x) ≡ true
others_off x n = ground arith

await_tran-stranded_example :
    (e : Threads) × Reach NoPolling two_wait e
    × (e.loop_locked ≡ false)
    × ((e' : Threads) → Idles e e' → e'.phase 2 ≡ awaiting 6)
await_tran-stranded_example = await_tran-stranded two_wait 1 2 5 6 refl refl refl refl others_off
