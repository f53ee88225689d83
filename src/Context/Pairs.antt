-- ===== src/Context/Pairs.antt =====
-- What a context holds between `libusby_init` and `libusby_exit` of src/libusby.c.
use libusby.Base.{
  ℕ, ◌≡◌, refl, arith, if-intro, ◌+◌, true, false, Outcome, ok, err, fault, stuck, Allocator, Heap,
  malloc, free,
}
use libusby.Devices.Ring.{Links, init_devlist_head}
use libusby.Context.{
  Process, with_handles, init_context, exit_context, or_free_context, assert_no_devices,
}
use libusby.Context.Windows
use libusby.Context.Linux
use libusby.Context.Linux.{make_pipe}

-- As many handles and blocks as there were.
abbrev Same : Process → Process → Type 0
Same p q = (q.handles.live ≡ p.handles.live) × (q.heap.live ≡ p.heap.live)

-- After an error all is given back; after a success `exit` gives it back.
abbrev pub Paired : (Process → Outcome Process) → Process → Outcome ℕ × Process → Type 0
Paired exit p (ok r, q) = (q' : Process) × (exit q ≡ ok q') × Same p q'
Paired exit p (err e, q) = Same p q
Paired exit p _ = ⊥

init_context-Paired :
    (init : Process → Outcome ℕ × Process) (exit : Process → Outcome Process) (succeeds : Allocator)
    (p : Process)
    → ((h : Heap) → Paired exit (record p { heap = h }) (init (record p { heap = h })))
    → Paired (exit_context exit) p (init_context init succeeds p)
unfolding init_context exit_context
init_context-Paired init exit succeeds p inner =
    if-intro (Paired (exit_context exit) p) (malloc succeeds p.heap).0 (λ m. go m)
      (λ m. (refl, ground (arith, m)))
  where
    go :
        (malloc succeeds p.heap).0 ≡ true
        → Paired
            (exit_context exit)
            p
            (or_free_context init (init (record p { heap = (malloc succeeds p.heap).1 })))
    go m =
        finish (record p { heap = (malloc succeeds p.heap).1 })
          (init (record p { heap = (malloc succeeds p.heap).1 })) (inner (malloc succeeds p.heap).1)
          refl (ground (arith, m))
      where
        finish :
            (q : Process) (r : Outcome ℕ × Process)
            → Paired exit q r
            → q.handles.live ≡ p.handles.live
            → q.heap.live ≡ p.heap.live + 1
            → Paired (exit_context exit) p (or_free_context init r)
        finish q (ok n, q1) (q', e, s) h b =
            (record q' { heap = free q'.heap }, rw e refl, (ground (arith, s), ground (arith, s)))
        finish q (err x, q1) s h b = (ground (arith, s), ground (arith, s))
        finish q (fault, q1) s h b = s
        finish q (stuck, q1) s h b = s

init-next : (head : ℕ) (h : Links) → (init_devlist_head head h).next head ≡ head
unfolding init_devlist_head
init-next head h = ground arith

assert-empty : (p : Process) (head : ℕ) → p.links.next head ≡ head → assert_no_devices head p ≡ ok p
assert-empty p head e = ground arith

exit-Windows :
    (p : Process) (head : ℕ)
    → p.links.next head ≡ head
    → Windows.exit head p ≡ ok (with_handles p (free (free (free (free p.handles)))))
unfolding Windows.exit
exit-Windows p head e = rw (assert-empty p head e) refl

exit-Linux :
    (p : Process) (head : ℕ)
    → p.links.next head ≡ head
    → Linux.exit head false p ≡ ok (with_handles p (free (free (free (free p.handles)))))
unfolding Linux.exit
exit-Linux p head e = rw (assert-empty p head e) refl

init-Windows :
    (head : ℕ) (creates : Allocator) (p : Process)
    → Paired (Windows.exit head) p (Windows.init head creates p)
unfolding Windows.init
init-Windows head creates p =
    if-intro P (malloc creates p.handles).0
      (λ kernel32.
        if-intro P (malloc creates h0).0
          (λ reaper.
            if-intro P (malloc creates h1).0
              (λ stopped.
                if-intro P (malloc creates h2).0
                  (λ updated. (
                    _,
                    exit-Windows _ head (init-next head p.links),
                    (ground (arith, kernel32, reaper, stopped, updated), refl),
                  ))
                  (λ updated. (ground (arith, kernel32, reaper, stopped, updated), refl)))
              (λ stopped. (ground (arith, kernel32, reaper, stopped), refl)))
          (λ reaper. (ground (arith, kernel32, reaper), refl)))
      (λ kernel32. (ground (arith, kernel32), refl))
  where
    P : Outcome ℕ × Process → Type 0
    P = Paired (Windows.exit head) p

    h0 : Heap
    h0 = (malloc creates p.handles).1

    h1 : Heap
    h1 = (malloc creates h0).1

    h2 : Heap
    h2 = (malloc creates h1).1

-- Where the mutex and the condition variable are made, the pipe may fail.
init-Linux :
    (head : ℕ) (creates : Allocator) (p : Process)
    → creates p.handles.calls ≡ true
    → creates (p.handles.calls + 1) ≡ true
    → Paired (Linux.exit head false) p (Linux.init head creates p)
unfolding Linux.init
init-Linux head creates p ctx_mutex ctx_cond =
    rw (ctx_mutex, ctx_cond)
      (if-intro (Paired (Linux.exit head false) p) (make_pipe creates h1).0
        (λ pipe. (_, exit-Linux _ head (init-next head p.links), (ground (arith, pipe), refl)))
        (λ pipe. (ground (arith, pipe), refl)))
  where
    h1 : Heap
    h1 = record { calls = p.handles.calls + 1 + 1; live = p.handles.live + 1 + 1 }

-- Over the backend of Windows, whichever call fails: where `libusby_init` fails, as many handles are
-- open and blocks allocated as before; where it succeeds, `libusby_exit` with no device passes its
-- assert and leaves as many as before `libusby_init`.
pub init_context-exit_context :
    (head : ℕ) (creates succeeds : Allocator) (p : Process)
    → Paired
        (exit_context (Windows.exit head))
        p
        (init_context (Windows.init head creates) succeeds p)
init_context-exit_context head creates succeeds p =
    init_context-Paired (Windows.init head creates) (Windows.exit head) succeeds p
      (λ h. init-Windows head creates (record p { heap = h }))

-- Over the backend of Linux, where pthread_mutex_init and pthread_cond_init succeed and malloc or
-- `pipe` may fail: where `libusby_init` fails, as many handles are open and blocks allocated as
-- before; where it succeeds, `libusby_exit` with no device and no array of watched descriptors
-- passes its assert and leaves as many as before `libusby_init`.
pub init_context-exit_context_linux :
    (head : ℕ) (creates succeeds : Allocator) (p : Process)
    → creates p.handles.calls ≡ true
    → creates (p.handles.calls + 1) ≡ true
    → Paired
        (exit_context (Linux.exit head false))
        p
        (init_context (Linux.init head creates) succeeds p)
init_context-exit_context_linux head creates succeeds p ctx_mutex ctx_cond =
    init_context-Paired (Linux.init head creates) (Linux.exit head false) succeeds p
      (λ h. init-Linux head creates (record p { heap = h }) ctx_mutex ctx_cond)
