-- ===== src/Usbfs/Loop/Exclusion.antt =====
-- How many threads poll in the event loop of src/os/linux_usbfs.c.
use libusby.Base.{
  ℕ, ◌≡◌, refl, sym, ap, ◌∙◌, inl, inr, Bool, true, false, Option, none, some, ◌&&◌, ◌==◌, ==→eq,
  Bool-cases, if-intro, arith,
}
use libusby.Devices.Ring.{update}
use libusby.Usbfs.Loop.{
  Phase, outside, waiting, polling, Threads, with_phase, enter_loop, end_round, stop_loop,
  reset_loop, Step, is_awaited, leave_loop, after_loop, await_tran, wait_for_transfer, run, wait,
  submit, wake, reap, round, resume, stop, reset, Reach, here, then_step,
}

abbrev pub is_polling : Phase → Bool
is_polling (polling watch_tran) = true
is_polling _ = false

-- No two threads poll, and while the loop is enabled one that polls has the lock.
pub record IsExclusive (s : Threads) : Type 0 where
  pub alone : (t u : ℕ) → is_polling (s.phase t) ≡ true → is_polling (s.phase u) ≡ true → t ≡ u
  pub locked :
      (t : ℕ) → s.loop_enabled ≡ true → is_polling (s.phase t) ≡ true → s.loop_locked ≡ true

abbrev pub NoPolling : Threads → Type 0
NoPolling s = (t : ℕ) → is_polling (s.phase t) ≡ false

-- Who polls after a change of one thread's phase.
still :
    (f : ℕ → Phase) (thread t : ℕ) (p : Phase)
    → is_polling p ≡ false
    → is_polling (update f thread p t) ≡ true
    → is_polling (f t) ≡ true
still f thread t p o h = elim (Bool-cases (thread == t)) [
  | inl e ↦ absurd (cc (rw e at (h), o))
  | inr e ↦ rw e at (h)
]

only :
    (f : ℕ → Phase) (thread t : ℕ) (w : Option ℕ)
    → is_polling (f t) ≡ false
    → is_polling (update f thread (polling w) t) ≡ true
    → thread ≡ t
only f thread t w o h = elim (Bool-cases (thread == t)) [
  | inl e ↦ ==→eq thread t e
  | inr e ↦ absurd (cc (rw e at (h), o))
]

after_loop-still : (w : Option ℕ) (s : Threads) → is_polling (after_loop w s) ≡ false
after_loop-still none s = refl
after_loop-still (some tran) s = ground arith

-- A thread that does not poll takes another phase that is not polling.
moved-IsExclusive :
    (s : Threads) (thread : ℕ) (p : Phase)
    → is_polling p ≡ false
    → IsExclusive s
    → IsExclusive (with_phase s thread p)
moved-IsExclusive s thread p o v = record {
  alone = λ t u h k. v.alone t u (still s.phase thread t p o h) (still s.phase thread u p o k);
  locked = λ t e h. v.locked t e (still s.phase thread t p o h);
}

left :
    (s : Threads) (thread t : ℕ) (p : Phase)
    → IsExclusive s
    → is_polling p ≡ false
    → is_polling (s.phase thread) ≡ true
    → is_polling (update s.phase thread p t) ≡ false
left s thread t p v o h = elim (Bool-cases (thread == t)) [
  | inl e ↦ rw e o
  | inr e ↦ rw e (elim (Bool-cases (is_polling (s.phase t))) [
    | inl k ↦ absurd (ground (arith, v.alone thread t h k, e))
    | inr k ↦ k
  ])
]

leave_loop-IsExclusive :
    (s : Threads) (thread : ℕ) (w : Option ℕ)
    → IsExclusive s
    → is_polling (s.phase thread) ≡ true
    → IsExclusive (leave_loop thread w s)
leave_loop-IsExclusive s thread w v p =
    let gone = λ (t : ℕ). left s thread t (after_loop w s) v (after_loop-still w s) p in
    record { alone = λ t u h k. absurd (cc (gone t, h)); locked = λ t e h. absurd (cc (gone t, h)) }

enter_loop-IsExclusive :
    (thread : ℕ) (w : Option ℕ) (s : Threads) → IsExclusive s → IsExclusive (enter_loop thread w s)
unfolding enter_loop
enter_loop-IsExclusive thread w s v =
    if-intro IsExclusive (s.loop_enabled && s.loop_locked)
      (λ _. moved-IsExclusive s thread (waiting w) refl v)
      (λ free_.
        if-intro IsExclusive (is_awaited w s && s.loop_enabled)
          (λ e. record {
            alone = λ t u h k.
                sym (only s.phase thread t w (nobody free_ e t) h)
                ∙ only s.phase thread u w (nobody free_ e u) k;
            locked = λ t e h. refl;
          })
          (λ _. record {
            alone = λ t u h k.
                v.alone t u (still s.phase thread t (after_loop w s) (after_loop-still w s) h)
                  (still s.phase thread u (after_loop w s) (after_loop-still w s) k);
            locked = λ t e h. absurd (
                ground (
                  arith,
                  free_,
                  e,
                  v.locked t e (still s.phase thread t (after_loop w s) (after_loop-still w s) h),
                ));
          }))
  where
    nobody :
        (s.loop_enabled && s.loop_locked) ≡ false
        → (is_awaited w s && s.loop_enabled) ≡ true
        → (t : ℕ) → is_polling (s.phase t) ≡ false
    nobody free_ e t = elim (Bool-cases (is_polling (s.phase t))) [
      | inl h ↦ absurd (ground (arith, free_, e, v.locked t (ground (arith, e)) h))
      | inr h ↦ h
    ]

end_round-IsExclusive :
    (failed : Bool) (thread : ℕ) (w : Option ℕ) (s : Threads)
    → IsExclusive s
    → is_polling (s.phase thread) ≡ true
    → IsExclusive (end_round failed thread w s)
unfolding end_round
end_round-IsExclusive failed thread w s v p =
    if-intro IsExclusive failed (λ _. leave_loop-IsExclusive s thread w v p)
      (λ _.
        if-intro IsExclusive (is_awaited w s && s.loop_enabled) (λ _. v)
          (λ _. leave_loop-IsExclusive s thread w v p))

await_tran-still : (tran : ℕ) (s : Threads) → is_polling (await_tran tran s) ≡ false
await_tran-still tran s = ground arith

wait_for_transfer-IsExclusive :
    (thread tran : ℕ) (s : Threads) → IsExclusive s → IsExclusive (wait_for_transfer thread tran s)
unfolding wait_for_transfer
wait_for_transfer-IsExclusive thread tran s v =
    if-intro IsExclusive s.loop_locked
      (λ _. moved-IsExclusive s thread (await_tran tran s) (await_tran-still tran s) v)
      (λ _. enter_loop-IsExclusive thread (some tran) s v)

Step-IsExclusive : {s e : Threads} → Step NoPolling s e → IsExclusive s → IsExclusive e
Step-IsExclusive (run thread s p) v = enter_loop-IsExclusive thread none s v
Step-IsExclusive (wait thread tran s p) v = wait_for_transfer-IsExclusive thread tran s v
Step-IsExclusive (submit tran s) v = record { alone = v.alone; locked = v.locked }
Step-IsExclusive (wake thread w s p) v = enter_loop-IsExclusive thread w s v
Step-IsExclusive (reap again thread tran w s p) v = record { alone = v.alone; locked = v.locked }
Step-IsExclusive (round failed thread w s p) v =
    end_round-IsExclusive failed thread w s v (rw p refl)
Step-IsExclusive (resume thread tran s p) v =
    moved-IsExclusive s thread (await_tran tran s) (await_tran-still tran s) v
Step-IsExclusive (stop s) v = record { alone = v.alone; locked = λ t e h. absurd (cc (e)) }
Step-IsExclusive (reset s q) v = record { alone = v.alone; locked = λ t e h. absurd (cc (q t, h)) }

-- Where no two threads poll and one that polls has the lock of an enabled loop, and the loop is only
-- reset when no thread polls: however the threads run, wake up, poll and stop the loop, no two
-- threads poll.
pub Reach-IsExclusive : (s e : Threads) → Reach NoPolling s e → IsExclusive s → IsExclusive e
Reach-IsExclusive s e r v = go r v
  where
    go : {s e : Threads} → Reach NoPolling s e → IsExclusive s → IsExclusive e
    go (here s) v = v
    go (then_step s m e step r) v = go r (Step-IsExclusive step v)

-- The loop is stopped and reset at any time.
abbrev pub AnyTime : Threads → Type 0
AnyTime s = Unit {0}

-- While one thread polls, two others outside of the loop and a stop and a reset of the loop at that
-- time lead to a state where two threads poll.
pub two_polling :
    (s : Threads) (t u v : ℕ)
    → is_polling (s.phase t) ≡ true
    → s.phase u ≡ outside
    → s.phase v ≡ outside
    → (u == v) ≡ false
    → (e : Threads) × Reach AnyTime s e
      × (is_polling (e.phase t) ≡ true)
      × (is_polling (e.phase v) ≡ true)
unfolding enter_loop
two_polling s t u v p q r apart =
    let s1 = stop_loop s in
    let s2 = enter_loop u none s1 in
    let s3 = reset_loop s2 in
    let s4 = enter_loop v none s3 in
    (
      s4,
      then_step s s1 s4 (stop s) (
          then_step s1 s2 s4 (run u s1 q) (
            then_step s2 s3 s4 (reset s2 tt)
              (then_step s3 s4 s4 (run v s3 (rw apart r)) (here s4)))),
      kept,
      ground arith,
    )
  where
    kept : is_polling (update (update s.phase u outside) v (polling none) t) ≡ true
    kept = elim (Bool-cases (u == t)) [
      | inl e ↦
          absurd (cc (ap (λ (x : ℕ). is_polling (s.phase x)) (==→eq u t e), ap is_polling q, p))
      | inr e ↦ elim (Bool-cases (v == t)) [ inl f ↦ rw f refl | inr f ↦ rw (f, e) p ]
    ]
