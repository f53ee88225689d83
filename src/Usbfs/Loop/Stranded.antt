-- ===== src/Usbfs/Loop/Stranded.antt =====
-- Threads that wait for a transfer in src/os/linux_usbfs.c while no thread runs the event loop.
use libusby.Base.{
  ℕ, ◌≡◌, refl, sym, ap, ◌∙◌, inl, inr, Bool, true, false, some, ◌==◌, ==→eq, eq→==, Bool-cases,
  arith,
}
use mathlib.Core.Path.{subst}
use libusby.Devices.Ring.{update}
use libusby.Usbfs.Loop.{
  Phase, outside, polling, awaiting, Threads, with_phase, await_tran, leave_loop, end_round,
  reap_tran, Step, run, wait, submit, wake, reap, round, resume, stop, reset, Reach, here,
  then_step,
}
use libusby.Usbfs.Loop.Exclusion.{NoPolling, AnyTime}

-- A step in which the program makes a call that can run the loop or submit a transfer.
abbrev pub IsCall : {quiet : Threads → Type 0} {s e : Threads} → Step quiet s e → Type 0
IsCall (run thread s p) = Unit
IsCall (wait thread tran s p) = Unit
IsCall (submit tran s) = Unit
IsCall (wake thread w s p) = ⊥
IsCall (reap again thread tran w s p) = ⊥
IsCall (round failed thread w s p) = ⊥
IsCall (resume thread tran s p) = ⊥
IsCall (stop s) = ⊥
IsCall (reset s q) = ⊥

-- Steps without such a call: the threads go on, and the loop is stopped and reset at any time.
pub data Idles : Threads → Threads → Type 0 where
  idle : (s : Threads) → Idles s s
  then_idle :
      (s m e : Threads) (step : Step AnyTime s m) → (IsCall step → ⊥) → Idles m e → Idles s e

-- A thread that neither polls nor waits for the loop.
abbrev pub is_off : Phase → Bool
is_off outside = true
is_off (awaiting tran) = true
is_off _ = false

record IsStranded (thread tran : ℕ) (s : Threads) : Type 0 where
  awaits : s.phase thread ≡ awaiting tran
  active : (s.active tran == 0) ≡ false
  off : (t : ℕ) → is_off (s.phase t) ≡ true

await_tran-off : (tran : ℕ) (s : Threads) → is_off (await_tran tran s) ≡ true
await_tran-off tran s = ground arith

update-off :
    (f : ℕ → Phase) (thread t : ℕ) (p : Phase)
    → is_off p ≡ true
    → ((thread == t) ≡ false → is_off (f t) ≡ true)
    → is_off (update f thread p t) ≡ true
update-off f thread t p o h = elim (Bool-cases (thread == t)) [
  | inl e ↦ rw e o
  | inr e ↦ rw e (h e)
]

abbrev tran_of : Phase → ℕ
tran_of (awaiting tran) = tran
tran_of _ = 0

resume-IsStranded :
    (u b thread tran : ℕ) (s : Threads)
    → s.phase thread ≡ awaiting tran
    → IsStranded u b s
    → IsStranded u b (with_phase s thread (await_tran tran s))
resume-IsStranded u b thread tran s p v = record {
  awaits = elim (Bool-cases (thread == u)) [
    | inl e ↦
        let same : tran ≡ b = ap tran_of (sym p ∙ ap s.phase (==→eq thread u e) ∙ v.awaits) in
        rw e (rw same (rw v.active refl))
    | inr e ↦ rw e v.awaits
  ];
  active = v.active;
  off = λ t. update-off s.phase thread t (await_tran tran s) (await_tran-off tran s) (λ _. v.off t);
}

Step-IsStranded :
    {s e : Threads} (u b : ℕ) (step : Step AnyTime s e)
    → (IsCall step → ⊥)
    → IsStranded u b s
    → IsStranded u b e
Step-IsStranded u b (run thread s p) n v = absurd (n tt)
Step-IsStranded u b (wait thread tran s p) n v = absurd (n tt)
Step-IsStranded u b (submit tran s) n v = absurd (n tt)
Step-IsStranded u b (wake thread w s p) n v = absurd (cc (v.off thread, ap is_off p))
Step-IsStranded u b (reap again thread tran w s p) n v = absurd (cc (v.off thread, ap is_off p))
Step-IsStranded u b (round failed thread w s p) n v = absurd (cc (v.off thread, ap is_off p))
Step-IsStranded u b (resume thread tran s p) n v = resume-IsStranded u b thread tran s p v
Step-IsStranded u b (stop s) n v = record { awaits = v.awaits; active = v.active; off = v.off }
Step-IsStranded u b (reset s q) n v = record { awaits = v.awaits; active = v.active; off = v.off }

Idles-IsStranded : {s e : Threads} (u b : ℕ) → Idles s e → IsStranded u b s → IsStranded u b e
Idles-IsStranded u b (idle s) v = v
Idles-IsStranded u b (then_idle s m e step n r) v =
    Idles-IsStranded u b r (Step-IsStranded u b step n v)

-- While one thread polls for its transfer, another one waits for a transfer of its own, and no third
-- thread polls or waits for the loop: once the first transfer is reaped, the loop is left unlocked,
-- and the second thread stays in its wait through all steps in which the program neither runs the
-- loop, nor waits for a transfer, nor submits one.
pub await_tran-stranded :
    (s : Threads) (t u a b : ℕ)
    → s.phase t ≡ polling (some a)
    → s.phase u ≡ awaiting b
    → (a == b) ≡ false
    → (s.active b == 0) ≡ false
    → ((x : ℕ) → (t == x) ≡ false → is_off (s.phase x) ≡ true)
    → (e : Threads) × Reach NoPolling s e
      × (e.loop_locked ≡ false)
      × ((e' : Threads) → Idles e e' → e'.phase u ≡ awaiting b)
unfolding end_round
await_tran-stranded s t u a b p q apart active others =
    let s1 = reap_tran false a s in
    let e = leave_loop t (some a) s1 in
    (
      e,
      then_step s s1 e (reap false t a (some a) s p) (
          then_step s1 e e
            (subst (λ (m : Threads). Step NoPolling s1 m) ended (round false t (some a) s1 p))
            (here e)),
      refl,
      λ e' r. (Idles-IsStranded u b r stranded).awaits,
    )
  where
    ended :
        end_round false t (some a) (reap_tran false a s)
        ≡ leave_loop t (some a) (reap_tran false a s)
    ended = rw (eq→== a a refl) refl

    other : (t == u) ≡ false
    other = elim (Bool-cases (t == u)) [
      | inl e ↦ absurd (cc (p, q, ap s.phase (==→eq t u e)))
      | inr e ↦ e
    ]

    stranded : IsStranded u b (leave_loop t (some a) (reap_tran false a s))
    stranded = record {
      awaits = rw other q;
      active = rw apart active;
      off = λ x.
          update-off s.phase t x (await_tran a (reap_tran false a s))
            (await_tran-off a (reap_tran false a s)) (others x);
    }
