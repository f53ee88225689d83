-- ===== src/Usbfs/Reap/Rounds.antt =====
-- One round of the event loop of src/os/linux_usbfs.c, over a kernel that answers the requests that
-- it has and while no other thread changes the loop.
use libusby.Base.{
  ltb, ℕ, zero, suc, ◌+◌, ◌^◌, ◌≤◌, ◌<◌, ◌≡◌, refl, sym, ap, ◌∙◌, ◌≢◌, ◌⊎◌, inl, inr, Bool, true,
  false, ==→eq, eq→==, List, [], ◌∷◌, ◌++◌, Option, none, some, ◌==◌, if-intro, Bool-cases, arith,
  length, get_elem?, All, Outcome, ok,
}
use mathlib.Core.Path.{subst}
use libusby.Devices.Ring.{update, has}
use libusby.Devices.Ring.Chain.{has-insert, length-removed}
use libusby.Usbfs.Watch.{Context, unwatch_fd}
use libusby.Usbfs.Reap.{
  Tran, Urb, Looping, Environment, store_urb, with_active, change, polled_fds, run_callback,
  reap_urb, reaped, reap_at, reap_all,
}
use libusby.Usbfs.Reap.Lasting.{Lasting, unwatch_fd-Keeps, cell_below}

module _ {ℓ} {S : Type ℓ} (k : Environment S) (pending : S → List ℕ) (bytes : S → ℕ)
    (done : S → ℕ → Bool) (tran : ℕ) (start : Tran) (answer : Urb) where
  -- What `poll` returns: a descriptor that is ready has a request that is done, the pipe is ready
  -- where bytes are in it, and one of them is ready. Nothing else changes meanwhile.
  pub record Polls (fds : List ℕ) (s : Looping S) : Type ℓ where
    pub ready : ℕ → Bool
    pub system : S
    pub returned : k.poll fds s ≡ (some ready, record s { system = system })
    pub kept : pending system ≡ pending s.system
    pub sound : (i fd : ℕ) → get_elem? fds i ≡ some fd → ready i ≡ true → done system fd ≡ true
    pub piped : bytes system ≡ bytes s.system
    pub pipe_ready : ready (length fds) ≡ ltb 0 (bytes system)
    pub one_ready :
        ((i : ℕ) × (fd : ℕ) × (get_elem? fds i ≡ some fd) × (ready i ≡ true)) ⊎ (0 < bytes system)

  -- A request that is reaped is one of those that the kernel has; that of `tran` has the answer.
  pub record Reaps (fd : ℕ) (s : Looping S) : Type ℓ where
    pub urb : Urb
    pub system : S
    pub returned : k.reap fd s ≡ (some urb, record s { system = system })
    pub front : List ℕ
    pub back : List ℕ
    pub before : pending s.system ≡ front ++ urb.usercontext ∷ back
    pub after : pending system ≡ front ++ back
    pub piped : bytes system ≡ bytes s.system
    pub answered : urb.usercontext ≡ tran → urb ≡ answer

  -- `poll` returns where the descriptor of `tran` is among those that it is given and the kernel has
  -- its request; a read takes one byte out of the pipe; a callback changes neither the transfers nor
  -- the loop, nor which requests the kernel has and how many bytes are in the pipe.
  pub record Answers : Type ℓ where
    pub polls :
        (fds : List ℕ) (s : Looping S)
        → has tran (pending s.system) ≡ true
        → has start.wrfd fds ≡ true
        → Polls fds s
    pub reaps : (fd : ℕ) (s : Looping S) → done s.system fd ≡ true → Reaps fd s
    pub idle : (fd : ℕ) (s : Looping S) → done s.system fd ≡ false → k.reap fd s ≡ (none, s)
    pub calls :
        (t : ℕ) (s : Looping S)
        → (system : S) × (k.callback t s ≡ record s { system = system })
          × (pending system ≡ pending s.system)
          × (bytes system ≡ bytes s.system)
    pub reads :
        (s : Looping S)
        → 0 < bytes s.system
        → (system : S) × (k.read_pipe s ≡ (true, record s { system = system }))
          × (pending system ≡ pending s.system)
          × (suc (bytes system) ≡ bytes s.system)

  -- The transfer is with the kernel, or it has the answer.
  abbrev pub Waits : List ℕ → Tran → Type 0
  Waits left t = (has tran left ≡ true) × (t.active ≢ 0) × (t.status ≡ start.status)

  abbrev pub HasAnswer : Tran → Type 0
  HasAnswer t =
      (t.active ≡ 0)
      × (t.actual_length ≡ (store_urb answer start).actual_length)
      × (t.status ≡ (store_urb answer start).status)

  pub record Serves (fds : List ℕ) (s : Looping S) : Type 0 where
    pub few : length (pending s.system) < 2 ^ 31
    pub lasting : All (Lasting (length (pending s.system))) s.context.watched_fds
    pub fits : s.context.watched_fd_count ≤ length s.context.watched_fds
    pub counted : s.context.watched_fd_count ≡ length fds
    pub watched : polled_fds s.context ≡ fds
    pub enabled : s.loop_enabled ≡ true
    pub kind : (s.trans tran).transfer_type ≡ start.transfer_type
    pub progress : Waits (pending s.system) (s.trans tran) ⊎ HasAnswer (s.trans tran)

  stored :
      (left : List ℕ) (t : Tran)
      → t.transfer_type ≡ start.transfer_type
      → Waits left t ⊎ HasAnswer t
      → HasAnswer (with_active 0 (store_urb answer t))
  unfolding store_urb
  stored left t e (inl (m, a, q)) = (refl, rw e refl, ground (arith, q))
  stored left t e (inr (a, l, q)) = (refl, rw e refl, ground (arith, q))

  run_callback-system :
      (a : Answers) (c : Option ℕ) (t : ℕ) (s : Looping S)
      → (system : S) × (run_callback k c t s ≡ record s { system = system })
        × (pending system ≡ pending s.system)
        × (bytes system ≡ bytes s.system)
  run_callback-system a none t s = (s.system, refl, refl, refl)
  run_callback-system a (some f) t s = a.calls t s

  -- What the answer to a request leaves of a transfer.
  abbrev settled : Urb → Tran → Tran
  settled u t = with_active 0 (with_active 2 (store_urb u t))

  abbrev Tracked : List ℕ → Tran → Type 0
  Tracked left t = (t.transfer_type ≡ start.transfer_type) × (Waits left t ⊎ HasAnswer t)

  settled-Tracked :
      (u : Urb) (left left' : List ℕ) (t : Tran)
      → u ≡ answer
      → Tracked left t
      → Tracked left' (settled u t)
  unfolding store_urb
  settled-Tracked u left left' t e (q, p) = (q, inr (rw e (stored left t q p)))

  -- The transfers after a request was answered, be it that of `tran` or another one.
  update-Tracked :
      (u : Urb) (left left' : List ℕ) (trans : ℕ → Tran)
      → (u.usercontext ≡ tran → u ≡ answer)
      → ((tran == u.usercontext) ≡ false → has tran left ≡ true → has tran left' ≡ true)
      → Tracked left (trans tran)
      → Tracked left' (
          update
            (update trans u.usercontext (with_active 2 (store_urb u (trans u.usercontext))))
            u.usercontext
            (settled u (trans u.usercontext))
            tran)
  update-Tracked u left left' trans answered others t = elim (Bool-cases (u.usercontext == tran)) [
    | inl q ↦
        let e = ==→eq u.usercontext tran q in
        rw q (
          settled-Tracked u left left' (trans u.usercontext) (answered e)
            (subst (λ (w : ℕ). Tracked left (trans w)) (sym e) t))
    | inr q ↦
        rw q
          (t.0, elim t.1 [ inl w ↦ inl (others (ground (arith, q)) w.0, w.1, w.2) | inr z ↦ inr z ])
  ]

  reap_urb_lem :
      (i : ℕ) (u : Urb) (s : Looping S) (system : S) (ctx : Context)
      → let t = u.usercontext in
        let s2 = change t (λ t. with_active 2 (store_urb u t)) s in
        run_callback k (s2.trans t).callback t s2 ≡ record s2 { system = system }
        → unwatch_fd i s.context ≡ ok ctx
        → reap_urb k i u s
          ≡ ok (record s2 {
            system = system;
            trans = update s2.trans t (settled u (s.trans t));
            context = ctx;
          })
  unfolding reap_urb
  reap_urb_lem i u s system ctx called unwatched =
      rw (called, eq→== u.usercontext u.usercontext refl) (rw unwatched refl)

  -- A round's part for one descriptor with a request that is done.
  reaped-Serves :
      (a : Answers) (fds : List ℕ) (i fd : ℕ) (s : Looping S)
      → Serves fds s
      → i < length fds
      → done s.system fd ≡ true
      → (s' : Looping S) × (reaped k i (k.reap fd s) ≡ ok s')
        × Serves fds s'
        × (suc (length (pending s'.system)) ≡ length (pending s.system))
        × (bytes s'.system ≡ bytes s.system)
        × (s'.heap ≡ s.heap)
  reaped-Serves a fds i fd s v h d =
      let r = a.reaps fd s d in
      let u = r.urb in
      let t = u.usercontext in
      let trans2 = update s.trans t (with_active 2 (store_urb u (s.trans t))) in
      let s2 : Looping S = record s { system = r.system; trans = trans2 } in
      let (system, called, kept, piped) = run_callback-system a (s2.trans t).callback t s2 in
      let left : pending system ≡ r.front ++ r.back = kept ∙ r.after in
      let shorter = length-removed t (pending s.system) r.front r.back r.before in
      let (w, cell) = cell_below s.context.watched_fds i (omega (arith, v.fits, v.counted)) in
      let (ctx, unwatched, kc) =
        unwatch_fd-Keeps (length (r.front ++ r.back)) i s.context w (omega (arith, v.few, shorter))
          (subst (λ (n : ℕ). All (Lasting n) s.context.watched_fds) (sym shorter) v.lasting) cell in
      let tracked =
        update-Tracked u (pending s.system) (pending system) s.trans r.answered
          (λ q m.
            ap (has tran) left
            ∙ ground (arith, ap (has tran) r.before, has-insert tran t r.front r.back))
          (v.kind, v.progress) in
      (
        record s2 {
          system = system;
          trans = update trans2 t (settled u (s.trans t));
          context = ctx;
        },
        ap (reaped k i) r.returned
            ∙ reap_urb_lem i u (record s { system = r.system }) system ctx called unwatched,
        record {
          few = omega (arith, v.few, shorter, ap length left);
          lasting =
              subst (λ (n : ℕ). All (Lasting n) ctx.watched_fds) (sym (ap length left)) kc.lasting;
          fits = omega (arith, kc.count, kc.size, v.fits);
          counted = kc.count ∙ v.counted;
          watched = kc.fds ∙ v.watched;
          enabled = v.enabled;
          kind = tracked.0;
          progress = tracked.1;
        },
        ap (λ (l : List ℕ). suc (length l)) left ∙ shorter,
        piped ∙ r.piped,
        refl,
      )

  -- A part of a round: the transfers go on being served, and the kernel has no more of them.
  abbrev Served : List ℕ → Looping S → ℕ → Outcome (Looping S) → Type ℓ
  Served fds s spare r =
      (s' : Looping S) × (r ≡ ok s')
      × Serves fds s'
      × (length (pending s'.system) + spare ≤ length (pending s.system))
      × (bytes s'.system ≡ bytes s.system)
      × (s'.heap ≡ s.heap)

  reap_at-Served :
      (a : Answers) (fds : List ℕ) (ready : ℕ → Bool) (i fd : ℕ) (s : Looping S)
      → Serves fds s
      → i < length fds
      → Served fds s 0 (reap_at k ready i fd s)
  reap_at-Served a fds ready i fd s v h =
      if-intro (Served fds s 0) (ready i)
        (λ _. elim (Bool-cases (done s.system fd)) [
          | inl d ↦
              let (s', e, v', fewer, piped, same) = reaped-Serves a fds i fd s v h d in
              (s', e, v', omega (arith, fewer), piped, same)
          | inr d ↦ (s, ap (reaped k i) (a.idle fd s d), v, omega arith, refl, refl)
        ])
        (λ _. (s, refl, v, omega arith, refl, refl))

  pub reap_all-Served :
      (a : Answers) (fds : List ℕ) (ready : ℕ → Bool) (i : ℕ) (rest : List ℕ) (s : Looping S)
      → Serves fds s
      → i + length rest ≤ length fds
      → Served fds s 0 (reap_all k ready i rest s)
  unfolding reap_all
  reap_all-Served a fds ready i [] s v h = (s, refl, v, omega arith, refl, refl)
  reap_all-Served a fds ready i (fd ∷ rest) s v h =
      let (s1, e, v1, fewer, piped, same) = reap_at-Served a fds ready i fd s v (omega arith) in
      let (s2, f, v2, less, piped', kept) =
        reap_all-Served a fds ready (suc i) rest s1 v1 (omega arith) in
      (s2, rw e f, v2, omega (arith, fewer, less), piped' ∙ piped, kept ∙ same)

  -- Where a descriptor is ready and none is ready in vain, one request or more is reaped.
  pub reap_all-reaps :
      (a : Answers) (fds : List ℕ) (ready : ℕ → Bool) (i : ℕ) (rest : List ℕ) (s : Looping S)
      → Serves fds s
      → i + length rest ≤ length fds
      → ((j fd : ℕ) → get_elem? rest j ≡ some fd → ready (i + j) ≡ true → done s.system fd ≡ true)
      → (j fd : ℕ) → get_elem? rest j ≡ some fd
      → ready (i + j) ≡ true
      → Served fds s 1 (reap_all k ready i rest s)
  unfolding reap_all
  reap_all-reaps a fds ready i [] s v h sound j fd e r = absurd (cc)
  reap_all-reaps a fds ready i (x ∷ rest) s v h sound j fd e r = elim (Bool-cases (ready i)) [
    | inl now ↦
        let (s1, f, v1, fewer, piped, same) =
          reaped-Serves a fds i x s v (omega arith)
            (sound 0 x refl (ap ready (omega arith) ∙ now)) in
        let (s2, g, v2, less, piped', kept) =
          reap_all-Served a fds ready (suc i) rest s1 v1 (omega arith) in
        (s2, rw (now, f) g, v2, omega (arith, fewer, less), piped' ∙ piped, kept ∙ same)
    | inr never ↦
        let (m, f, q) = later j e r never in
        let (s2, g, v2, less, piped', kept) =
          reap_all-reaps a fds ready (suc i) rest s v (omega arith)
            (λ n d at is. sound (suc n) d at (ap ready (omega arith) ∙ is)) m fd f q in
        (s2, rw never g, v2, less, piped', kept)
  ]
    where
      later :
          (j : ℕ)
          → get_elem? (x ∷ rest) j ≡ some fd
          → ready (i + j) ≡ true
          → ready i ≡ false
          → (m : ℕ) × (get_elem? rest m ≡ some fd) × (ready (suc i + m) ≡ true)
      later zero e r never = let q : i + 0 ≡ i = omega arith in absurd (cc (never, ap ready q, r))
      later (suc m) e r never = (m, e, ap ready (omega arith) ∙ r)
