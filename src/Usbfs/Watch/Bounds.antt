-- ===== src/Usbfs/Watch/Bounds.antt =====
-- The watched descriptors of src/os/linux_usbfs.c: the array, and the reference counts.
use libusby.Base.{
  ℕ, zero, suc, ◌+◌, ◌-◌, ◌*◌, ◌/◌, ◌^◌, ◌≤◌, ◌<◌, ◌≡◌, refl, sym, ap, ◌∙◌, ◌⊎◌, inl, inr, if-intro,
  ==→eq, Bool-cases, true, List, [], ◌∷◌, none, some, arith, ◌==◌, if◌then◌else◌, length,
  length-append, length-replicate, length-set, get_elem?, get_elem?-set_self, set, replicate,
  Outcome, ok, ◌>>=◌,
}
use libusby.Transfer.{TransferType}
use libusby.Usbfs.Watch.{
  WatchedFd, Context, Submission, unwatch_fd, find_fd, reserve_fd, watch_fd, is_submittable,
  submit_transfer,
}

-- The array has its cells, and the count does not pass them.
pub record IsWatching (ctx : Context) : Type 0 where
  pub sized : length ctx.watched_fds ≡ ctx.watched_fd_capacity
  pub counted : ctx.watched_fd_count ≤ ctx.watched_fd_capacity
  pub reserved : (ctx.watched_fd_capacity ≡ 0) ⊎ (4 ≤ ctx.watched_fd_capacity)

abbrev Found : ℕ → ℕ → List WatchedFd → Outcome ℕ → Type 0
Found n fd fds r =
    (i : ℕ) × (r ≡ ok i)
    × ((i ≡ n) ⊎ ((w : WatchedFd) × (i < n) × (get_elem? fds i ≡ some w) × (w.fd ≡ fd)))

-- The search ends at the count, or at a cell with the descriptor in front of it.
find_fd-Found :
    (n fd : ℕ) (fds : List WatchedFd) → n ≤ length fds → Found n fd fds (find_fd n fd fds)
find_fd-Found zero fd fds h = (0, refl, inl refl)
find_fd-Found (suc n) fd [] h = absurd (omega arith)
find_fd-Found (suc n) fd (w ∷ fds) h =
    let (j, e, c) = find_fd-Found n fd fds (omega arith) in
    if-intro (Found (suc n) fd (w ∷ fds)) (w.fd == fd)
      (λ q. (0, refl, inr (w, omega arith, refl, ==→eq _ _ q)))
      (λ q. (
        suc j,
        ap (λ (r : Outcome ℕ). r >>= λ i. ok (suc i)) e,
        elim c [ inl f ↦ inl (ap suc f) | inr (v, lt, g, f) ↦ inr (v, omega arith, g, f) ],
      ))

reserve_fd-IsWatching :
    (junk : WatchedFd) (ctx : Context)
    → IsWatching ctx
    → IsWatching (reserve_fd true junk ctx)
      × ((reserve_fd true junk ctx).watched_fd_count ≡ ctx.watched_fd_count)
      × (ctx.watched_fd_count < (reserve_fd true junk ctx).watched_fd_capacity)
reserve_fd-IsWatching junk ctx v =
    if-intro P (ctx.watched_fd_count == ctx.watched_fd_capacity)
      (λ e. (
        record {
          sized = ground (
            arith,
            v.sized,
            v.reserved,
            length-append ctx.watched_fds (replicate (newcap - length ctx.watched_fds) junk),
            length-replicate (newcap - length ctx.watched_fds) junk,
          );
          counted = ground (arith, e, v.reserved);
          reserved = ground (arith, e, v.reserved);
        },
        refl,
        ground (arith, e, v.reserved),
      ))
      (λ e. (v, refl, ground (arith, e, v.counted)))
  where
    newcap : ℕ
    newcap = if ctx.watched_fd_capacity == 0 then 4 else ctx.watched_fd_capacity * 3 / 2

    P : Context → Type 0
    P c =
        IsWatching c
        × (c.watched_fd_count ≡ ctx.watched_fd_count)
        × (ctx.watched_fd_count < c.watched_fd_capacity)

-- What `add_fd` leaves behind a reserved cell.
abbrev added : ℕ → Context → Context
added fd ctx = record ctx {
  watched_fd_count = ctx.watched_fd_count + 1;
  watched_fds = set ctx.watched_fds ctx.watched_fd_count (record { fd = fd; refcount = 0 });
}

added-IsWatching :
    (fd : ℕ) (ctx : Context)
    → IsWatching ctx
    → ctx.watched_fd_count < ctx.watched_fd_capacity
    → IsWatching (added fd ctx)
added-IsWatching fd ctx v room = record {
  sized = length-set ctx.watched_fds ctx.watched_fd_count _ ∙ v.sized;
  counted = omega arith;
  reserved = v.reserved;
}

added-cell :
    (fd : ℕ) (ctx : Context)
    → IsWatching ctx
    → ctx.watched_fd_count < ctx.watched_fd_capacity
    → get_elem? (added fd ctx).watched_fds ctx.watched_fd_count
      ≡ some (record { fd = fd; refcount = 0 })
added-cell fd ctx v room =
    get_elem?-set_self ctx.watched_fds ctx.watched_fd_count _ (omega (arith, v.sized))

reserve_fd-locked :
    (junk : WatchedFd) (ctx : Context) → (reserve_fd true junk ctx).loop_locked ≡ ctx.loop_locked
reserve_fd-locked junk ctx = ground arith

watch_fd-new :
    (junk : WatchedFd) (fd : ℕ) (ctx : Context)
    → IsWatching ctx
    → watch_fd true junk fd ctx.watched_fd_count ctx ≡ ok (added fd (reserve_fd true junk ctx))
unfolding watch_fd
watch_fd-new junk fd ctx v =
    let (u, same, room) = reserve_fd-IsWatching junk ctx v in ground (arith, u.sized, same, room)

-- After a request for it, the descriptor stands in a cell of the array.
pub record Watched (fd : ℕ) (ctx ctx' : Context) : Type 0 where
  pub well : IsWatching ctx'
  pub cell : WatchedFd
  pub index : ℕ
  pub below : index < ctx'.watched_fd_count
  pub stands : get_elem? ctx'.watched_fds index ≡ some cell
  pub same : cell.fd ≡ fd
  pub locked : ctx'.loop_locked ≡ ctx.loop_locked

watch_fd-Watched :
    (junk : WatchedFd) (fd i : ℕ) (ctx : Context)
    → IsWatching ctx
    → ((i ≡ ctx.watched_fd_count)
        ⊎ ((w : WatchedFd) × (i < ctx.watched_fd_count)
            × (get_elem? ctx.watched_fds i ≡ some w)
            × (w.fd ≡ fd)))
    → (ctx' : Context) × (watch_fd true junk fd i ctx ≡ ok ctx') × Watched fd ctx ctx'
unfolding watch_fd
watch_fd-Watched junk fd i ctx v (inl e) =
    let (u, same, room) = reserve_fd-IsWatching junk ctx v in
    let r = reserve_fd true junk ctx in
    (
      added fd r,
      ap (λ (j : ℕ). watch_fd true junk fd j ctx) e ∙ watch_fd-new junk fd ctx v,
      record {
        well = added-IsWatching fd r u (omega (arith, same));
        cell = record { fd = fd; refcount = 0 };
        index = r.watched_fd_count;
        below = omega arith;
        stands = added-cell fd r u (omega (arith, same));
        same = refl;
        locked = reserve_fd-locked junk ctx;
      },
    )
watch_fd-Watched junk fd i ctx v (inr (w, lt, g, d)) = (
  ctx,
  ground arith,
  record { well = v; cell = w; index = i; below = lt; stands = g; same = d; locked = refl },
)

-- From an array in its bounds, for a transfer of a type that is supported, where memory suffices
-- and the kernel takes the request, `usbyb_submit_transfer` succeeds, keeps the array in its bounds
-- and has the descriptor of the handle watched. It marks the transfer as active only if an event
-- loop runs at that time.
pub submit_transfer-Watched :
    (junk : WatchedFd) (kind : TransferType) (wrfd active : ℕ) (ctx : Context)
    → IsWatching ctx
    → is_submittable kind ≡ true
    → (s : Submission) × (submit_transfer true junk none kind wrfd active ctx ≡ ok (none, s))
      × Watched wrfd ctx s.context
      × (s.active ≡ (if ctx.loop_locked then 1 else active))
unfolding submit_transfer
submit_transfer-Watched junk kind wrfd active ctx v k =
    let (i, e, c) =
      find_fd-Found ctx.watched_fd_count wrfd ctx.watched_fds (omega (arith, v.sized, v.counted)) in
    let (ctx', f, w) = watch_fd-Watched junk wrfd i ctx v c in
    elim (Bool-cases ctx.loop_locked) [
      | inl l ↦ (
        record { context = record ctx' { pipe = ctx'.pipe + 1 }; active = 1 },
        rw (k, e, f, w.locked, l) refl,
        record {
          well = record {
            sized = w.well.sized;
            counted = w.well.counted;
            reserved = w.well.reserved;
          };
          cell = w.cell;
          index = w.index;
          below = w.below;
          stands = w.stands;
          same = w.same;
          locked = w.locked;
        },
        rw l refl,
      )
      | inr l ↦
          (record { context = ctx'; active = active }, rw (k, e, f, w.locked, l) refl, w, rw l refl)
    ]

-- In an array in its bounds, where memory suffices, the first request of a descriptor gives it the
-- reference count 0, which `usbfs_unwatch_fd` counts down to -1: when that request is reaped, the
-- descriptor stays watched.
pub watch_fd-unwatch_fd :
    (junk : WatchedFd) (fd : ℕ) (ctx : Context)
    → IsWatching ctx
    → (ctx' : Context) × ((watch_fd true junk fd ctx.watched_fd_count ctx
          >>= unwatch_fd ctx.watched_fd_count)
        ≡ ok ctx')
      × (ctx'.watched_fd_count ≡ ctx.watched_fd_count + 1)
      × (get_elem? ctx'.watched_fds ctx.watched_fd_count
          ≡ some (record { fd = fd; refcount = 2 ^ 32 - 1 }))
unfolding unwatch_fd
watch_fd-unwatch_fd junk fd ctx v =
    let (u, same, room) = reserve_fd-IsWatching junk ctx v in
    let a = added fd (reserve_fd true junk ctx) in
    let left : WatchedFd = record { fd = fd; refcount = 2 ^ 32 - 1 } in
    (
      record a { watched_fds = set a.watched_fds ctx.watched_fd_count left },
      rw (watch_fd-new junk fd ctx v, stands junk fd ctx v) refl,
      omega (arith, same),
      get_elem?-set_self a.watched_fds ctx.watched_fd_count left (
          omega (
            arith,
            (added-IsWatching fd (reserve_fd true junk ctx) u (omega (arith, same))).sized,
          )),
    )
  where
    stands :
        (junk : WatchedFd) (fd : ℕ) (ctx : Context)
        → IsWatching ctx
        → get_elem? (added fd (reserve_fd true junk ctx)).watched_fds ctx.watched_fd_count
          ≡ some (record { fd = fd; refcount = 0 })
    stands junk fd ctx v =
        let (u, same, room) = reserve_fd-IsWatching junk ctx v in
        ap (get_elem? (added fd (reserve_fd true junk ctx)).watched_fds) (sym same)
        ∙ added-cell fd (reserve_fd true junk ctx) u (omega (arith, same))
