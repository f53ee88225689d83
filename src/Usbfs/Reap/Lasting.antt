-- ===== src/Usbfs/Reap/Lasting.antt =====
-- The watched descriptors of src/os/linux_usbfs.c while requests are reaped.
use libusby.Base.{
  ℕ, zero, suc, ◌^◌, ◌<◌, ◌≡◌, refl, sym, ap, ◌∙◌, ◌⊎◌, inl, inr, false, List, [], ◌∷◌, map, some,
  ◌==◌, arith, length, take, set, get_elem?, length-set, All, All-get, All-set, decrement, ok,
}
use libusby.Usbfs.Watch.{WatchedFd, Context, unwatch_fd}
use libusby.Usbfs.Reap.{polled_fds}

-- A reference count that `remaining` requests do not bring down to 0 from above.
abbrev pub Lasting : ℕ → WatchedFd → Type 0
Lasting remaining w = (w.refcount < 2 ^ 32) × ((w.refcount ≡ 0) ⊎ (remaining < w.refcount))

Lasting-decrement :
    (n : ℕ) (w : WatchedFd)
    → suc n < 2 ^ 31
    → Lasting (suc n) w
    → Lasting n (record w { refcount = decrement w.refcount })
      × ((decrement w.refcount == 0) ≡ false)
Lasting-decrement n w few (b, inl e) = (ground (arith, e), ground (arith, e))
Lasting-decrement n w few (b, inr l) = (ground arith, ground arith)

Lasting-weaken : (n : ℕ) (ws : List WatchedFd) → All (Lasting (suc n)) ws → All (Lasting n) ws
Lasting-weaken n [] a = tt
Lasting-weaken n (w ∷ ws) a =
    ((a.0.0, elim a.0.1 [ inl e ↦ inl e | inr l ↦ inr (omega arith) ]), Lasting-weaken n ws a.1)

map-take-set :
    (n i : ℕ) (ws : List WatchedFd) (w v : WatchedFd)
    → get_elem? ws i ≡ some w
    → v.fd ≡ w.fd
    → map (λ (w : WatchedFd). w.fd) (take n (set ws i v))
      ≡ map (λ (w : WatchedFd). w.fd) (take n ws)
map-take-set zero i ws w v e q = refl
map-take-set (suc n) i [] w v e q = refl
map-take-set (suc n) zero (x ∷ ws) w v e q =
    let p : x ≡ w = cc in
    ap (λ (d : ℕ). d ∷ map (λ (w : WatchedFd). w.fd) (take n ws))
      (q ∙ sym (ap (λ (w : WatchedFd). w.fd) p))
map-take-set (suc n) (suc i) (x ∷ ws) w v e q = ap (◌∷◌ x.fd) (map-take-set n i ws w v e q)

-- What a context keeps while its requests are reaped.
pub record Keeps (remaining : ℕ) (ctx ctx' : Context) : Type 0 where
  pub count : ctx'.watched_fd_count ≡ ctx.watched_fd_count
  pub size : length ctx'.watched_fds ≡ length ctx.watched_fds
  pub fds : polled_fds ctx' ≡ polled_fds ctx
  pub lasting : All (Lasting remaining) ctx'.watched_fds

pub unwatch_fd-Keeps :
    (n i : ℕ) (ctx : Context) (w : WatchedFd)
    → suc n < 2 ^ 31
    → All (Lasting (suc n)) ctx.watched_fds
    → get_elem? ctx.watched_fds i ≡ some w
    → (ctx' : Context) × (unwatch_fd i ctx ≡ ok ctx') × Keeps n ctx ctx'
unfolding unwatch_fd
unwatch_fd-Keeps n i ctx w few a e =
    let w' = record w { refcount = decrement w.refcount } in
    let (l, positive) =
      Lasting-decrement n w few (All-get (Lasting (suc n)) ctx.watched_fds i w a e) in
    (
      record ctx { watched_fds = set ctx.watched_fds i w' },
      rw e (rw positive refl),
      record {
        count = refl;
        size = length-set ctx.watched_fds i w';
        fds = map-take-set ctx.watched_fd_count i ctx.watched_fds w w' e refl;
        lasting = All-set (Lasting n) ctx.watched_fds i w' (Lasting-weaken n ctx.watched_fds a) l;
      },
    )

pub cell_below :
    (ws : List WatchedFd) (i : ℕ) → i < length ws → (w : WatchedFd) × (get_elem? ws i ≡ some w)
cell_below [] i h = elim h [ ]
cell_below (w ∷ ws) zero h = (w, refl)
cell_below (w ∷ ws) (suc i) h = cell_below ws i (omega arith)
