-- ===== src/Context/Held.antt =====
-- `libusby_exit` of src/libusby.c with the references that are held.
use libusby.Base.{ℕ, ◌≡◌, ◌<◌, refl, ap, arith, ltb, Bool, List, [], ◌∷◌, ok, fault, ◌-◌, free}
use libusby.Devices.Ring.{Links, IsRing, has}
use libusby.Handles.{Store}
use libusby.Handles.Counting.{Held, Counted}
use libusby.Context.{Process, exit_context, assert_no_devices, close_made}
use libusby.Context.Windows
use libusby.Context.Linux

module _ {ℓ} {S : Type ℓ} (head : ℕ) (s : Store S) (held : Held) (c : Counted head s held)
    (p : Process) (same : p.links ≡ s.links) where
  assert_no_devices-held : (dev : ℕ) → 0 < held dev → assert_no_devices head p ≡ fault
  assert_no_devices-held dev one = go c.nodes c.ring (c.listed dev)
    where
      go :
          (nodes : List ℕ)
          → IsRing s.links head nodes
          → has dev nodes ≡ ltb 0 (held dev)
          → assert_no_devices head p ≡ fault
      go [] r l = ground arith
      go (x ∷ nodes) r l =
          ground (arith, ap (λ (l : Links). l.next head) same, r.chain.0, r.distinct.0)

  assert_no_devices-idle : ((dev : ℕ) → held dev ≡ 0) → assert_no_devices head p ≡ ok p
  assert_no_devices-idle idle = go c.nodes c.ring c.listed
    where
      go :
          (nodes : List ℕ)
          → IsRing s.links head nodes
          → ((dev : ℕ) → has dev nodes ≡ ltb 0 (held dev))
          → assert_no_devices head p ≡ ok p
      go [] r l = ground (arith, ap (λ (l : Links). l.next head) same, r.chain.0)
      go (x ∷ nodes) r l = ground (arith, l x, idle x)

  -- Where the counts are the references that are held, and there is one, `libusby_exit` fails an
  -- assert of the backend, on Linux as on Windows.
  pub exit_context-held :
      (dev : ℕ) (watched : Bool)
      → 0 < held dev
      → (exit_context (Linux.exit head watched) p ≡ fault)
        × (exit_context (Windows.exit head) p ≡ fault)
  unfolding exit_context Linux.exit Windows.exit
  exit_context-held dev watched one = rw (assert_no_devices-held dev one) (refl, refl)

  -- Where the counts are the references that are held, and there is none, `libusby_exit` passes its
  -- asserts, frees the context and the array of watched descriptors, where there is one, and gives
  -- the four handles of the context back, on Linux as on Windows.
  pub exit_context-idle :
      (watched : Bool)
      → ((dev : ℕ) → held dev ≡ 0)
      → (exit_context (Linux.exit head watched) p
          ≡ ok (record {
            links = p.links;
            handles = record { calls = p.handles.calls; live = p.handles.live - 4 };
            heap = free (close_made watched p.heap);
          }))
        × (exit_context (Windows.exit head) p
            ≡ ok (record {
              links = p.links;
              handles = record { calls = p.handles.calls; live = p.handles.live - 4 };
              heap = free p.heap;
            }))
  unfolding exit_context Linux.exit Windows.exit
  exit_context-idle watched idle = rw (assert_no_devices-idle idle) (ground arith, ground arith)
