-- ===== src/Handles/Search/Loops.antt =====
-- The two loops of `libusby_open_device_with_vid_pid` of src/libusby.c.
use libusby.Base.{
  ℕ, suc, ◌^◌, ◌<◌, ◌≡◌, refl, inl, inr, true, List, [], ◌∷◌, ◌++◌, map, length, Option, none, some,
  arith, if-intro, Outcome, ok, err, fault, stuck, Allocator,
}
use libusby.Devices.Ring.{update, has}
use libusby.Devices.Array.{DeviceList, IsDeviceList}
use libusby.Devices.Descriptor.{DeviceDescriptor, get_device_descriptor_cached}
use libusby.Transfer.{World}
use libusby.Requests.{get_device_descriptor}
use libusby.Handles.{Driver, Store, open_device}
use libusby.Handles.Counting.{
  Held, more, more_all, Counted, Opened, open_device-Opened, close_device-Counted,
}
use libusby.Handles.Search.{
  is_product, matches, or_next, open_cached, describe, keep_match, described, open_asked,
}
use libusby.Requests.Kept.{get_device_descriptor-IsKept, IsKept, IsAnswer}

-- The reference of a handle that is returned.
abbrev pub hold : Option ℕ → Held → Held
hold none held = held
hold (some h) held = more h held

pub Counted-cong {ℓ} :
    {S : Type ℓ} (head : ℕ) (s : Store S) (held held' : Held)
    → ((d : ℕ) → held d ≡ held' d)
    → Counted head s held
    → Counted head s held'
Counted-cong head s held held' e c = record {
  nodes = c.nodes;
  ring = c.ring;
  listed = λ d. ground (arith, e d, c.listed d);
  kept = λ d h. ground (arith, e d, c.kept d);
}

pub more_all-hold :
    (h : Option ℕ) (devs : List ℕ) (held : Held) (d : ℕ)
    → hold h (more_all devs held) d ≡ more_all devs (hold h held) d
more_all-hold none devs held d = refl
more_all-hold (some h) [] held d = refl
more_all-hold (some h) (dev ∷ devs) held d = ground (arith, more_all-hold (some h) devs held d)

pub more_all-has :
    (devs : List ℕ) (held : Held) (d : ℕ) → has d devs ≡ true → 0 < more_all devs held d
more_all-has [] held d e = absurd (cc)
more_all-has (dev ∷ devs) held d e = ground (arith, more_all-has devs held d)

cached-is_product :
    (v p : ℕ) (desc : DeviceDescriptor)
    → matches v p (get_device_descriptor_cached desc) ≡ true
    → is_product v p desc ≡ true
unfolding get_device_descriptor_cached
cached-is_product v p desc e = ground arith

-- A handle is of a device of the list that is the product.
abbrev pub IsFound {ℓ} : {S : Type ℓ} → ℕ → ℕ → List ℕ → Option ℕ → Store S → Type 0
IsFound v p devs none s = Unit
IsFound v p devs (some h) s = (has h devs ≡ true) × (is_product v p (s.device_desc h) ≡ true)

pub IsFound-desc {ℓ} :
    {S : Type ℓ} (v p : ℕ) (devs : List ℕ) (h : Option ℕ) (s s' : Store S)
    → s'.device_desc ≡ s.device_desc
    → IsFound v p devs h s
    → IsFound v p devs h s'
IsFound-desc v p devs none s s' e f = tt
IsFound-desc v p devs (some h) s s' e (f, g) = (f, rw e g)

pub few-hold : (h : Option ℕ) (held : Held) (d n : ℕ) → suc (held d) < n → hold h held d < n
few-hold none held d n few = ground arith
few-hold (some h) held d n few = ground arith

-- Every request for a descriptor ends, without undefined behaviour.
abbrev pub Answers {ℓ} : {S : Type ℓ} → Driver S → Allocator → ℕ → Type ℓ
Answers drv succeeds junk =
    (dev : ℕ) (desc : DeviceDescriptor) (w : World _)
    → IsAnswer (get_device_descriptor (drv.handle dev) succeeds junk desc w).0.0

module _ {ℓ} {S : Type ℓ} (drv : Driver S) (head : ℕ) (succeeds : Allocator) (junk v p : ℕ)
    (T : Held) where
  abbrev pub Sought : List ℕ → Outcome (Option ℕ × Store S) → Type ℓ
  Sought devs x =
      (h : Option ℕ) × (s' : Store S) × (x ≡ ok (h, s'))
      × Counted head s' (hold h T)
      × IsFound v p devs h s'

  Sought-weaken :
      (dev : ℕ) (devs : List ℕ) (x : Outcome (Option ℕ × Store S))
      → Sought devs x
      → Sought (dev ∷ devs) x
  Sought-weaken dev devs x (none, s', e, c, f) = (none, s', e, c, tt)
  Sought-weaken dev devs x (some h, s', e, c, (f, g)) = (some h, s', e, c, (ground arith, g))

  or_next-Sought :
      (dev : ℕ) (devs : List ℕ) (s : Store S) (o : Outcome ℕ × Store S)
      (k : Store S → Outcome (Option ℕ × Store S))
      → is_product v p (s.device_desc dev) ≡ true
      → Opened head dev s T o
      → ((s' : Store S) → Counted head s' T → Sought devs (k s'))
      → Sought (dev ∷ devs) (or_next drv succeeds junk v p o k)
  or_next-Sought dev devs s (r, s') k m (d, inl (e, c)) rest =
      rw e (some dev, s', refl, c, (ground arith, rw d m))
  or_next-Sought dev devs s (r, s') k m (d, inr (x, e, c)) rest =
      rw e (Sought-weaken dev devs (k s') (rest s' c))

  pub open_cached-Sought :
      (devs : List ℕ) (rest : List (Option ℕ)) (s : Store S)
      → ((d : ℕ) → has d devs ≡ true → 0 < T d)
      → ((d : ℕ) → suc (T d) < 2 ^ 31)
      → Counted head s T
      → Sought devs (open_cached drv succeeds junk v p (length devs) (map some devs ++ rest) s)
  unfolding open_cached
  open_cached-Sought [] rest s held few c = (none, s, refl, c, tt)
  open_cached-Sought (dev ∷ devs) rest s held few c =
      let next = λ (s' : Store S) (c' : Counted head s' T).
        open_cached-Sought devs rest s' (λ d h. held d (ground arith)) few c' in
      if-intro (Sought (dev ∷ devs))
        (matches v p (get_device_descriptor_cached (s.device_desc dev)))
        (λ m.
          or_next-Sought dev devs s (open_device drv succeeds dev s) _
            (cached-is_product v p (s.device_desc dev) m)
            (open_device-Opened drv head succeeds dev s T c (held dev (ground arith)) (few dev))
            next)
        (λ _. Sought-weaken dev devs _ (next s c))

  keep_match-Sought :
      (dev : ℕ) (devs : List ℕ) (s : Store S) (r : Outcome DeviceDescriptor)
      (kept : DeviceDescriptor) (k : Store S → Outcome (Option ℕ × Store S))
      → IsAnswer r
      → IsKept (r, kept)
      → s.device_desc dev ≡ kept
      → Counted head s (more dev T)
      → suc (T dev) < 2 ^ 31
      → ((s' : Store S) → Counted head s' T → Sought devs (k s'))
      → Sought (dev ∷ devs) (keep_match drv succeeds junk v p dev (r, s) k)
  keep_match-Sought dev devs s (ok desc) kept k a e d c few next =
      if-intro (Sought (dev ∷ devs)) (is_product v p desc)
        (λ m. (some dev, s, refl, c, (ground arith, rw (d, e) m)))
        (λ _.
          let (s', f, c', g) = close_device-Counted drv head dev s T c few in
          rw f (Sought-weaken dev devs (k s') (next s' c')))
  keep_match-Sought dev devs s (err x) kept k a e d c few next =
      let (s', f, c', g) = close_device-Counted drv head dev s T c few in
      rw f (Sought-weaken dev devs (k s') (next s' c'))
  keep_match-Sought dev devs s fault kept k a e d c few next = absurd a
  keep_match-Sought dev devs s stuck kept k a e d c few next = absurd a

  ask-Sought :
      (dev : ℕ) (devs : List ℕ) (s : Store S) (k : Store S → Outcome (Option ℕ × Store S))
      → Answers drv succeeds junk
      → Counted head s (more dev T)
      → suc (T dev) < 2 ^ 31
      → ((s' : Store S) → Counted head s' T → Sought devs (k s'))
      → Sought
          (dev ∷ devs)
          (keep_match drv succeeds junk v p dev (describe drv succeeds junk v p dev s) k)
  ask-Sought dev devs s k answers c few next =
      let ((r, desc), w) =
        get_device_descriptor (drv.handle dev) succeeds junk (s.device_desc dev) s.world in
      let s' = record s { world = w; device_desc = update s.device_desc dev desc } in
      keep_match-Sought dev devs s' r desc k (answers dev (s.device_desc dev) s.world)
        (get_device_descriptor-IsKept (drv.handle dev) succeeds junk (s.device_desc dev) s.world)
        (ground arith) (record { nodes = c.nodes; ring = c.ring; listed = c.listed; kept = c.kept })
        few next

  described-Sought :
      (dev : ℕ) (devs : List ℕ) (s : Store S) (o : Outcome ℕ × Store S)
      (k : Store S → Outcome (Option ℕ × Store S))
      → Answers drv succeeds junk
      → Opened head dev s T o
      → suc (T dev) < 2 ^ 31
      → ((s' : Store S) → Counted head s' T → Sought devs (k s'))
      → Sought (dev ∷ devs) (described drv succeeds junk v p o k)
  described-Sought dev devs s (r, s') k answers (d, inl (e, c)) few next =
      rw e (ask-Sought dev devs s' k answers c few next)
  described-Sought dev devs s (r, s') k answers (d, inr (x, e, c)) few next =
      rw e (Sought-weaken dev devs (k s') (next s' c))

  pub open_asked-Sought :
      (devs : List ℕ) (rest : List (Option ℕ)) (s : Store S)
      → Answers drv succeeds junk
      → ((d : ℕ) → has d devs ≡ true → 0 < T d)
      → ((d : ℕ) → suc (T d) < 2 ^ 31)
      → Counted head s T
      → Sought devs (open_asked drv succeeds junk v p (length devs) (map some devs ++ rest) s)
  unfolding open_asked
  open_asked-Sought [] rest s answers held few c = (none, s, refl, c, tt)
  open_asked-Sought (dev ∷ devs) rest s answers held few c =
      described-Sought dev devs s (open_device drv succeeds dev s) _ answers
        (open_device-Opened drv head succeeds dev s T c (held dev (ground arith)) (few dev))
        (few dev)
        (λ s' c'. open_asked-Sought devs rest s' answers (λ d h. held d (ground arith)) few c')

pub cells-array :
    (l : DeviceList) (devs : List ℕ)
    → IsDeviceList l devs
    → (rest : List (Option ℕ)) × (l.list ≡ map some devs ++ rest)
cells-array l devs w = elim w.ended [
  | inl (d, n) ↦ ([], rw (d, n) refl)
  | inr (rest, _, n) ↦ (none ∷ rest, n)
]
