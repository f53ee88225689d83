-- ===== src/Config/Room.antt =====
-- How much room the endpoint array of the configuration parser of src/libusby.c has, by a scan of
-- the bytes and by the variables of the loop.
use libusby.Base.{
  ℕ, zero, suc, ◌+◌, ◌-◌, ◌≤◌, ◌≡◌, refl, not, ◌||◌, Bool, true, false, List, ◌∷◌, Option, none,
  some, arith, ltb, leb, ◌==◌, if◌then◌else◌, drop, get_elem?, get_or, set, replicate, length,
  length-set, length-replicate, All-get, get_elem?-append_length, length-le_of_none,
  lt_of_get_elem?, get_elem?-set_self, Allocator, Heap, malloc, realloc,
}
use libusby.Config.{
  EndpointDescriptor, InterfaceDescriptor, Interface, interface_descriptor, endpoint_descriptor,
  zero_endpoint, Parse, Flow, deref, is_null, altsetting_at, check_endpoints, add_altsetting,
  append_altsetting, on_interface, store_endpoint, on_endpoint,
}
use libusby.Config.Loop.{
  Keeps, goes, errs, crashes, if-Keeps, deref-Keeps, and_then-Keeps, Keeps-both,
}
use libusby.Config.Memory.{check_endpoints-Accounted}
use libusby.Config.Blocks.{Counted, Accounted}

-- A scan of the bytes alone: how many endpoint descriptors the last interface descriptor still has
-- room for, `none` before the first one. It fails where an endpoint descriptor finds no room, and
-- stops where the lengths make the parser return an error.
unfoldable pub guarded : ℕ → List ℕ → ℕ → Option ℕ → Bool
guarded zero raw total room = true
guarded (suc fuel) raw total room =
    let rest = guarded fuel (drop (get_or raw 0 0) raw) (total - get_or raw 0 0) in
    if total == 0 || ltb total (get_or raw 0 0) || ltb (get_or raw 0 0) 2
    then true
    else if get_or raw 1 0 == 4
    then rest (some (get_or raw 4 0))
    else if get_or raw 1 0 == 5
    then elim room [ none ↦ false | some k ↦ elim k [ zero ↦ false | suc k' ↦ rest (some k') ] ]
    else rest room

-- The room that the parser's variables stand for.
pub data Current (p : Parse) : Option ℕ → Type 0 where
  nowhere : p.intf_desc ≡ none → Current p none
  inside :
      (i j : ℕ) (x : Interface) (d : InterfaceDescriptor) (es : List EndpointDescriptor) (k : ℕ)
      → p.intf_desc ≡ some (i, j)
      → get_elem? p.interface i ≡ some x
      → get_elem? x.altsetting j ≡ some d
      → d.endpoint ≡ some es
      → length es ≡ p.endp_desc_index + k
      → Current p (some k)

-- Control goes on with this room, or to `error`, and never out of an array.
abbrev pub Runs : Option ℕ → Flow → Type 0
Runs room = Keeps (λ q. Current q room) (λ _. Unit {0}) ⊥

pub check_endpoints-Current :
    (p : Parse) (room : Option ℕ) → Current p room → Runs room (check_endpoints p)
unfolding check_endpoints
check_endpoints-Current p room (nowhere e) = rw (e, check_endpoints) (goes (nowhere e))
check_endpoints-Current p room (inside i j x d es k e ex ed ee n) =
    rw (e, check_endpoints, ex, altsetting_at, ed)
      (if-Keeps (p.endp_desc_index == d.b_num_endpoints)
        (λ _. goes (inside i j x d es k e ex ed ee n)) (λ _. errs tt))

pub append_altsetting-Current :
    (succeeds : Allocator) (raw : List ℕ) (p : Parse) (i : ℕ) (x : Interface)
    → get_elem? p.interface i ≡ some x
    → get_or raw 3 0 ≡ length x.altsetting
    → Runs (some (get_or raw 4 0)) (append_altsetting succeeds raw p i x)
unfolding append_altsetting
append_altsetting-Current succeeds raw p i x e last =
    if-Keeps moved (λ _. if-Keeps made (λ _. goes opened) (λ _. errs tt)) (λ _. errs tt)
  where
    es : List EndpointDescriptor
    es = replicate (get_or raw 4 0) zero_endpoint

    full : InterfaceDescriptor
    full = interface_descriptor raw (some es)

    heap' : Heap
    heap' = (malloc succeeds (realloc succeeds (is_null x.altsetting) p.heap).1).1

    opened :
        Current
          (record p {
            interface = set p.interface i (add_altsetting x full);
            intf_desc = some (i, get_or raw 3 0);
            endp_desc_index = 0;
            heap = heap';
          })
          (some (get_or raw 4 0))
    opened =
        inside i (get_or raw 3 0) (add_altsetting x full) full es (get_or raw 4 0) refl
          (get_elem?-set_self p.interface i _ (lt_of_get_elem? p.interface i x e))
          (rw last (get_elem?-append_length x.altsetting full))
          (unfold interface_descriptor in refl)
          (omega (arith, length-replicate (get_or raw 4 0) zero_endpoint))

    moved : Bool
    moved = (realloc succeeds (is_null x.altsetting) p.heap).0

    made : Bool
    made = (malloc succeeds (realloc succeeds (is_null x.altsetting) p.heap).1).0

pub store_endpoint-Current :
    (raw : List ℕ) (p : Parse) (k : ℕ)
    → Current p (some (suc k))
    → Runs (some k) (deref p.intf_desc (store_endpoint raw p))
unfolding store_endpoint
store_endpoint-Current raw p k (inside i j x d es k' e ex ed ee n) = rw e (
    rw ex (
      rw ed (
        rw ee (
          if-Keeps (ltb p.endp_desc_index (length es))
            (λ _. goes (
              inside i j _ _ (set es p.endp_desc_index (endpoint_descriptor raw)) k refl
                (get_elem?-set_self p.interface i _ (lt_of_get_elem? p.interface i x ex))
                (get_elem?-set_self x.altsetting j _ (lt_of_get_elem? x.altsetting j d ed)) refl
                (omega (arith, length-set es p.endp_desc_index (endpoint_descriptor raw), n))))
            (λ full. crashes (ground arith))))))

-- The descriptor that stands in front fits into the bytes left.
module _ (succeeds : Allocator) (raw : List ℕ) (p : Parse) (base : ℕ) (a : Accounted base p)
    (whole : get_or raw 0 0 ≤ length raw) (two : 2 ≤ length raw) where
  pub on_interface-Current :
      (room : Option ℕ)
      → Current p room
      → Runs (some (get_or raw 4 0)) (on_interface succeeds raw p)
  unfolding on_interface
  on_interface-Current room c =
      and_then-Keeps
        (Keeps-both (check_endpoints-Accounted base p a) (check_endpoints-Current p room c))
        λ q (b, c').
          if-Keeps (not (get_or raw 0 0 == 9)) (λ _. errs tt)
            λ nine.
              if-Keeps (ltb (length raw) 9) (λ short. crashes (ground arith))
                λ _.
                  if-Keeps (leb q.header.b_num_interfaces (get_or raw 2 0)) (λ _. errs tt)
                    λ small.
                      deref-Keeps (get_elem? q.interface (get_or raw 2 0))
                        (λ e.
                          ground (arith, length-le_of_none q.interface (get_or raw 2 0) e, b.sized))
                        λ x e.
                          if-Keeps (get_or raw 3 0 == x.num_altsetting)
                            (λ last.
                              append_altsetting-Current succeeds raw q _ x e
                                (ground (arith, All-get Counted q.interface _ x b.counted e)))
                            (λ _. errs tt)

  pub on_endpoint-Current : (k : ℕ) → Current p (some (suc k)) → Runs (some k) (on_endpoint raw p)
  unfolding on_endpoint
  on_endpoint-Current k c =
      if-Keeps (not (get_or raw 0 0 == 7)) (λ _. errs tt)
        λ seven.
          if-Keeps (ltb (length raw) 7) (λ short. crashes (ground arith))
            λ _. store_endpoint-Current raw p k c

-- What the scan says of the bytes behind a descriptor, by its type.
module _ (fuel len kind : ℕ) (rest : List ℕ) (total : ℕ) (more : (total == 0) ≡ false)
    (good : (ltb total len || ltb len 2) ≡ false) where
  abbrev pub raw : List ℕ
  raw = len ∷ kind ∷ rest

  abbrev pub behind : Option ℕ → Bool
  behind = guarded fuel (drop len raw) (total - len)

  pub guarded_four :
      (room : Option ℕ)
      → guarded (suc fuel) raw total room ≡ true
      → (kind == 4) ≡ true
      → behind (some (get_or raw 4 0)) ≡ true
  unfolding guarded
  guarded_four room g four = ground arith

  pub guarded_five :
      (room : Option ℕ)
      → guarded (suc fuel) raw total room ≡ true
      → (kind == 4) ≡ false
      → (kind == 5) ≡ true
      → (k : ℕ) × (room ≡ some (suc k)) × (behind (some k) ≡ true)
  unfolding guarded
  guarded_five none g n4 five = ground arith
  guarded_five (some zero) g n4 five = ground arith
  guarded_five (some (suc k)) g n4 five = (k, refl, ground arith)

  pub guarded_other :
      (room : Option ℕ)
      → guarded (suc fuel) raw total room ≡ true
      → (kind == 4) ≡ false
      → (kind == 5) ≡ false
      → behind room ≡ true
  unfolding guarded
  guarded_other room g n4 n5 = ground arith
