-- ===== src/Config/Memory.antt =====
-- Memory of the configuration parser of src/libusby.c: what is allocated is in the result or freed.
use libusby.Base.{
  ℕ, ◌+◌, ◌-◌, ◌≡◌, refl, sym, ap, ◌∙◌, inl, inr, not, ◌&&◌, ◌||◌, Bool, true, false, List, [], ◌∷◌,
  Option, none, some, arith, ltb, leb, ◌==◌, if◌then◌else◌, if-intro, drop, get_elem?, get_or,
  replicate, length, length-append, length-replicate, Option-cases, All-get, All-replicate, total,
  total-nil, total-replicate, Outcome, ok, err, fault, stuck, io, Allocator, Heap, malloc, realloc,
}
use libusby.Config.{
  EndpointDescriptor, InterfaceDescriptor, Interface, ConfigDescriptor, interface_descriptor,
  zero_endpoint, Parse, Flow, is_null, altsetting_at, check_endpoints, add_altsetting,
  append_altsetting, on_interface, store_endpoint, on_endpoint, on_descriptor, all_present,
  count_some, free_config_descriptor, give_up, config_of, conclude, no_altsetting, start_parse,
  sanitize_config_descriptor,
}
use libusby.Config.Loop.{
  Keeps, goes, errs, crashes, if-Keeps, deref-Keeps, and_then-Keeps, walk-Keeps,
}
use libusby.Config.Blocks.{
  endpoint_blocks, interface_blocks, Counted, Accounted, free_config_descriptor-total,
  interface_blocks_lem, interface_blocks-add, realloc-live, Accounted-set, Accounted-altsetting,
}

module _ (base : ℕ) where
  abbrev pub Fine : Flow → Type 0
  Fine = Keeps (Accounted base) (Accounted base) Unit

  pub check_endpoints-Accounted : (p : Parse) → Accounted base p → Fine (check_endpoints p)
  unfolding check_endpoints
  check_endpoints-Accounted p a = elim (Option-cases p.intf_desc) [
    | inl e ↦ rw (e, check_endpoints) (goes a)
    | inr (at, e) ↦
        rw (e, check_endpoints)
          (deref-Keeps (altsetting_at p.interface at) (λ _. tt)
            λ d _. if-Keeps (p.endp_desc_index == d.b_num_endpoints) (λ _. goes a) (λ _. errs a))
  ]

  append_altsetting-Accounted :
      (succeeds : Allocator) (raw : List ℕ) (p : Parse) (i : ℕ) (x : Interface)
      → Accounted base p
      → get_elem? p.interface i ≡ some x
      → Fine (append_altsetting succeeds raw p i x)
  unfolding append_altsetting
  append_altsetting-Accounted succeeds raw p i x a e =
      if-Keeps moved
        (λ done.
          if-Keeps made
            (λ done'. goes (
              Accounted-set base p i x _ _ _ _ a e (added full)
                (ground (arith, live, done, done', grown full, owns (some es)))))
            (λ fails. errs (
              Accounted-set base p i x _ _ _ _ a e (added blank)
                (ground (arith, live, done, fails, grown blank, owns none)))))
        (λ fails. errs (record {
          sized = a.sized;
          counted = a.counted;
          owned = ground (arith, live, a.owned, fails);
        }))
    where
      moved : Bool
      moved = (realloc succeeds (is_null x.altsetting) p.heap).0

      made : Bool
      made = (malloc succeeds (realloc succeeds (is_null x.altsetting) p.heap).1).0

      es : List EndpointDescriptor
      es = replicate (get_or raw 4 0) zero_endpoint

      full : InterfaceDescriptor
      full = interface_descriptor raw (some es)

      blank : InterfaceDescriptor
      blank = interface_descriptor raw none

      owns :
          (o : Option (List EndpointDescriptor))
          → endpoint_blocks (interface_descriptor raw o) ≡ count_some o
      owns o = unfold interface_descriptor in refl

      grown :
          (d : InterfaceDescriptor)
          → interface_blocks (add_altsetting x d) + (if is_null x.altsetting then 0 else 1)
            ≡ 1 + interface_blocks x + endpoint_blocks d
      grown d = omega (arith, interface_blocks-add x d, interface_blocks_lem x)

      counted : Counted x
      counted = All-get Counted p.interface i x a.counted e

      added : (d : InterfaceDescriptor) → Counted (add_altsetting x d)
      added d = omega (arith, counted, length-append x.altsetting (d ∷ []))

      live :
          (realloc succeeds (is_null x.altsetting) p.heap).1.live
          ≡ p.heap.live
            + (if (realloc succeeds (is_null x.altsetting) p.heap).0 && is_null x.altsetting
                then 1
                else 0)
      live = realloc-live succeeds (is_null x.altsetting) p.heap

  store_endpoint-Accounted :
      (raw : List ℕ) (p : Parse) (at : ℕ × ℕ) → Accounted base p → Fine (store_endpoint raw p at)
  unfolding store_endpoint
  store_endpoint-Accounted raw p (i, j) a =
      deref-Keeps (get_elem? p.interface i) (λ _. tt)
        λ x e.
          deref-Keeps (get_elem? x.altsetting j) (λ _. tt)
            λ d e'.
              deref-Keeps d.endpoint (λ _. tt)
                λ es e''.
                  if-Keeps (ltb p.endp_desc_index (length es))
                    (λ room. goes (
                      Accounted-altsetting base p i j (p.endp_desc_index + 1) x d _ a e e'
                        (ap count_some (sym e''))))
                    (λ _. crashes tt)

  pub on_interface-Accounted :
      (succeeds : Allocator) (raw : List ℕ) (p : Parse)
      → Accounted base p
      → Fine (on_interface succeeds raw p)
  unfolding on_interface
  on_interface-Accounted succeeds raw p a = and_then-Keeps (check_endpoints-Accounted p a) λ q b.
      if-Keeps (not (get_or raw 0 0 == 9)) (λ _. errs b)
        λ _.
          if-Keeps (ltb (length raw) 9) (λ _. crashes tt)
            λ _.
              if-Keeps (leb q.header.b_num_interfaces (get_or raw 2 0)) (λ _. errs b)
                λ _.
                  deref-Keeps (get_elem? q.interface (get_or raw 2 0)) (λ _. tt)
                    λ x e.
                      if-Keeps (get_or raw 3 0 == x.num_altsetting)
                        (λ _. append_altsetting-Accounted succeeds raw q _ x b e) (λ _. errs b)

  pub on_endpoint-Accounted :
      (raw : List ℕ) (p : Parse) → Accounted base p → Fine (on_endpoint raw p)
  unfolding on_endpoint
  on_endpoint-Accounted raw p a =
      if-Keeps (not (get_or raw 0 0 == 7)) (λ _. errs a)
        λ _.
          if-Keeps (ltb (length raw) 7) (λ _. crashes tt)
            λ _. deref-Keeps p.intf_desc (λ _. tt) λ at e. store_endpoint-Accounted raw p at a

  pub on_descriptor-Accounted :
      (succeeds : Allocator) (raw : List ℕ) (p : Parse)
      → Accounted base p
      → Fine (on_descriptor succeeds raw p)
  unfolding on_descriptor
  on_descriptor-Accounted succeeds raw p a =
      deref-Keeps (get_elem? raw 1) (λ _. tt)
        λ kind e.
          if-Keeps (kind == 4) (λ _. on_interface-Accounted succeeds raw p a)
            λ _. if-Keeps (kind == 5) (λ _. on_endpoint-Accounted raw p a) (λ _. goes a)

-- What becomes of the memory: a result owns exactly the new blocks, which
-- `libusby_free_config_descriptor` frees; on an error there are none.
abbrev pub Settled : ℕ → Outcome ConfigDescriptor × Heap → Type 0
Settled base (ok c, h) = (n : ℕ) × (free_config_descriptor c ≡ ok n) × (h.live ≡ base + n)
Settled base (err e, h) = h.live ≡ base
Settled base (fault, h) = Unit
Settled base (stuck, h) = ⊥

give_up-Settled :
    (base : ℕ) (p : Parse) → Accounted base p → Settled base (give_up (config_of p) p.heap)
give_up-Settled base p a = settle (free_config_descriptor (config_of p)) refl
  where
    settle :
        (r : Outcome ℕ)
        → free_config_descriptor (config_of p) ≡ r
        → Settled base (elim r [
          | ok freed ↦ (err io, record (p.heap) { live = p.heap.live - freed })
          | _ ↦ (fault, p.heap)
        ])
    settle (ok n) e = ground (arith, free_config_descriptor-total base p a, a.owned)
    settle _ e = tt

pub all_present-total : (xs : List Interface) → (b : Bool) × (all_present (length xs) xs ≡ ok b)
unfolding all_present
all_present-total [] = (true, refl)
all_present-total (x ∷ xs) =
    let (b, e) = all_present-total xs in
    ((if x.num_altsetting == 0 then false else b), ground (arith, e))

conclude-Settled :
    (base : ℕ) (f : Flow) (h : Heap)
    → Keeps (Accounted base) (Accounted base) Unit f
    → Settled base (conclude f h)
unfolding conclude
conclude-Settled base f h (goes {p} a) =
    let (b, e) = all_present-total p.interface in
    rw (ap (λ (n : ℕ). all_present n p.interface) (sym a.sized) ∙ e, conclude) (present b)
  where
    present :
        (b : Bool)
        → Settled base
            (elim b [ true ↦ (ok (config_of p), p.heap) | false ↦ give_up (config_of p) p.heap ])
    present true = (
      2 + total interface_blocks p.interface,
      free_config_descriptor-total base p a,
      omega (arith, a.owned),
    )
    present false = give_up-Settled base p a
conclude-Settled base f h (errs {p} a) = give_up-Settled base p a
conclude-Settled base f h (crashes c) = tt

pub start_parse-Accounted :
    (raw : List ℕ) (base : ℕ) (h : Heap) → h.live ≡ base + 2 → Accounted base (start_parse raw h)
unfolding start_parse
start_parse-Accounted raw base h e = record {
  sized = length-replicate (get_or raw 4 0) no_altsetting;
  counted = All-replicate Counted (get_or raw 4 0) no_altsetting refl;
  owned = omega (
    arith,
    e,
    total-replicate interface_blocks (get_or raw 4 0) no_altsetting
        (omega (arith, interface_blocks_lem no_altsetting, total-nil endpoint_blocks)),
  );
}

-- Whatever the device sent and whichever allocation failed, the parser ends; where it succeeds its
-- result owns every block that it allocated and kept, so that freeing the result frees them all,
-- and where it returns an error it has freed all that it allocated.
pub sanitize_config_descriptor-Settled :
    (succeeds : Allocator) (raw : List ℕ) (total : ℕ) (h : Heap)
    → Settled h.live (sanitize_config_descriptor succeeds raw total h)
unfolding sanitize_config_descriptor
sanitize_config_descriptor-Settled succeeds raw total h =
    if-intro S (ltb total 9) (λ _. refl)
      λ _.
        if-intro S (ltb (length raw) 9) (λ _. tt)
          λ _.
            if-intro S (not (get_or raw 1 0 == 2) || not (get_or raw 0 0 == 9)) (λ _. refl)
              λ _.
                if-intro S (not first.0) (λ e. ground (arith, e))
                  λ e.
                    if-intro S (not second.0)
                      (λ e'. unfold free_config_descriptor in ground (arith, e, e'))
                      λ e'. conclude-Settled h.live _ h (
                        and_then-Keeps
                          (walk-Keeps (Accounted h.live) (Accounted h.live) succeeds (λ p a. a)
                            (on_descriptor-Accounted h.live succeeds) (total - 9 + 1) (drop 9 raw)
                            (total - 9) _ (omega arith)
                            (start_parse-Accounted raw h.live second.1 (ground (arith, e, e'))))
                          (λ q b. check_endpoints-Accounted h.live q b))
  where
    S : Outcome ConfigDescriptor × Heap → Type 0
    S = Settled h.live

    first : Bool × Heap
    first = malloc succeeds h

    second : Bool × Heap
    second = malloc succeeds first.1
