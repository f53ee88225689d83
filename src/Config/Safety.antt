-- ===== src/Config/Safety.antt =====
-- When the configuration parser of src/libusby.c stays inside its arrays. It tests neither that an
-- interface descriptor came before an endpoint descriptor nor that the array has room.
use libusby.Base.{
  ℕ, zero, suc, ◌+◌, ◌-◌, ◌≤◌, ◌<◌, ◌≡◌, refl, sym, ap, ◌∙◌, ◌≢◌, ◌⊎◌, inl, inr, not, ◌||◌, Bool,
  true, false, List, [], ◌∷◌, Option, none, some, arith, ltb, ◌==◌, if-intro, drop, get_or, length,
  length-drop, Bool-cases, Outcome, ok, fault, Allocator, Heap, malloc,
}
use libusby.Config.{
  ConfigDescriptor, Parse, Flow, crash, store_endpoint, on_endpoint, on_descriptor, walk, give_up,
  config_of, conclude, free_config_descriptor, all_present, start_parse, sanitize_config_descriptor,
}
use libusby.Config.Loop.{
  Keeps, goes, errs, crashes, if-Keeps, and_then-Keeps, Keeps-both, walk-Keeps, forget,
}
use libusby.Config.Memory.{
  all_present-total, check_endpoints-Accounted, on_descriptor-Accounted, start_parse-Accounted,
}
use libusby.Config.Blocks.{Accounted, free_config_descriptor-total}
use libusby.Config.Room.{
  guarded, Current, nowhere, inside, nowhere, inside, Runs, check_endpoints-Current,
  on_interface-Current, on_endpoint-Current, raw, guarded_four, guarded_five, guarded_other,
}

abbrev Ends : ℕ → Flow → Type 0
Ends base = Keeps (λ q. Accounted base q × ((room : Option ℕ) × Current q room)) (λ _. Unit {0}) ⊥

walk-Ends :
    (succeeds : Allocator) (fuel : ℕ) (raw : List ℕ) (total base : ℕ) (p : Parse) (room : Option ℕ)
    → total < fuel
    → total ≤ length raw
    → Accounted base p
    → Current p room
    → guarded fuel raw total room ≡ true
    → Ends base (walk succeeds fuel raw total p)
unfolding walk
walk-Ends succeeds zero raw total base p room h k a c g = absurd (omega arith)
walk-Ends succeeds (suc fuel) [] total base p room h k a c g =
    if-Keeps (total == 0) (λ _. goes (a, (room, c))) (λ more. ground arith)
walk-Ends succeeds (suc fuel) (len ∷ []) total base p room h k a c g =
    if-Keeps (total == 0) (λ _. goes (a, (room, c)))
      λ more. if-Keeps (ltb total len || ltb len 2) (λ _. errs tt) (λ good. ground arith)
walk-Ends succeeds (suc fuel) (len ∷ kind ∷ rest) total base p room h k a c g =
    if-Keeps (total == 0) (λ _. goes (a, (room, c)))
      λ more.
        if-Keeps (ltb total len || ltb len 2) (λ _. errs tt)
          λ good.
            let raw : List ℕ = len ∷ kind ∷ rest in
            let proceed =
              λ (room' : Option ℕ) (s : Runs room' (on_descriptor succeeds raw p))
                  (g' : guarded fuel (drop len raw) (total - len) room' ≡ true).
                and_then-Keeps {Q = λ _. Unit {0}}
                  (Keeps-both (on_descriptor-Accounted base succeeds raw p a) s)
                  λ q (b, c').
                    walk-Ends succeeds fuel (drop len raw) (total - len) base q room' (ground arith)
                      (ground (arith, length-drop len raw)) b c' g' in
            elim (Bool-cases (kind == 4)) [
              | inl four ↦
                  proceed (some (get_or raw 4 0))
                    (unfold on_descriptor in
                      rw four (
                        on_interface-Current succeeds raw p base a (ground arith) (omega arith) room
                          c))
                    (guarded_four fuel len kind rest total more good room g four)
              | inr n4 ↦ elim (Bool-cases (kind == 5)) [
                | inl five ↦
                    let (k', e, g') =
                      guarded_five fuel len kind rest total more good room g n4 five in
                    proceed (some k')
                      (unfold on_descriptor in
                        rw (n4, five)
                          (on_endpoint-Current succeeds raw p base a (ground arith) (omega arith) k'
                            (rw e at c)))
                      g'
                | inr n5 ↦
                    proceed room (unfold on_descriptor in rw (n4, n5) (goes c))
                      (guarded_other fuel len kind rest total more good room g n4 n5)
              ]
            ]

give_up-ne-fault :
    (base : ℕ) (p : Parse) → Accounted base p → (give_up (config_of p) p.heap).0 ≢ fault
give_up-ne-fault base p a = rw (free_config_descriptor-total base p a, give_up) (λ e. cc)

conclude-ne-fault :
    (base : ℕ) (f : Flow) (h : Heap)
    → Keeps (Accounted base) (Accounted base) Unit f
    → Keeps (λ _. Unit {0}) (λ _. Unit {0}) ⊥ f
    → (conclude f h).0 ≢ fault
unfolding conclude
conclude-ne-fault base f h (goes {p} a) r =
    let (b, e) = all_present-total p.interface in
    rw (ap (λ (n : ℕ). all_present n p.interface) (sym a.sized) ∙ e, conclude) (left b)
  where
    left :
        (b : Bool)
        → (elim b as (λ x. Outcome ConfigDescriptor × Heap) [
          | true ↦ (ok (config_of p), p.heap)
          | false ↦ give_up (config_of p) p.heap
        ]).0
          ≢ fault
    left true = λ x. cc
    left false = give_up-ne-fault base p a
conclude-ne-fault base f h (errs {p} a) r = give_up-ne-fault base p a
conclude-ne-fault base f h (crashes c) (crashes r) = absurd r

-- An endpoint descriptor with no interface descriptor before it, or with the array of the current
-- alternate setting full, takes the parser out of its arrays.
pub on_endpoint-crash :
    (raw : List ℕ) (p : Parse)
    → (Current p none) ⊎ (Current p (some 0))
    → get_or raw 0 0 ≡ 7
    → on_endpoint raw p ≡ crash
unfolding on_endpoint store_endpoint
on_endpoint-crash raw p (inl (nowhere e)) seven = ground arith
on_endpoint-crash raw p (inr (inside i j x d es k e ex ed ee n)) seven =
    rw e (rw ex (rw ed (rw ee (ground arith))))

-- Bytes that pass the scan, as many as the length says: the parser does not leave its arrays.
pub sanitize_config_descriptor-ne-fault :
    (succeeds : Allocator) (raw : List ℕ) (total : ℕ) (h : Heap)
    → total ≤ length raw
    → guarded (total - 9 + 1) (drop 9 raw) (total - 9) none ≡ true
    → (sanitize_config_descriptor succeeds raw total h).0 ≢ fault
unfolding sanitize_config_descriptor
sanitize_config_descriptor-ne-fault succeeds raw total h k g =
    if-intro S (ltb total 9) (λ _ e. cc)
      λ long.
        if-intro S (ltb (length raw) 9) (λ short. ground arith)
          λ _.
            if-intro S (not (get_or raw 1 0 == 2) || not (get_or raw 0 0 == 9)) (λ _ e. cc)
              λ _.
                if-intro S (not first.0) (λ _ e. cc)
                  λ e.
                    if-intro S (not second.0) (λ _. unfold free_config_descriptor in λ e. cc)
                      λ e'.
                        let begun : Accounted h.live (start_parse raw second.1) =
                          start_parse-Accounted raw h.live second.1 (ground (arith, e, e')) in
                        conclude-ne-fault h.live _ h
                          (and_then-Keeps
                            (walk-Keeps (Accounted h.live) (Accounted h.live) succeeds (λ p a. a)
                              (on_descriptor-Accounted h.live succeeds) (total - 9 + 1) (drop 9 raw)
                              (total - 9) _ (omega arith) begun)
                            (λ q b. check_endpoints-Accounted h.live q b))
                          (and_then-Keeps
                            (walk-Ends succeeds (total - 9 + 1) (drop 9 raw) (total - 9) h.live _
                              none (omega arith) (omega (arith, length-drop 9 raw)) begun
                              (nowhere (unfold start_parse in refl)) g)
                            (λ q (b, (room, c)). forget (check_endpoints-Current q room c)))
  where
    S : Outcome ConfigDescriptor × Heap → Type 0
    S r = r.0 ≢ fault

    first : Bool × Heap
    first = malloc succeeds h

    second : Bool × Heap
    second = malloc succeeds first.1
