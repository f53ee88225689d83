-- ===== src/Requests/Memory.antt =====
-- Memory of the requests of src/libusby.c: the buffers that they allocate are freed again, over
-- every backend.
use libusby.Base.{
  ℕ, zero, suc, ◌+◌, ◌*◌, ◌%◌, ◌^◌, bit_or, ◌≡◌, refl, ◌∙◌, true, List, arith, ◌==◌, if-intro,
  get_or, replicate, word, Outcome, ok, err, fault, stuck, no_mem, Allocator, Heap, malloc, free,
}
use mathlib.Core.Path.{subst}
use libusby.Config.{ConfigDescriptor, sanitize_config_descriptor, free_config_descriptor}
use libusby.Config.Memory.{Settled, sanitize_config_descriptor-Settled}
use libusby.Devices.Descriptor.{DeviceDescriptor, get_device_descriptor_cached}
use libusby.Transfer.{Backend, World, is_not_supported}
use libusby.Transfer.Memory.{control_transfer-live}
use libusby.Requests.{
  with_system, with_heap, proceed, get_descriptor, sanitize_and_free, read_config,
  get_config_descriptor, config_found, find_config, find_in, device_desc_read,
  get_device_descriptor, get_config_descriptor_by_value,
}

-- What a call owes to who called it: a result owns the blocks that freeing it frees, and without a
-- result there are none.
abbrev pub Owned {ℓ} : {S : Type ℓ} → ℕ → Outcome ConfigDescriptor × World S → Type 0
Owned base (ok c, w) = (n : ℕ) × (free_config_descriptor c ≡ ok n) × (w.heap.live ≡ base + n)
Owned base (err e, w) = w.heap.live ≡ base
Owned base _ = Unit {0}

module _ {ℓ} {S : Type ℓ} where
  proceed-Owned :
      (base live : ℕ) (r : (Outcome ℕ × List ℕ) × World S)
      (k : ℕ → List ℕ → World S → Outcome ConfigDescriptor × World S)
      → r.1.heap.live ≡ live
      → live ≡ base
      → ((n : ℕ) (data_ : List ℕ) (w : World S) → w.heap.live ≡ live → Owned base (k n data_ w))
      → Owned base (proceed r k)
  proceed-Owned base live ((ok n, data_), w) k e f step = step n data_ w e
  proceed-Owned base live ((err x, data_), w) k e f step = e ∙ f
  proceed-Owned base live ((fault, data_), w) k e f step = tt
  proceed-Owned base live ((stuck, data_), w) k e f step = tt

  Owned-free :
      (base : ℕ) (r : Outcome ConfigDescriptor × World S)
      → Owned (suc base) r
      → Owned base (r.0, with_heap r.1 (free r.1.heap))
  Owned-free base (ok c, w) (n, e, l) = (n, e, omega arith)
  Owned-free base (err x, w) l = omega arith
  Owned-free base (fault, w) l = tt
  Owned-free base (stuck, w) l = tt

  Settled-Owned :
      (base : ℕ) (w : World S) (r : Outcome ConfigDescriptor × Heap)
      → Settled base r
      → Owned base (r.0, with_heap w r.1)
  Settled-Owned base w (ok c, h) s = s
  Settled-Owned base w (err x, h) s = s
  Settled-Owned base w (fault, h) s = tt
  Settled-Owned base w (stuck, h) s = tt

module _ {ℓ} {S : Type ℓ} (b : Backend S) (succeeds : Allocator) (junk : ℕ)
    (device_desc : DeviceDescriptor) where
  get_descriptor-live :
      (desc_type desc_index : ℕ) (data_ : List ℕ) (length_ : ℕ) (w : World S)
      → (get_descriptor b succeeds junk device_desc desc_type desc_index data_ length_
          w).1.heap.live
        ≡ w.heap.live
  unfolding get_descriptor
  get_descriptor-live desc_type desc_index data_ length_ w =
      if-intro (λ (r : (Outcome ℕ × List ℕ) × World S). r.1.heap.live ≡ w.heap.live)
        (is_not_supported asked.0)
        (λ _.
          control_transfer-live b succeeds junk 0 128 6 (bit_or desc_index (desc_type * 256)) 0
            data_ (length_ % 2 ^ 16) 0 (with_system w asked.1))
        (λ _. refl)
    where
      asked : Outcome (List ℕ) × S
      asked = b.get_descriptor device_desc desc_type desc_index 0 length_ w.system

  read_config-Owned :
      (base config_index total : ℕ) (w : World S)
      → w.heap.live ≡ base
      → Owned base (read_config b succeeds junk device_desc config_index total w)
  read_config-Owned base config_index total w e =
      if-intro (Owned {S = S} base) (malloc succeeds w.heap).0
        {x = sanitize_and_free b succeeds junk device_desc read} {y = (err no_mem, grown)}
        (λ m. Owned-free base (proceed read parse) (
          proceed-Owned (suc base) (suc base) read parse
            (get_descriptor-live 2 config_index (replicate total junk) total grown ∙ bigger m) refl
            (λ k raw w' f.
              Settled-Owned (suc base) w'
                (sanitize_config_descriptor succeeds raw (k % 2 ^ 16) w'.heap)
                (subst
                  (λ (live : ℕ).
                    Settled live (sanitize_config_descriptor succeeds raw (k % 2 ^ 16) w'.heap))
                  f (sanitize_config_descriptor-Settled succeeds raw (k % 2 ^ 16) w'.heap)))))
        (λ m. ground (arith, e, m))
    where
      grown : World S
      grown = with_heap w (malloc succeeds w.heap).1

      read : (Outcome ℕ × List ℕ) × World S
      read =
          get_descriptor b succeeds junk device_desc 2 config_index (replicate total junk) total
            grown

      parse : ℕ → List ℕ → World S → Outcome ConfigDescriptor × World S
      parse k raw w' =
          let (c, h) = sanitize_config_descriptor succeeds raw (k % 2 ^ 16) w'.heap in
          (c, with_heap w' h)

      bigger : (malloc succeeds w.heap).0 ≡ true → grown.heap.live ≡ suc base
      bigger m = ground (arith, e, m)

  -- Over every backend, `libusby_get_config_descriptor` frees what it allocates but for its result,
  -- which `libusby_free_config_descriptor` frees.
  pub get_config_descriptor-Owned :
      (config_index : ℕ) (w : World S)
      → Owned w.heap.live (get_config_descriptor b succeeds junk device_desc config_index w)
  unfolding get_config_descriptor
  get_config_descriptor-Owned config_index w =
      proceed-Owned w.heap.live w.heap.live
        (get_descriptor b succeeds junk device_desc 2 config_index (replicate 6 junk) 6 w) _
        (get_descriptor-live 2 config_index (replicate 6 junk) 6 w) refl
        (λ n header w' e.
          read_config-Owned w.heap.live config_index (word (get_or header 2 0) (get_or header 3 0))
            w' e)

  config_found-Owned :
      (base config_value : ℕ) (r : Outcome ConfigDescriptor × World S)
      (k : World S → Outcome ConfigDescriptor × World S)
      → Owned base r
      → ((w : World S) → w.heap.live ≡ base → Owned base (k w))
      → Owned base (config_found b succeeds junk config_value r k)
  config_found-Owned base config_value (ok c, w) k (n, e, l) step =
      if-intro (Owned base) (c.header.b_configuration_value == config_value) (λ _. (n, e, l))
        (λ _. rw e (step _ (omega arith)))
  config_found-Owned base config_value (err x, w) k o step = o
  config_found-Owned base config_value (fault, w) k o step = tt
  config_found-Owned base config_value (stuck, w) k o step = tt

  -- The search for a configuration value frees every descriptor that it passes over.
  pub find_config-Owned :
      (config_value n i : ℕ) (w : World S)
      → Owned w.heap.live (find_config b succeeds junk device_desc config_value n i w)
  unfolding find_config
  find_config-Owned config_value zero i w = refl
  find_config-Owned config_value (suc n) i w =
      config_found-Owned w.heap.live config_value _ _ (get_config_descriptor-Owned (i % 256) w)
        (λ w' e.
          subst
            (λ (live : ℕ).
              Owned live (find_config b succeeds junk device_desc config_value n (i + 1) w'))
            e (find_config-Owned config_value n (i + 1) w'))

module _ {ℓ} {S : Type ℓ} (b : Backend S) (succeeds : Allocator) (junk : ℕ) where
  device_desc_read-live :
      (device_desc : DeviceDescriptor) (r : (Outcome ℕ × List ℕ) × World S)
      → (device_desc_read device_desc r).1.heap.live ≡ r.1.heap.live
  device_desc_read-live device_desc ((ok n, raw), w) = refl
  device_desc_read-live device_desc ((err e, raw), w) = refl
  device_desc_read-live device_desc ((fault, raw), w) = refl
  device_desc_read-live device_desc ((stuck, raw), w) = refl

  get_device_descriptor-live :
      (device_desc : DeviceDescriptor) (w : World S)
      → (get_device_descriptor b succeeds junk device_desc w).1.heap.live ≡ w.heap.live
  unfolding get_device_descriptor
  get_device_descriptor-live device_desc w = cached (get_device_descriptor_cached device_desc)
    where
      cached :
          (r : Outcome DeviceDescriptor)
          → (elim r as (λ _. (Outcome DeviceDescriptor × DeviceDescriptor) × World S) [
            | ok desc ↦ ((ok desc, device_desc), w)
            | _ ↦
                device_desc_read device_desc
                  (get_descriptor b succeeds junk device_desc 1 0 (replicate 18 junk) 18 w)
          ]).1.heap.live
            ≡ w.heap.live
      cached (ok desc) = refl
      cached _ =
          device_desc_read-live device_desc
            (get_descriptor b succeeds junk device_desc 1 0 (replicate 18 junk) 18 w)
          ∙ get_descriptor-live b succeeds junk device_desc 1 0 (replicate 18 junk) 18 w

  find_in-Owned :
      (base config_value : ℕ) (r : (Outcome DeviceDescriptor × DeviceDescriptor) × World S)
      → r.1.heap.live ≡ base
      → Owned base
          ((find_in b succeeds junk config_value r).0.0, (find_in b succeeds junk config_value r).1)
  find_in-Owned base config_value ((ok desc, device_desc), w) e =
      subst
        (λ (live : ℕ).
          Owned live
            (find_config b succeeds junk device_desc config_value desc.b_num_configurations 0 w))
        e (find_config-Owned b succeeds junk device_desc config_value desc.b_num_configurations 0 w)
  find_in-Owned base config_value ((err x, device_desc), w) e = e
  find_in-Owned base config_value ((fault, device_desc), w) e = tt
  find_in-Owned base config_value ((stuck, device_desc), w) e = tt

  -- Over every backend, `libusby_get_config_descriptor_by_value` frees the descriptors that it
  -- passes over: a result owns all that is new, and on an error nothing is.
  pub get_config_descriptor_by_value-Owned :
      (device_desc : DeviceDescriptor) (config_value : ℕ) (w : World S)
      → Owned w.heap.live (
        (get_config_descriptor_by_value b succeeds junk device_desc config_value w).0.0,
        (get_config_descriptor_by_value b succeeds junk device_desc config_value w).1,
      )
  unfolding get_config_descriptor_by_value
  get_config_descriptor_by_value-Owned device_desc config_value w =
      find_in-Owned w.heap.live config_value (get_device_descriptor b succeeds junk device_desc w)
        (get_device_descriptor-live device_desc w)
