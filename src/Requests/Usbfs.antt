-- ===== src/Requests/Usbfs.antt =====
-- `libusby_get_config_descriptor` of src/libusby.c over src/os/linux_usbfs.c: the descriptor comes
-- out of the cache, and the device is not asked.
use libusby.Base.{
  ℕ, zero, suc, ◌%◌, ◌^◌, ◌≤◌, ◌≡◌, refl, ◌∙◌, List, [], ◌∷◌, ◌++◌, append-nil, some, arith,
  if◌then◌else◌, length, get_elem?, get_or, take, drop, replicate, word, length-take,
  length-replicate, take_all, All, All-get, Outcome, ok, err, no_mem, invalid_param, Allocator,
  malloc, free,
}
use libusby.Config.{sanitize_config_descriptor}
use libusby.Devices.Descriptor.{DeviceDescriptor}
use libusby.Transfer.{Transfer, World}
use libusby.Requests.{store_bytes, with_heap, get_descriptor, get_config_descriptor}
use libusby.Usbfs.{Kernel, Usbfs, backend}
use libusby.Usbfs.Cache.{
  IsConfig, concat, nth_truncated, get_or-append, get_or-take, get_descriptor_cached-concat,
}

nth_truncated-some :
    (blobs : List (List ℕ)) (i n : ℕ) (blob : List ℕ)
    → get_elem? blobs i ≡ some blob
    → nth_truncated blobs i n ≡ ok (take n blob)
nth_truncated-some [] i n blob e = ground (arith, e)
nth_truncated-some (x ∷ xs) zero n blob e = ground (arith, e)
nth_truncated-some (x ∷ xs) (suc i) n blob e = nth_truncated-some xs i n blob e

nth_truncated-none :
    (blobs : List (List ℕ)) (i n : ℕ)
    → length blobs ≤ i
    → nth_truncated blobs i n ≡ err invalid_param
nth_truncated-none [] i n h = refl
nth_truncated-none (x ∷ xs) zero n h = absurd (omega arith)
nth_truncated-none (x ∷ xs) (suc i) n h = nth_truncated-none xs i n (omega arith)

-- The header that is read first says how long the blob is.
header-total :
    (blob junk : List ℕ)
    → IsConfig blob
    → word (get_or (take 6 blob ++ junk) 2 0) (get_or (take 6 blob ++ junk) 3 0) ≡ length blob
header-total blob junk (four, e) =
    rw
      (
        get_or-append (take 6 blob) junk 2 (omega (arith, length-take 6 blob)),
        get_or-append (take 6 blob) junk 3 (omega (arith, length-take 6 blob)),
        get_or-take blob 6 2 (omega arith),
        get_or-take blob 6 3 (omega arith),
      )
      e

store_bytes-take :
    (junk n : ℕ) (blob : List ℕ)
    → store_bytes (replicate n junk) (ok (take n blob))
      ≡ (ok (length (take n blob)), take n blob ++ drop (length (take n blob)) (replicate n junk))
store_bytes-take junk n blob = ground (arith, length-take n blob, length-replicate n junk)

drop-replicate : (n junk : ℕ) → drop n (replicate n junk) ≡ []
drop-replicate zero junk = refl
drop-replicate (suc n) junk = drop-replicate n junk

store_bytes-whole :
    (junk : ℕ) (blob : List ℕ)
    → store_bytes (replicate (length blob) junk) (ok (take (length blob) blob))
      ≡ (ok (length blob), blob)
store_bytes-whole junk blob =
    store_bytes-take junk (length blob) blob
    ∙ rw
        (
          take_all (length blob) blob (omega arith),
          drop-replicate (length blob) junk,
          append-nil blob,
        )
        refl

module _ {ℓ} {K : Type ℓ} (k : Kernel K)
    (submit wait : Transfer → Usbfs K → (Outcome ℕ × Transfer) × Usbfs K) (succeeds : Allocator)
    (junk : ℕ) (desc : DeviceDescriptor) (blobs : List (List ℕ))
    (n : length blobs ≡ desc.b_num_configurations) (a : All IsConfig blobs) where
  get_descriptor-blob :
      (i : ℕ) (blob data_ : List ℕ) (length_ : ℕ) (w : World (Usbfs K))
      → w.system.desc_cache ≡ concat blobs
      → get_elem? blobs i ≡ some blob
      → get_descriptor (backend k submit wait) succeeds junk desc 2 i data_ length_ w
        ≡ (store_bytes data_ (ok (take length_ blob)), w)
  unfolding get_descriptor
  get_descriptor-blob i blob data_ length_ w c e =
      rw
        (
          c,
          get_descriptor_cached-concat desc blobs i 0 length_ n a,
          nth_truncated-some blobs i length_ blob e,
        )
        refl

  -- Over Linux, with such blobs in the cache, one for each configuration,
  -- `libusby_get_config_descriptor` parses the blob of the index that the enumeration cached,
  -- whole, in a buffer that it frees again; where there is no memory for the buffer it returns
  -- NO_MEM. The state of the backend does not change.
  pub get_config_descriptor-blob :
      (i : ℕ) (blob : List ℕ) (w : World (Usbfs K))
      → w.system.desc_cache ≡ concat blobs
      → get_elem? blobs i ≡ some blob
      → get_config_descriptor (backend k submit wait) succeeds junk desc i w ≡ (
          let (made, h) = malloc succeeds w.heap in
          let (c, h') = sanitize_config_descriptor succeeds blob (length blob % 2 ^ 16) h in
          if made then (c, with_heap w (free h')) else (err no_mem, with_heap w h))
  unfolding get_config_descriptor
  get_config_descriptor-blob i blob w c e =
      rw
        (
          get_descriptor-blob i blob (replicate 6 junk) 6 w c e,
          store_bytes-take junk 6 blob,
          header-total blob (drop (length (take 6 blob)) (replicate 6 junk))
              (All-get IsConfig blobs i blob a e),
          get_descriptor-blob i blob (replicate (length blob) junk) (length blob)
              (with_heap w (malloc succeeds w.heap).1) c e,
          store_bytes-whole junk blob,
        )
        refl
