-- ===== src/Usbfs/Cache.antt =====
-- The cache of configuration descriptors of src/os/linux_usbfs.c: what an enumeration reads from
-- the device's file is what `usbyb_get_descriptor_cached` finds.
use libusby.Base.{
  ℕ, zero, suc, ◌+◌, ◌-◌, ◌≤◌, ◌<◌, ◌≡◌, refl, sym, ap, ◌∙◌, Bool, true, false, List, [], ◌∷◌, ◌++◌,
  append_assoc, append-nil, stuck, Option, none, some, arith, ltb, if◌then◌else◌, length, get_or,
  take, drop, word, length-append, length-take, length-drop, take-append_length, drop-append_length,
  take_all, if-intro, All, Outcome, ok, err, fault, invalid_param, Allocator, Heap, realloc,
}
use libusby.Devices.Descriptor.{DeviceDescriptor}
use libusby.Usbfs.{find_cached, get_descriptor_cached, build_cache}

-- The length in the header is that of the blob.
abbrev pub IsConfig : List ℕ → Type 0
IsConfig blob = (4 ≤ length blob) × (word (get_or blob 2 0) (get_or blob 3 0) ≡ length blob)

abbrev pub concat : List (List ℕ) → List ℕ
concat [] = []
concat (blob ∷ blobs) = blob ++ concat blobs

-- What a request for the descriptor of this index delivers.
abbrev pub nth_truncated : List (List ℕ) → ℕ → ℕ → Outcome (List ℕ)
nth_truncated [] i length_ = err invalid_param
nth_truncated (blob ∷ blobs) zero length_ = ok (take length_ blob)
nth_truncated (blob ∷ blobs) (suc i) length_ = nth_truncated blobs i length_

pub get_or-append : (xs ys : List ℕ) (i : ℕ) → i < length xs → get_or (xs ++ ys) i 0 ≡ get_or xs i 0
get_or-append [] ys i h = absurd (omega arith)
get_or-append (x ∷ xs) ys zero h = refl
get_or-append (x ∷ xs) ys (suc i) h = get_or-append xs ys i (omega arith)

take-append : (n : ℕ) (xs ys : List ℕ) → n ≤ length xs → take n (xs ++ ys) ≡ take n xs
take-append zero xs ys h = refl
take-append (suc n) [] ys h = absurd (omega arith)
take-append (suc n) (x ∷ xs) ys h = ap (◌∷◌ x) (take-append n xs ys (omega arith))

-- The header of the first blob says where the next one begins.
total-append :
    (blob rest : List ℕ)
    → IsConfig blob
    → word (get_or (blob ++ rest) 2 0) (get_or (blob ++ rest) 3 0) ≡ length blob
total-append blob rest (four, e) =
    rw (get_or-append blob rest 2 (omega arith), get_or-append blob rest 3 (omega arith)) e

take-min :
    (blob : List ℕ) (n : ℕ)
    → take (if ltb (length blob) n then length blob else n) blob ≡ take n blob
take-min blob n = ground (arith, take_all n blob, take_all (length blob) blob)

find_cached-concat :
    (blobs : List (List ℕ)) (i j length_ : ℕ)
    → All IsConfig blobs
    → find_cached (length blobs) i (i + j) length_ (concat blobs) ≡ nth_truncated blobs j length_
unfolding find_cached
find_cached-concat [] i j length_ a = refl
find_cached-concat (blob ∷ blobs) i zero length_ (c, cs) = ground (
  arith,
  total-append blob (concat blobs) c,
  length-append blob (concat blobs),
  take-append (if ltb (length blob) length_ then length blob else length_) blob (concat blobs),
  take-min blob length_,
)
find_cached-concat (blob ∷ blobs) i (suc j) length_ (c, cs) = ground (
  arith,
  total-append blob (concat blobs) c,
  length-append blob (concat blobs),
  drop-append_length blob (concat blobs),
  find_cached-concat blobs (i + 1) j length_ cs,
)

pub get_or-take : (xs : List ℕ) (n i : ℕ) → i < n → get_or (take n xs) i 0 ≡ get_or xs i 0
get_or-take xs zero i h = absurd (omega arith)
get_or-take [] (suc n) i h = refl
get_or-take (x ∷ xs) (suc n) zero h = refl
get_or-take (x ∷ xs) (suc n) (suc i) h = get_or-take xs n i (omega arith)

take-drop : (n : ℕ) (xs : List ℕ) → xs ≡ take n xs ++ drop n xs
take-drop zero xs = refl
take-drop (suc n) [] = refl
take-drop (suc n) (x ∷ xs) = ap (◌∷◌ x) (take-drop n xs)

-- These blobs were read from the front of the file and stand behind what the cache held.
abbrev pub ReadBlobs : ℕ → List ℕ → List ℕ → List ℕ → Type 0
ReadBlobs n file cache c =
    (blobs : List (List ℕ)) × (rest : List ℕ) × (length blobs ≡ n)
    × All IsConfig blobs
    × (c ≡ cache ++ concat blobs)
    × (file ≡ concat blobs ++ rest)

abbrev Reads : ℕ → List ℕ → List ℕ → Outcome (Option (List ℕ)) → Type 0
Reads n file cache (ok (some c)) = ReadBlobs n file cache c
Reads n file cache _ = Unit {0}

abbrev total : List ℕ → ℕ
total file = word (get_or file 2 0) (get_or file 3 0)

IsConfig-take :
    (file : List ℕ)
    → 4 ≤ word (get_or file 2 0) (get_or file 3 0)
    → word (get_or file 2 0) (get_or file 3 0) ≤ length file
    → IsConfig (take (word (get_or file 2 0) (get_or file 3 0)) file)
IsConfig-take file four enough = (
  omega (arith, length-take (word (get_or file 2 0) (get_or file 3 0)) file),
  ground (
    arith,
    length-take (word (get_or file 2 0) (get_or file 3 0)) file,
    get_or-take file (word (get_or file 2 0) (get_or file 3 0)) 2,
    get_or-take file (word (get_or file 2 0) (get_or file 3 0)) 3,
  ),
)

Reads-suc :
    (n total : ℕ) (file cache : List ℕ)
    → IsConfig (take total file)
    → (r : Outcome (Option (List ℕ))) → Reads n (drop total file) (cache ++ take total file) r
    → Reads (suc n) file cache r
Reads-suc n total file cache c (ok (some d)) (blobs, rest, e, a, f, g) = (
  take total file ∷ blobs,
  rest,
  ap suc e,
  (c, a),
  f ∙ append_assoc cache (take total file) (concat blobs),
  take-drop total file
      ∙ ap (◌++◌ (take total file)) g
      ∙ sym (append_assoc (take total file) (concat blobs) rest),
)
Reads-suc n total file cache c (ok none) r = tt
Reads-suc n total file cache c (err e) r = tt
Reads-suc n total file cache c fault r = tt
Reads-suc n total file cache c stuck r = tt

module _ (succeeds : Allocator) where
  build_cache-Reads :
      (n : ℕ) (file cache : List ℕ) (is_null : Bool) (h : Heap)
      → Reads n file cache (build_cache succeeds n file cache is_null h).0
  unfolding build_cache
  build_cache-Reads zero file cache is_null h = ([], file, refl, tt, sym (append-nil cache), refl)
  build_cache-Reads (suc n) file cache is_null h =
      if-intro P (ltb (length file) 4) (λ _. tt)
        λ four.
          if-intro P (ltb (total file) 4) (λ _. tt)
            λ enough.
              if-intro P (realloc succeeds is_null h).0
                (λ _.
                  if-intro P (ltb (length (drop 4 file)) (total file - 4)) (λ _. tt)
                    λ present.
                      Reads-suc n (total file) file cache
                        (IsConfig-take file (ground arith) (ground (arith, length-drop 4 file))) _
                        (build_cache-Reads n (drop (total file) file)
                          (cache ++ take (total file) file) false (realloc succeeds is_null h).1))
                (λ _. tt)
    where
      P : Outcome (Option (List ℕ)) × Heap → Type 0
      P r = Reads (suc n) file cache r.0

  realloc-true :
      (is_null : Bool) (h : Heap)
      → ((i : ℕ) → succeeds i ≡ true)
      → (realloc succeeds is_null h).0 ≡ true
  realloc-true true h memory = ground (arith, memory h.calls)
  realloc-true false h memory = memory h.calls

  build_cache-concat :
      (blobs : List (List ℕ)) (rest cache : List ℕ) (is_null : Bool) (h : Heap)
      → ((i : ℕ) → succeeds i ≡ true)
      → All IsConfig blobs
      → (build_cache succeeds (length blobs) (concat blobs ++ rest) cache is_null h).0
        ≡ ok (some (cache ++ concat blobs))
  unfolding build_cache
  build_cache-concat [] rest cache is_null h memory a = ground (arith, append-nil cache)
  build_cache-concat (blob ∷ blobs) rest cache is_null h memory (c, cs) = ground (
    arith,
    append_assoc blob (concat blobs) rest,
    total-append blob (concat blobs ++ rest) c,
    length-append blob (concat blobs ++ rest),
    length-drop 4 (blob ++ concat blobs ++ rest),
    drop-append_length blob (concat blobs ++ rest),
    take-append_length blob (concat blobs ++ rest),
    append_assoc cache blob (concat blobs),
    realloc-true is_null h memory,
    build_cache-concat blobs rest (cache ++ blob) false (realloc succeeds is_null h).1 memory cs,
  )

-- Where the cache is made of blobs, one for each configuration and each as long as its header says,
-- the descriptor of an index out of the cache is the blob of that index, cut off at the length
-- that the caller gives; behind the last blob it is an invalid parameter.
pub get_descriptor_cached-concat :
    (desc : DeviceDescriptor) (blobs : List (List ℕ)) (desc_index langid length_ : ℕ)
    → length blobs ≡ desc.b_num_configurations
    → All IsConfig blobs
    → get_descriptor_cached desc (concat blobs) 2 desc_index langid length_
      ≡ nth_truncated blobs desc_index length_
unfolding get_descriptor_cached
get_descriptor_cached-concat desc blobs desc_index langid length_ e a =
    ap (λ (n : ℕ). find_cached n 0 desc_index length_ (concat blobs)) (sym e)
    ∙ ap (λ (i : ℕ). find_cached (length blobs) 0 i length_ (concat blobs)) zero_plus
    ∙ find_cached-concat blobs 0 desc_index length_ a
  where
    zero_plus : desc_index ≡ 0 + desc_index
    zero_plus = omega arith

-- Whatever the file holds: where the enumeration keeps a cache, it consists of blobs that stand one
-- behind the other at the front of the file, each as long as its header says and one for each
-- configuration.
pub build_cache-ReadBlobs :
    (succeeds : Allocator) (n : ℕ) (file cache : List ℕ) (h : Heap)
    → (build_cache succeeds n file [] true h).0 ≡ ok (some cache)
    → ReadBlobs n file [] cache
build_cache-ReadBlobs succeeds n file cache h e =
    rw e at (build_cache-Reads succeeds n file [] true h)

-- Where no call of realloc fails, a file that begins with such blobs is cached whole.
pub build_cache_complete :
    (succeeds : Allocator) (blobs : List (List ℕ)) (rest : List ℕ) (h : Heap)
    → ((i : ℕ) → succeeds i ≡ true)
    → All IsConfig blobs
    → (build_cache succeeds (length blobs) (concat blobs ++ rest) [] true h).0
      ≡ ok (some (concat blobs))
build_cache_complete succeeds blobs rest h memory a =
    build_cache-concat succeeds blobs rest [] true h memory a
