-- ===== src/Usbfs/Enumeration/Fresh.antt =====
-- What `usbyb_get_device_list` of src/os/linux_usbfs.c returns, and the addresses of its entries.
use libusby.Base.{
  ℕ, zero, suc, Bool, false, List, length, drop, word, get_or, ◌-◌, realloc, ltb, if-intro, Option,
  Outcome, Allocator, Heap,
}
use libusby.Handles.Counting.{Held}
use libusby.Handles.Listing.{Listed}
use libusby.Requests.Kept.{IsAnswer}
use libusby.Usbfs.{build_cache}
use libusby.Usbfs.Enumeration.{Entry, Result}

pub build_cache-IsAnswer :
    (succeeds : Allocator) (n : ℕ) (file cache : List ℕ) (is_null : Bool) (h : Heap)
    → IsAnswer (build_cache succeeds n file cache is_null h).0
unfolding build_cache
build_cache-IsAnswer succeeds zero file cache is_null h = tt
build_cache-IsAnswer succeeds (suc n) file cache is_null h =
    let total = word (get_or file 2 0) (get_or file 3 0) in
    let P : Outcome (Option (List ℕ)) × Heap → Type 0 = λ x. IsAnswer x.0 in
    if-intro P (ltb (length file) 4) (λ _. tt)
      (λ _.
        if-intro P (ltb total 4) (λ _. tt)
          (λ _.
            if-intro P (realloc succeeds is_null h).0
              (λ _.
                if-intro P (ltb (length (drop 4 file)) (total - 4)) (λ _. tt)
                  (λ _. build_cache-IsAnswer succeeds n _ _ false _))
              (λ _. tt)))

abbrev pub address : Entry → ℕ
address e = e.address

abbrev pub Enumerated {ℓ} : {S : Type ℓ} → ℕ → Held → Result S → Type 0
Enumerated head held x = Listed head held (x.0, (x.1).store)
