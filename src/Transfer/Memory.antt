-- ===== src/Transfer/Memory.antt =====
-- Memory of `libusby_control_transfer` and `libusby_bulk_transfer` of src/libusby.c.
use libusby.Base.{ℕ, ◌+◌, ◌≡◌, List, Option, none, some, arith, Allocator}
use libusby.Transfer.{
  Transfer, Backend, World, alloc_transfer, free_transfer, with_transfer, control_transfer,
  bulk_transfer,
}

module _ {ℓ} {S : Type ℓ} (b : Backend S) (succeeds : Allocator) where
  -- A transfer with its block, or neither.
  Allocated : World S → Option Transfer × World S → Type 0
  Allocated w (none, w') = w'.heap.live ≡ w.heap.live
  Allocated w (some t, w') = w'.heap.live ≡ w.heap.live + 1

  alloc_transfer-Allocated : (w : World S) → Allocated w (alloc_transfer b succeeds w)
  unfolding alloc_transfer Allocated
  alloc_transfer-Allocated w = ground arith

  with_transfer-live :
      {A : Type 0} (w : World S) (failed : A) (k : Transfer → World S → A × World S)
      (r : Option Transfer × World S)
      → Allocated w r
      → ((t : Transfer) (w' : World S)
          → w'.heap.live ≡ w.heap.live + 1
          → (k t w').1.heap.live ≡ w.heap.live)
      → (with_transfer failed k r).1.heap.live ≡ w.heap.live
  unfolding Allocated
  with_transfer-live w failed k (none, w') e step = e
  with_transfer-live w failed k (some t, w') e step = step t w' e

  -- Over every backend and whichever allocation fails, `libusby_control_transfer` leaves as many
  -- blocks allocated as there were.
  pub control_transfer-live :
      (junk dev_handle bm_request_type b_request w_value w_index : ℕ) (data_ : List ℕ)
      (w_length timeout : ℕ) (w : World S)
      → (control_transfer b succeeds junk dev_handle bm_request_type b_request w_value w_index data_
          w_length timeout w).1.heap.live
        ≡ w.heap.live
  unfolding control_transfer free_transfer
  control_transfer-live junk dev_handle bm_request_type b_request w_value w_index data_ w_length
        timeout w =
      with_transfer-live w _ _ _ (alloc_transfer-Allocated w) λ t w' e. ground arith

  -- So does `libusby_bulk_transfer`, over every backend and whichever allocation fails.
  bulk_transfer-live :
      (dev_handle endpoint : ℕ) (data_ : List ℕ) (length timeout : ℕ) (w : World S)
      → (bulk_transfer b succeeds dev_handle endpoint data_ length timeout w).1.heap.live
        ≡ w.heap.live
  unfolding bulk_transfer free_transfer
  bulk_transfer-live dev_handle endpoint data_ length timeout w =
      with_transfer-live w _ _ _ (alloc_transfer-Allocated w) λ t w' e. omega arith
