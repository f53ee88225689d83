-- ===== src/Usbfs/Control.antt =====
-- `libusby_control_transfer` of src/libusby.c over the control transfer of src/os/linux_usbfs.c:
-- the request that reaches the kernel, and the answer that reaches the caller.
use libusby.Base.{
  ltb, ℕ, ◌+◌, ◌≤◌, ◌<◌, ◌≡◌, refl, sym, ap, ◌∙◌, ◌⊎◌, inl, inr, true, false, List, ◌++◌, none,
  arith, length, take, drop, replicate, take-append_length, drop-append_length, length-append, u8,
  shr, word, word_lem, Outcome, ok, err, io, Allocator,
}
use libusby.Transfer.{
  Transfer, World, zero_transfer, fill_control_transfer, setup_packet, deliver, deliver_and_free,
  alloc_transfer, free_transfer, perform_transfer, control_transfer, is_completed,
}
use libusby.Usbfs
use libusby.Usbfs.{
  Errno, enodev, ebusy, epipe, other_errno, CtrlTransfer, Kernel, Usbfs, ctrl_transfer, status_of,
  finish_control, control_done, init_transfer, backend,
}

pub word-halves : (x : ℕ) → x < 65536 → word (u8 x) (u8 (shr x 8)) ≡ x
word-halves x h = word_lem (u8 x) (u8 (shr x 8)) (omega arith) (omega arith) ∙ omega arith

-- The Linux backend reads back the request that `libusby_control_transfer` writes into the buffer,
-- where its value, index and length have 16 bits.
pub ctrl_transfer-setup_packet :
    (bm_request_type b_request w_value w_index w_length : ℕ) (rest : List ℕ)
    → w_value < 65536
    → w_index < 65536
    → w_length < 65536
    → ctrl_transfer (setup_packet bm_request_type b_request w_value w_index w_length ++ rest)
      ≡ record {
        b_request_type = bm_request_type;
        b_request = b_request;
        w_value = w_value;
        w_index = w_index;
        w_length = w_length;
        timeout = 0;
      }
unfolding ctrl_transfer setup_packet
ctrl_transfer-setup_packet bm_request_type b_request w_value w_index w_length rest v i l =
    rw (word-halves w_value v, word-halves w_index i, word-halves w_length l)

-- The kernel's answer as the caller sees it.
abbrev pub answer : (Errno ⊎ ℕ) × List ℕ → List ℕ → Outcome ℕ × List ℕ
answer (inl e, memory) data_ = (err io, data_)
answer (inr n, memory) data_ = (ok n, take n memory ++ drop n data_)

-- Linux writes in the memory that it was given, and returns how many bytes it transferred, which
-- are not more than were asked for.
abbrev pub IsWithin : ℕ → (Errno ⊎ ℕ) × List ℕ → Type 0
IsWithin w_length (inl e, memory) = Unit {0}
IsWithin w_length (inr n, memory) = (n ≤ w_length) × (length memory ≡ w_length)

not-completed : (e : Errno) → is_completed (status_of e) ≡ false
unfolding status_of
not-completed enodev = refl
not-completed ebusy = refl
not-completed epipe = refl
not-completed (other_errno n) = refl

deliver-finish_control :
    (t : Transfer) (setup junk data_ : List ℕ) (w_length : ℕ) (r : (Errno ⊎ ℕ) × List ℕ)
    → t.buffer ≡ setup ++ junk
    → length setup ≡ 8
    → w_length ≤ length data_
    → IsWithin w_length r
    → deliver (ok 0) (finish_control t r) data_ ≡ answer r data_
unfolding deliver finish_control
deliver-finish_control t setup junk data_ w_length (inl e, memory) b s l h =
    ground (arith, not-completed e)
deliver-finish_control t setup junk data_ w_length (inr n, memory) b s l h =
    ground (arith, front, back, length-append setup memory)
  where
    front : take 8 t.buffer ≡ setup
    front =
        ap (take 8) b
        ∙ ap (λ (n : ℕ). take n (setup ++ junk)) (sym s)
        ∙ take-append_length setup junk

    back : drop 8 (setup ++ memory) ≡ memory
    back = ap (λ (n : ℕ). drop n (setup ++ memory)) (sym s) ∙ drop-append_length setup memory

module _ {ℓ} {K : Type ℓ} (k : Kernel K)
    (submit wait : Transfer → Usbfs K → (Outcome ℕ × Transfer) × Usbfs K)
    (succeeds : Allocator) where
  abbrev filled : ℕ → ℕ → List ℕ → Transfer
  filled dev_handle timeout buffer =
      fill_control_transfer zero_transfer dev_handle buffer none 0 timeout

  -- The ioctl in place of a submission.
  perform_transfer-filled :
      (dev_handle timeout : ℕ) (buffer : List ℕ) (s : Usbfs K) (r : (Errno ⊎ ℕ) × List ℕ)
      (kernel : K)
      → ltb (length buffer) 8 ≡ false
      → k.usbdevfs_control s.wrfd (ctrl_transfer buffer) (drop 8 buffer) s.kernel ≡ (r, kernel)
      → perform_transfer (backend k submit wait) (filled dev_handle timeout buffer) s ≡ (
        (ok 0, finish_control (filled dev_handle timeout buffer) r),
        record s { kernel = kernel },
      )
  unfolding perform_transfer Usbfs.perform_transfer fill_control_transfer
  perform_transfer-filled dev_handle timeout buffer s r kernel long e = rw (long, e)

  -- Two blocks are allocated and freed again.
  control_transfer-allocated :
      (junk dev_handle bm_request_type b_request w_value w_index : ℕ) (data_ : List ℕ)
      (w_length timeout : ℕ) (w : World (Usbfs K))
      → ((i : ℕ) → succeeds i ≡ true)
      → k.pthread_cond_init w.system.kernel ≡ (true, w.system.kernel)
      → control_transfer
          (backend k submit wait)
          succeeds
          junk
          dev_handle
          bm_request_type
          b_request
          w_value
          w_index
          data_
          w_length
          timeout
          w
        ≡ deliver_and_free
            (backend k submit wait)
            (record { calls = w.heap.calls + 1 + 1; live = w.heap.live + 1 + 1 })
            data_
            (perform_transfer
              (backend k submit wait)
              (filled dev_handle timeout (
                setup_packet bm_request_type b_request w_value w_index w_length
                ++ replicate w_length junk))
              w.system)
  unfolding control_transfer alloc_transfer init_transfer
  control_transfer-allocated junk dev_handle bm_request_type b_request w_value w_index data_
        w_length timeout w memory ready =
      rw (memory w.heap.calls, ready, memory (w.heap.calls + 1))

  -- Where no call of malloc fails, a condition variable is initialised, value, index and length
  -- have 16 bits, `data` has room for the length, and the kernel answers within the request, one
  -- control transfer is one ioctl with the caller's request type, request, value, index and length
  -- over fresh memory and, whatever timeout the caller gives, with the timeout 0, which is none. The
  -- caller gets the bytes that it transferred in front of what `data` held, or the error IO and `data` as it
  -- was.
  pub control_transfer-answer :
      (junk dev_handle bm_request_type b_request w_value w_index : ℕ) (data_ : List ℕ)
      (w_length timeout : ℕ) (w : World (Usbfs K)) (r : (Errno ⊎ ℕ) × List ℕ) (kernel : K)
      → ((i : ℕ) → succeeds i ≡ true)
      → k.pthread_cond_init w.system.kernel ≡ (true, w.system.kernel)
      → w_value < 65536
      → w_index < 65536
      → w_length < 65536
      → w_length ≤ length data_
      → k.usbdevfs_control w.system.wrfd
          (record {
            b_request_type = bm_request_type;
            b_request = b_request;
            w_value = w_value;
            w_index = w_index;
            w_length = w_length;
            timeout = 0;
          })
          (replicate w_length junk)
          w.system.kernel
        ≡ (r, kernel)
      → IsWithin w_length r
      → (control_transfer
          (backend k submit wait)
          succeeds
          junk
          dev_handle
          bm_request_type
          b_request
          w_value
          w_index
          data_
          w_length
          timeout
          w)
        ≡ (
          answer r data_,
          record {
            heap = record { calls = w.heap.calls + 2; live = w.heap.live };
            system = record w.system { kernel = kernel };
          },
        )
  unfolding free_transfer fill_control_transfer setup_packet
  control_transfer-answer junk dev_handle bm_request_type b_request w_value w_index data_ w_length
        timeout w r kernel memory ready v i l d e h =
      control_transfer-allocated junk dev_handle bm_request_type b_request w_value w_index data_
        w_length timeout w memory ready
      ∙ ap (deliver_and_free (backend k submit wait) _ data_) (
          perform_transfer-filled dev_handle timeout (setup ++ replicate w_length junk) w.system r
            kernel (ground arith) reached)
      ∙ rw
          (deliver-finish_control (filled dev_handle timeout (setup ++ replicate w_length junk))
            setup (replicate w_length junk) data_ w_length r refl refl d h)
          (ground arith)
    where
      setup : List ℕ
      setup = setup_packet bm_request_type b_request w_value w_index w_length

      reached :
          k.usbdevfs_control w.system.wrfd
            (ctrl_transfer (setup ++ replicate w_length junk))
            (drop 8 (setup ++ replicate w_length junk))
            w.system.kernel
          ≡ (r, kernel)
      reached =
          rw
            (ctrl_transfer-setup_packet bm_request_type b_request w_value w_index w_length
              (replicate w_length junk) v i l)
            e
