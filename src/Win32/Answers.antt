-- ===== src/Win32/Answers.antt =====
-- Requests and handle lists of src/os/libusb0_win32.c.
use libusby.Base.{
  ℕ, zero, suc, ◌*◌, ◌/◌, ◌≤◌, ◌<◌, ◌≡◌, refl, sym, ap, ◌∙◌, true, List, [], ◌∷◌, ◌++◌, none, arith,
  ltb, if-intro, if◌then◌else◌, ◌||◌, length, take, drop, Outcome, ok, err, io, length-append,
  drop-append_length,
}
use libusby.Transfer.{Transfer, TransferType, fill_control_transfer, setup_packet, deliver}
use libusby.Usbfs.Control.{word-halves}
use libusby.Win32.{
  control_request, ioctl_control_read, ioctl_control_write, is_in, prepare_transfer_submission,
  SystemError, error_success, error_operation_aborted, error_busy, error_io_pending, other_error,
  update_finished_transfer, HandleList, resize, at_least_4, reserve_handle_list,
}

-- A transfer that `libusby_control_transfer` fills, with value, index and length of 16 bits,
-- becomes a request with the same five numbers, over the memory behind the setup packet; bit 7 of
-- the first says in which direction.
pub prepare_transfer_submission-setup_packet :
    (t : Transfer) (dev_handle timeout bm_request_type b_request w_value w_index w_length : ℕ)
    (rest : List ℕ)
    → w_value < 65536
    → w_index < 65536
    → w_length < 65536
    → prepare_transfer_submission (
        fill_control_transfer t dev_handle
          (setup_packet bm_request_type b_request w_value w_index w_length ++ rest)
          none
          0
          timeout)
      ≡ ok (record {
        code = if is_in bm_request_type then ioctl_control_read else ioctl_control_write;
        request = control_request bm_request_type b_request w_value w_index w_length;
        data_ptr = rest;
        data_len = w_length;
      })
unfolding prepare_transfer_submission fill_control_transfer setup_packet
prepare_transfer_submission-setup_packet t dev_handle timeout bm_request_type b_request w_value
      w_index w_length rest v i l =
    rw (word-halves w_value v, word-halves w_index i, word-halves w_length l) (ground arith)

-- Where the driver transferred no more than the buffer and `data` hold, the caller of
-- `libusby_control_transfer` gets the bytes that it transferred, and where it reports an error, IO
-- and `data` as it was.
pub deliver-update_finished_transfer :
    (t : Transfer) (setup memory data_ : List ℕ) (e : SystemError) (n : ℕ)
    → t.buffer ≡ setup ++ memory
    → length setup ≡ 8
    → n ≤ length memory
    → n ≤ length data_
    → deliver
        (ok 0)
        (update_finished_transfer (record t { transfer_type = TransferType.control }) e n)
        data_
      ≡ (elim e [ error_success ↦ (ok n, take n memory ++ drop n data_) | _ ↦ (err io, data_) ])
unfolding deliver update_finished_transfer
deliver-update_finished_transfer t setup memory data_ error_success n b s h k =
    ground (arith, b, back, length-append setup memory)
  where
    back : drop 8 (setup ++ memory) ≡ memory
    back = ap (λ (n : ℕ). drop n (setup ++ memory)) (sym s) ∙ drop-append_length setup memory
deliver-update_finished_transfer t setup memory data_ error_operation_aborted n b s h k = refl
deliver-update_finished_transfer t setup memory data_ error_busy n b s h k = refl
deliver-update_finished_transfer t setup memory data_ error_io_pending n b s h k = refl
deliver-update_finished_transfer t setup memory data_ (other_error c) n b s h k = refl

length-resize : (junk n : ℕ) (cells : List ℕ) → length (resize junk n cells) ≡ n
length-resize junk zero cells = refl
length-resize junk (suc n) [] = ap suc (length-resize junk n [])
length-resize junk (suc n) (x ∷ cells) = ap suc (length-resize junk n cells)

-- Where the capacity is that of the array and memory suffices, `usbyi_reserve_handle_list` makes
-- room for the handles asked for, and keeps the capacity that of the array.
pub reserve_handle_list-room :
    (junk new_capacity : ℕ) (l : HandleList)
    → length l.handles ≡ l.capacity
    → (l' : HandleList) × (reserve_handle_list true junk new_capacity l ≡ (ok 0, l'))
      × (new_capacity ≤ l'.capacity)
      × (length l'.handles ≡ l'.capacity)
unfolding reserve_handle_list
reserve_handle_list-room junk new_capacity l e =
    if-intro P (ltb n (l.capacity / 4) || ltb l.capacity n)
      (λ q. (_, refl, ground arith, length-resize junk (n * 3 / 2) l.handles))
      (λ q. (l, refl, ground arith, e))
  where
    n : ℕ
    n = at_least_4 new_capacity

    P : Outcome ℕ × HandleList → Type 0
    P r =
        (l' : HandleList) × (r ≡ (ok 0, l'))
        × (new_capacity ≤ l'.capacity)
        × (length l'.handles ≡ l'.capacity)
