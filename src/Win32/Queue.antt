-- ===== src/Win32/Queue.antt =====
-- The list of submitted transfers of src/os/libusb0_win32.c: how `usbyb_submit_transfer` appends to
-- it and `usbyb_reap_transfer` takes out of it. A transfer is named by its address, and NULL is
-- `none`.
pub mod Segments
pub mod Order
use libusby.Base.{
  ℕ, zero, suc, ◌+◌, ◌≡◌, Bool, true, false, List, [], ◌∷◌, length, Option, none, some, ◌==◌,
  if◌then◌else◌, increment, decrement,
}
use libusby.Devices.Ring.{update, has, Distinct}

-- The fields `next`, `prev` and `submitted` of the transfers, and those of the context.
pub record Queue : Type 0 where
  pub next : ℕ → Option ℕ
  pub prev : ℕ → Option ℕ
  pub submitted : ℕ → Bool
  pub trani_first : Option ℕ
  pub trani_last : Option ℕ
  pub tran_count : ℕ

-- `if (p) p->field = v;`
abbrev pub link : Option ℕ → Option ℕ → (ℕ → Option ℕ) → ℕ → Option ℕ
link none v f = f
link (some p) v f = update f p v

abbrev pub or_else : Option ℕ → Option ℕ → Option ℕ
or_else none v = v
or_else (some x) v = some x

unfoldable pub append_tran : ℕ → Queue → Queue
append_tran tran q = record {
  next = link q.trani_last (some tran) (update q.next tran none);
  prev = update q.prev tran q.trani_last;
  submitted = update q.submitted tran true;
  trani_first = or_else q.trani_first (some tran);
  trani_last = some tran;
  tran_count = increment q.tran_count;
}

-- `if (p) … else …`
abbrev pub cases_of {ℓ} : {A : Type ℓ} → Option ℕ → A → A → A
cases_of none a b = a
cases_of (some p) a b = b

unfoldable pub remove_tran : ℕ → Queue → Queue
remove_tran tran q =
    let prev = link (q.next tran) (q.prev tran) q.prev in
    let trani_last = cases_of (q.next tran) (prev tran) q.trani_last in
    let next = link (prev tran) (q.next tran) q.next in
    let trani_first = cases_of (prev tran) (next tran) q.trani_first in
    record {
      next = update next tran none;
      prev = update prev tran none;
      submitted = update q.submitted tran false;
      trani_first = trani_first;
      trani_last = trani_last;
      tran_count = decrement q.tran_count;
    }

-- The first of the transfers, or what comes after them; the last, or what comes before them.
abbrev pub first_or : List ℕ → Option ℕ → Option ℕ
first_or [] after = after
first_or (x ∷ xs) after = some x

abbrev pub last_or : Option ℕ → List ℕ → Option ℕ
last_or before [] = before
last_or before (x ∷ xs) = last_or (some x) xs

-- Transfers linked with each other, between `before` and `after`.
abbrev pub Segment : (ℕ → Option ℕ) → (ℕ → Option ℕ) → Option ℕ → List ℕ → Option ℕ → Type 0
Segment next prev before [] after = Unit {0}
Segment next prev before (x ∷ xs) after =
    (prev x ≡ before) × (next x ≡ first_or xs after) × Segment next prev (some x) xs after

-- The list holds these transfers, in the order of their submission.
pub record IsQueue (q : Queue) (trans : List ℕ) : Type 0 where
  pub linked : Segment q.next q.prev none trans none
  pub distinct : Distinct trans
  pub first : q.trani_first ≡ first_or trans none
  pub last : q.trani_last ≡ last_or none trans
  pub counted : q.tran_count ≡ length trans
  pub marked : (tran : ℕ) → q.submitted tran ≡ has tran trans
