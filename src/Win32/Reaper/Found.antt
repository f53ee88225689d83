-- ===== src/Win32/Reaper/Found.antt =====
-- The transfers of src/os/libusb0_win32.c behind the handles that its event loop waits for.
use libusby.Base.{
  ℕ, zero, suc, ◌≤◌, ◌<◌, ◌≡◌, refl, ap, ◌∙◌, inl, inr, true, List, [], ◌∷◌, ◌++◌, ◌==◌,
  if◌then◌else◌, Bool-cases, arith, length, length-append, length-drop, drop, get_elem?, Option,
  none, some,
}
use libusby.Devices.Ring.{has}
use libusby.Win32.Io.{write_front}
use libusby.Win32.Queue.{first_or, Segment}
use libusby.Win32.Reaper.{System, collect, find_event}

pub get_elem?-front :
    (hs cells : List ℕ) (i : ℕ) → i < length hs → get_elem? (hs ++ cells) i ≡ get_elem? hs i
get_elem?-front [] cells i h = elim h [ ]
get_elem?-front (x ∷ hs) cells zero h = refl
get_elem?-front (x ∷ hs) cells (suc i) h = get_elem?-front hs cells i (omega arith)

get_elem?-has :
    (xs : List ℕ) (i : ℕ) → i < length xs → (h : ℕ) × (get_elem? xs i ≡ some h) × (has h xs ≡ true)
get_elem?-has [] i l = elim l [ ]
get_elem?-has (x ∷ xs) zero l = (x, refl, ground arith)
get_elem?-has (x ∷ xs) (suc i) l =
    let (h, e, m) = get_elem?-has xs i (omega arith) in (h, e, ground arith)

pub get_elem?-behind :
    (a b : ℕ) (xs : List ℕ) (i : ℕ)
    → 1 < i
    → i < suc (suc (length xs))
    → (h : ℕ) × (get_elem? (a ∷ b ∷ xs) i ≡ some h) × (has h xs ≡ true)
get_elem?-behind a b xs zero p l = absurd (omega arith)
get_elem?-behind a b xs (suc zero) p l = absurd (omega arith)
get_elem?-behind a b xs (suc (suc i)) p l = get_elem?-has xs i (omega arith)

pub length-write_front :
    (hs cells : List ℕ) → length hs ≤ length cells → length (write_front hs cells) ≡ length cells
length-write_front hs cells l =
    length-append hs (drop (length hs) cells) ∙ omega (arith, length-drop (length hs) cells)

module _ {ℓ} {S : Type ℓ} (k : System S) where
  -- The events of the transfers but the target, and the first transfer with an event.
  abbrev pub events : ℕ → List ℕ → List ℕ
  events h_target [] = []
  events h_target (x ∷ xs) =
      if k.h_overlapped_event x == h_target
      then events h_target xs
      else k.h_overlapped_event x ∷ events h_target xs

  pub collect-events :
      (h_target : ℕ) (next prev : ℕ → Option ℕ) (before : Option ℕ) (trans : List ℕ)
      → Segment next prev before trans none
      → collect k h_target next (length trans) (first_or trans none) ≡ events h_target trans
  collect-events h_target next prev before [] s = refl
  collect-events h_target next prev before (x ∷ xs) s =
      rw (s.1, collect-events h_target next prev (some x) xs s.2) refl

  pub events-length :
      (h_target : ℕ) (trans : List ℕ) → length (events h_target trans) ≤ length trans
  events-length h_target [] = omega arith
  events-length h_target (x ∷ xs) = ground (arith, events-length h_target xs)

  -- An event in the list is that of a transfer.
  abbrev pub Finds : ℕ → (ℕ → Option ℕ) → List ℕ → Type 0
  Finds h next trans =
      (xs : List ℕ) × (t : ℕ) × (ys : List ℕ) × (trans ≡ xs ++ t ∷ ys)
      × (find_event k h next (length trans) (first_or trans none) ≡ some t)

  pub find_event-Finds :
      (h h_target : ℕ) (next prev : ℕ → Option ℕ) (before : Option ℕ) (trans : List ℕ)
      → Segment next prev before trans none
      → has h (events h_target trans) ≡ true
      → Finds h next trans
  find_event-Finds h h_target next prev before [] s e = absurd (cc)
  find_event-Finds h h_target next prev before (x ∷ xs) s e =
      elim (Bool-cases (k.h_overlapped_event x == h)) [
        | inl q ↦ ([], x, xs, refl, rw q refl)
        | inr q ↦
            let (front, t, back, split, found) =
              find_event-Finds h h_target next prev (some x) xs s.2 (ground (arith, e)) in
            (x ∷ front, t, back, ap (◌∷◌ x) split, rw (s.1, q) found)
      ]
