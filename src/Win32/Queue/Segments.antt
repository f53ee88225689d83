-- ===== src/Win32/Queue/Segments.antt =====
-- Linked transfers of src/os/libusb0_win32.c: splitting, joining, framing and moving the ends.
use libusby.Base.{ℕ, ◌≡◌, ◌∙◌, false, List, [], ◌∷◌, ◌++◌, Option, none, some, arith}
use libusby.Devices.Ring.{has, Distinct}
use libusby.Win32.Queue.{link, first_or, last_or, Segment}

-- The transfer is none of these.
abbrev pub Outside : Option ℕ → List ℕ → Type 0
Outside none xs = Unit {0}
Outside (some p) xs = has p xs ≡ false

module _ (next prev : ℕ → Option ℕ) where
  pub Segment-split :
      (before : Option ℕ) (xs ys : List ℕ) (after : Option ℕ)
      → Segment next prev before (xs ++ ys) after
      → Segment next prev before xs (first_or ys after)
        × Segment next prev (last_or before xs) ys after
  Segment-split before [] ys after s = (tt, s)
  Segment-split before (x ∷ []) ys after s = ((s.0, s.1, tt), s.2)
  Segment-split before (x ∷ y ∷ xs) ys after s =
      let (l, r) = Segment-split (some x) (y ∷ xs) ys after s.2 in ((s.0, s.1, l), r)

  pub Segment-append :
      (before : Option ℕ) (xs ys : List ℕ) (after : Option ℕ)
      → Segment next prev before xs (first_or ys after)
      → Segment next prev (last_or before xs) ys after
      → Segment next prev before (xs ++ ys) after
  Segment-append before [] ys after l r = r
  Segment-append before (x ∷ []) ys after l r = (l.0, l.1, r)
  Segment-append before (x ∷ y ∷ xs) ys after l r =
      (l.0, l.1, Segment-append (some x) (y ∷ xs) ys after l.2 r)

  pub Segment-next :
      (p v : Option ℕ) (before : Option ℕ) (xs : List ℕ) (after : Option ℕ)
      → Outside p xs
      → Segment next prev before xs after
      → Segment (link p v next) prev before xs after
  Segment-next none v before xs after o s = s
  Segment-next (some p) v before [] after o s = tt
  Segment-next (some p) v before (x ∷ xs) after o s =
      (s.0, ground (arith, s.1), Segment-next (some p) v (some x) xs after (ground arith) s.2)

  pub Segment-prev :
      (p v : Option ℕ) (before : Option ℕ) (xs : List ℕ) (after : Option ℕ)
      → Outside p xs
      → Segment next prev before xs after
      → Segment next (link p v prev) before xs after
  Segment-prev none v before xs after o s = s
  Segment-prev (some p) v before [] after o s = tt
  Segment-prev (some p) v before (x ∷ xs) after o s =
      (ground (arith, s.0), s.1, Segment-prev (some p) v (some x) xs after (ground arith) s.2)

-- What is not among the transfers is not the last of them.
last_or-has :
    (x : ℕ) (xs : List ℕ) (a : ℕ)
    → has a (x ∷ xs) ≡ false
    → (v : Option ℕ) (f : ℕ → Option ℕ) → link (last_or (some x) xs) v f a ≡ f a
last_or-has x [] a h v f = ground arith
last_or-has x (y ∷ xs) a h v f = last_or-has y xs a (ground arith) v f

-- The last transfer linked to another one.
pub Segment-last :
    (next prev : ℕ → Option ℕ) (before : Option ℕ) (xs : List ℕ) (after v : Option ℕ)
    → Distinct xs
    → Segment next prev before xs after
    → Segment (link (last_or before xs) v next) prev before xs v
Segment-last next prev before [] after v d s = tt
Segment-last next prev before (x ∷ []) after v d s = (s.0, ground arith, tt)
Segment-last next prev before (x ∷ y ∷ xs) after v d s = (
  s.0,
  last_or-has y xs x d.0 v next ∙ s.1,
  Segment-last next prev (some x) (y ∷ xs) after v d.1 s.2,
)

-- The first transfer linked back to another one.
pub Segment-first :
    (next prev : ℕ → Option ℕ) (before : Option ℕ) (xs : List ℕ) (after v : Option ℕ)
    → Distinct xs
    → Segment next prev before xs after
    → Segment next (link (first_or xs none) v prev) v xs after
Segment-first next prev before [] after v d s = tt
Segment-first next prev before (x ∷ xs) after v d s =
    (ground arith, s.1, Segment-prev next prev (some x) v (some x) xs after d.0 s.2)
