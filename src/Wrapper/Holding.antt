-- ===== src/Wrapper/Holding.antt =====
-- The references that objects of class `device` of src/libusby.hpp hold.
use libusby.Base.{
  ℕ, zero, suc, ◌+◌, ◌≤◌, ◌<◌, ◌≡◌, refl, sym, ap, ◌∙◌, List, [], ◌∷◌, Option, none, some, arith,
  length, get_elem?, set, get_elem?-set_self, get_elem?-set_ne, ◌==◌, ==→eq, ==→ne, Bool-cases, inl,
  inr, if◌then◌else◌, ◌-◌,
}
use mathlib.Core.Path.{subst}
use libusby.Handles.Counting.{Held}
use libusby.Handles.Search.Loops.{hold}
use libusby.Wrapper.{remove_at}

-- The references of some objects, beside others.
abbrev pub holding : List (Option ℕ) → Held → Held
holding [] held = held
holding (m_dev ∷ objects) held = hold m_dev (holding objects held)

pub hold-cong :
    (m : Option ℕ) (held held' : Held) (d : ℕ) → held d ≡ held' d → hold m held d ≡ hold m held' d
hold-cong none held held' d e = e
hold-cong (some x) held held' d e = ground (arith, e)

pub hold-swap :
    (m n : Option ℕ) (held : Held) (d : ℕ) → hold m (hold n held) d ≡ hold n (hold m held) d
hold-swap none n held d = refl
hold-swap (some x) none held d = refl
hold-swap (some x) (some y) held d = ground arith

-- An object that takes another pointer.
pub holding-set :
    (objects : List (Option ℕ)) (i : ℕ) (old new : Option ℕ) (held : Held) (d : ℕ)
    → get_elem? objects i ≡ some old
    → hold old (holding (set objects i new) held) d ≡ hold new (holding objects held) d
holding-set [] i old new held d e = absurd (cc)
holding-set (x ∷ objects) zero old new held d e =
    let q : x ≡ old = cc in
    hold-swap old new (holding objects held) d
    ∙ ap (λ (m : Option ℕ). hold new (hold m (holding objects held)) d) (sym q)
holding-set (x ∷ objects) (suc i) old new held d e =
    hold-swap old x (holding (set objects i new) held) d
    ∙ hold-cong x (hold old (holding (set objects i new) held)) (hold new (holding objects held)) d
        (holding-set objects i old new held d e)
    ∙ hold-swap x new (holding objects held) d

-- An object that is gone.
pub holding-remove_at :
    (objects : List (Option ℕ)) (i : ℕ) (m : Option ℕ) (held : Held) (d : ℕ)
    → get_elem? objects i ≡ some m
    → holding objects held d ≡ hold m (holding (remove_at objects i) held) d
holding-remove_at [] i m held d e = absurd (cc)
holding-remove_at (x ∷ objects) zero m held d e =
    let q : x ≡ m = cc in ap (λ (n : Option ℕ). hold n (holding objects held) d) q
holding-remove_at (x ∷ objects) (suc i) m held d e =
    hold-cong x (holding objects held) (hold m (holding (remove_at objects i) held)) d
      (holding-remove_at objects i m held d e)
    ∙ hold-swap x m (holding (remove_at objects i) held) d

pub length-remove_at :
    (objects : List (Option ℕ)) (i : ℕ)
    → i < length objects
    → suc (length (remove_at objects i)) ≡ length objects
length-remove_at [] i h = absurd (omega arith)
length-remove_at (x ∷ objects) zero h = omega arith
length-remove_at (x ∷ objects) (suc i) h = omega (arith, length-remove_at objects i (omega arith))

-- A reference that is given up to an object.
abbrev pub less : ℕ → Held → Held
less dev held d = if d == dev then held d - 1 else held d

pub holding-less :
    (objects : List (Option ℕ)) (dev : ℕ) (held : Held) (d : ℕ)
    → 0 < held dev
    → holding objects held d ≡ hold (some dev) (holding objects (less dev held)) d
holding-less [] dev held d one = elim (Bool-cases (d == dev)) [
  | inl e ↦ ground (arith, e, ap held (==→eq d dev e))
  | inr n ↦ ground (arith, n)
]
holding-less (x ∷ objects) dev held d one =
    hold-cong x (holding objects held) (hold (some dev) (holding objects (less dev held))) d
      (holding-less objects dev held d one)
    ∙ hold-swap x (some dev) (holding objects (less dev held)) d

pub holding-le :
    (objects : List (Option ℕ)) (held : Held) (d : ℕ)
    → holding objects held d ≤ held d + length objects
holding-le [] held d = omega arith
holding-le (none ∷ objects) held d = omega (arith, holding-le objects held d)
holding-le (some x ∷ objects) held d = ground (arith, holding-le objects held d)

pub le-holding : (objects : List (Option ℕ)) (held : Held) (d : ℕ) → held d ≤ holding objects held d
le-holding [] held d = omega arith
le-holding (none ∷ objects) held d = le-holding objects held d
le-holding (some x ∷ objects) held d = ground (arith, le-holding objects held d)

hold-injective :
    (m : Option ℕ) (held held' : Held) (d : ℕ) → hold m held d ≡ hold m held' d → held d ≡ held' d
hold-injective none held held' d e = e
hold-injective (some x) held held' d e = ground (arith, e)

-- Two objects that are swapped, which may be one.
pub holding-swap :
    (objects : List (Option ℕ)) (i j : ℕ) (a b : Option ℕ) (held : Held) (d : ℕ)
    → j < length objects
    → get_elem? objects i ≡ some a
    → get_elem? objects j ≡ some b
    → holding objects held d ≡ holding (set (set objects i b) j a) held d
holding-swap objects i j a b held d l e f =
    hold-injective b (holding objects held) (holding (set (set objects i b) j a) held) d (
      sym (holding-set objects i a b held d e)
      ∙ sym (holding-set (set objects i b) j b a held d stays))
  where
    stays : get_elem? (set objects i b) j ≡ some b
    stays = elim (Bool-cases (i == j)) [
      | inl q ↦
          subst (λ (n : ℕ). get_elem? (set objects n b) j ≡ some b) (sym (==→eq i j q))
            (get_elem?-set_self objects j b l)
      | inr n ↦ get_elem?-set_ne objects i j b (==→ne i j n) ∙ f
    ]

-- A place of an object.
pub object_below :
    (objects : List (Option ℕ)) (i : ℕ)
    → i < length objects
    → (m : Option ℕ) × (get_elem? objects i ≡ some m)
object_below [] i h = elim h [ ]
object_below (m ∷ objects) zero h = (m, refl)
object_below (m ∷ objects) (suc i) h = object_below objects i (omega arith)

pub object_held :
    (objects : List (Option ℕ)) (i d : ℕ) (held : Held)
    → get_elem? objects i ≡ some (some d)
    → 0 < holding objects held d
object_held [] i d held e = absurd (cc)
object_held (x ∷ objects) zero d held e =
    let q : x ≡ some d = cc in
    subst (λ (m : Option ℕ). 0 < hold m (holding objects held) d) (sym q) (ground arith)
object_held (none ∷ objects) (suc i) d held e = object_held objects i d held e
object_held (some x ∷ objects) (suc i) d held e = ground (arith, object_held objects i d held e)
