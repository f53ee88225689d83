-- ===== src/Devices/Ring/Chain.antt =====
-- Chains of links, the rings of src/libusby.c opened at the head: splitting, joining and framing.
use libusby.Base.{
  ℕ, suc, ◌≡◌, refl, sym, ap, ◌∙◌, ◌≢◌, length, length-append, true, false, ◌||◌, List, [], ◌∷◌,
  ◌++◌, Bool-cases, inl, inr, arith, ◌==◌,
}
use libusby.Devices.Ring.{Links, has, Distinct, Chain}

-- The last node of `a` and `xs`, and the first of `xs` and `b`.
abbrev pub last_of : ℕ → List ℕ → ℕ
last_of a [] = a
last_of a (x ∷ xs) = last_of x xs

abbrev pub first_of_ring : List ℕ → ℕ → ℕ
first_of_ring [] b = b
first_of_ring (x ∷ xs) b = x

pub Chain-prev :
    (h : Links) (a : ℕ) (xs : List ℕ) (b : ℕ) → Chain h a xs b → h.prev b ≡ last_of a xs
Chain-prev h a [] b c = c.1
Chain-prev h a (x ∷ xs) b c = Chain-prev h x xs b c.2

-- A chain is two chains that meet.
pub Chain-split :
    (h : Links) (a : ℕ) (xs : List ℕ) (y : ℕ) (ys : List ℕ) (b : ℕ)
    → Chain h a (xs ++ y ∷ ys) b
    → Chain h a xs y × Chain h y ys b
Chain-split h a [] y ys b c = ((c.0, c.1), c.2)
Chain-split h a (x ∷ xs) y ys b c = let (l, r) = Chain-split h x xs y ys b c.2 in ((c.0, c.1, l), r)

pub Chain-append :
    (h : Links) (a : ℕ) (xs : List ℕ) (y : ℕ) (ys : List ℕ) (b : ℕ)
    → Chain h a xs y
    → Chain h y ys b
    → Chain h a (xs ++ y ∷ ys) b
Chain-append h a [] y ys b l r = (l.0, l.1, r)
Chain-append h a (x ∷ xs) y ys b l r = (l.0, l.1, Chain-append h x xs y ys b l.2 r)

pub has-insert : (a n : ℕ) (xs ys : List ℕ) → has a (xs ++ n ∷ ys) ≡ ((a == n) || has a (xs ++ ys))
has-insert a n [] ys = refl
has-insert a n (x ∷ xs) ys = ground (arith, has-insert a n xs ys)

pub Distinct-insert :
    (n : ℕ) (xs ys : List ℕ)
    → Distinct (xs ++ ys)
    → has n (xs ++ ys) ≡ false
    → Distinct (xs ++ n ∷ ys)
Distinct-insert n [] ys d e = (e, d)
Distinct-insert n (x ∷ xs) ys d e =
    (ground (arith, has-insert x n xs ys), Distinct-insert n xs ys d.1 (ground arith))

pub Distinct-remove : (n : ℕ) (xs ys : List ℕ) → Distinct (xs ++ n ∷ ys) → Distinct (xs ++ ys)
Distinct-remove n [] ys d = d.1
Distinct-remove n (x ∷ xs) ys d =
    (ground (arith, has-insert x n xs ys), Distinct-remove n xs ys d.1)

pub Distinct-fresh : (n : ℕ) (xs ys : List ℕ) → Distinct (xs ++ n ∷ ys) → has n (xs ++ ys) ≡ false
Distinct-fresh n [] ys d = d.0
Distinct-fresh n (x ∷ xs) ys d = ground (arith, Distinct-fresh n xs ys d.1, has-insert x n xs ys)

-- A chain survives where the links that it uses do.
pub frame :
    (h g : Links) (a : ℕ) (xs : List ℕ) (b : ℕ)
    → Chain h a xs b
    → ((c : ℕ) → has c (a ∷ xs) ≡ true → g.next c ≡ h.next c)
    → ((c : ℕ) → has c (b ∷ xs) ≡ true → g.prev c ≡ h.prev c)
    → Chain g a xs b
frame h g a [] b c n p = ground (arith, n a, p b)
frame h g a (x ∷ xs) b c n p = (
  ground (arith, n a),
  ground (arith, p x),
  frame h g x xs b c.2 (λ d e. n d (ground arith)) (λ d e. p d (ground arith)),
)

pub has-last_of : (a : ℕ) (xs : List ℕ) → has (last_of a xs) (a ∷ xs) ≡ true
has-last_of a [] = ground arith
has-last_of a (x ∷ xs) = ground (arith, has-last_of x xs)

-- A chain whose last node is linked to `z` in place of `y`.
pub retarget :
    (h g : Links) (a : ℕ) (xs : List ℕ) (y z : ℕ)
    → Chain h a xs y
    → Distinct (a ∷ xs)
    → g.next (last_of a xs) ≡ z
    → g.prev z ≡ last_of a xs
    → ((c : ℕ) → has c (a ∷ xs) ≡ true → c ≢ last_of a xs → g.next c ≡ h.next c)
    → ((c : ℕ) → has c xs ≡ true → g.prev c ≡ h.prev c)
    → Chain g a xs z
retarget h g a [] y z c d e f n p = (e, f)
retarget h g a (x ∷ xs) y z c d e f n p = (
  n a (ground arith) (λ q. cc (d.0, ap (λ (b : ℕ). has b (x ∷ xs)) q, has-last_of x xs)) ∙ c.0,
  ground (arith, p x),
  retarget h g x xs y z c.2 d.1 e f (λ b i. n b (ground arith)) (λ b i. p b (ground arith)),
)

pub has-append : (a : ℕ) (xs ys : List ℕ) → has a (xs ++ ys) ≡ (has a xs || has a ys)
has-append a [] ys = refl
has-append a (x ∷ xs) ys = ground (arith, has-append a xs ys)

-- Two nodes that a list tells apart, and two from its two halves.
pub apart : (a b : ℕ) (xs : List ℕ) → has a xs ≡ true → has b xs ≡ false → a ≢ b
apart a b xs i o e = cc (ap (λ (c : ℕ). has c xs) e, i, o)

pub Distinct-apart :
    (a b : ℕ) (xs ys : List ℕ) → Distinct (xs ++ ys) → has a xs ≡ true → has b ys ≡ true → a ≢ b
Distinct-apart a b [] ys d i j = absurd (ground arith)
Distinct-apart a b (x ∷ xs) ys d i j = elim (Bool-cases (a == x)) [
  | inl e ↦ λ q. ground (arith, has-append x xs ys, ap (λ (c : ℕ). has c ys) q)
  | inr n ↦ Distinct-apart a b xs ys d.1 (ground arith) j
]

pub Distinct-left : (xs ys : List ℕ) → Distinct (xs ++ ys) → Distinct xs
Distinct-left [] ys d = tt
Distinct-left (x ∷ xs) ys d = (ground (arith, has-append x xs ys), Distinct-left xs ys d.1)

pub Distinct-right : (xs ys : List ℕ) → Distinct (xs ++ ys) → Distinct ys
Distinct-right [] ys d = d
Distinct-right (x ∷ xs) ys d = Distinct-right xs ys d.1

-- A list with one of its elements taken out.
pub has-removed :
    (d t : ℕ) (trans xs ys : List ℕ)
    → trans ≡ xs ++ t ∷ ys
    → has d (xs ++ ys) ≡ true
    → has d trans ≡ true
has-removed d t trans xs ys split i = ap (has d) split ∙ ground (arith, has-insert d t xs ys)

pub length-removed :
    (t : ℕ) (trans xs ys : List ℕ) → trans ≡ xs ++ t ∷ ys → suc (length (xs ++ ys)) ≡ length trans
length-removed t trans xs ys split =
    omega (arith, length-append xs ys, length-append xs (t ∷ ys)) ∙ sym (ap length split)
