-- ===== src/Devices/Ring.antt =====
-- The ring of src/libusby.c: `usbyi_init_devlist_head`, `usbyi_insert_before_devlist_node` and
-- `usbyi_remove_devlist_node`. A node is named by its address; the memory of the nodes is a pair of
-- functions, the fields `next` and `prev` of src/libusbyi.h, and a store goes into one field.
-- The nodes of a ring are the list that `next` runs through from the head.
pub mod Chain
pub mod Order
use libusby.Base.{
  ℕ, ◌≡◌, refl, ap, ◌∙◌, ◌≢◌, Bool, true, false, ◌||◌, List, [], ◌∷◌, ◌++◌, append-nil, Bool-cases,
  inl, inr, arith, ◌==◌, if◌then◌else◌,
}

pub record Links : Type 0 where
  pub next : ℕ → ℕ
  pub prev : ℕ → ℕ

abbrev pub update {ℓ} : {A : Type ℓ} → (ℕ → A) → ℕ → A → ℕ → A
update f a v b = if a == b then v else f b

abbrev pub set_next : Links → ℕ → ℕ → Links
set_next h a v = record h { next = update h.next a v }

abbrev pub set_prev : Links → ℕ → ℕ → Links
set_prev h a v = record h { prev = update h.prev a v }

unfoldable pub init_devlist_head : ℕ → Links → Links
init_devlist_head head h = set_prev (set_next h head head) head head

unfoldable pub insert_before_devlist_node : ℕ → ℕ → Links → Links
insert_before_devlist_node node next h =
    let h = set_next h node next in
    let h = set_prev h node (h.prev next) in
    let h = set_prev h next node in set_next h (h.prev node) node

-- The new heap and the node that followed.
unfoldable pub remove_devlist_node : ℕ → Links → Links × ℕ
remove_devlist_node node h =
    let next = h.next node in
    let h = set_prev h (h.next node) (h.prev node) in
    let h = set_next h (h.prev node) (h.next node) in (h, next)

abbrev pub has : ℕ → List ℕ → Bool
has a [] = false
has a (x ∷ xs) = (a == x) || has a xs

abbrev pub Distinct : List ℕ → Type 0
Distinct [] = Unit {0}
Distinct (x ∷ xs) = (has x xs ≡ false) × Distinct xs

-- From `a` the links lead through `xs` to `b`, forwards and backwards.
abbrev pub Chain : Links → ℕ → List ℕ → ℕ → Type 0
Chain h a [] b = (h.next a ≡ b) × (h.prev b ≡ a)
Chain h a (x ∷ xs) b = (h.next a ≡ x) × (h.prev x ≡ a) × Chain h x xs b

-- A head with the nodes behind it.
pub record IsRing (h : Links) (head : ℕ) (xs : List ℕ) : Type 0 where
  pub chain : Chain h head xs head
  pub distinct : Distinct (head ∷ xs)
