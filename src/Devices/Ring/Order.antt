-- ===== src/Devices/Ring/Order.antt =====
-- The ring of src/libusby.c keeps the order of its nodes: initialisation, insertion and removal.
use libusby.Base.{ℕ, ◌≡◌, ◌≢◌, true, false, List, [], ◌∷◌, ◌++◌, append-nil, arith}
use libusby.Devices.Ring.{
  Links, init_devlist_head, insert_before_devlist_node, remove_devlist_node, has, Distinct, Chain,
  IsRing,
}
use libusby.Devices.Ring.Chain.{
  Chain-prev, Chain-split, Chain-append, has-insert, Distinct-insert, Distinct-remove, frame,
  has-last_of, retarget, has-append, apart, Distinct-apart, Distinct-left, Distinct-right, last_of,
  first_of_ring,
}

-- `usbyi_init_devlist_head` makes a ring without nodes.
pub init_devlist_head-IsRing : (head : ℕ) (h : Links) → IsRing (init_devlist_head head h) head []
unfolding init_devlist_head
init_devlist_head-IsRing head h = record { chain = ground arith; distinct = ground arith }

insert-Chain :
    (h : Links) (head : ℕ) (xs ys : List ℕ) (node : ℕ)
    → Chain h head (xs ++ ys) head
    → Distinct (head ∷ xs ++ ys)
    → has node (head ∷ xs ++ ys) ≡ false
    → Chain (insert_before_devlist_node node (first_of_ring ys head) h) head (xs ++ node ∷ ys) head
unfolding insert_before_devlist_node
insert-Chain h head xs [] node c d fresh =
    Chain-append h' head xs node [] head
      (retarget h h' head xs head node c' (rw append-nil at d) (ground (arith, ne, back))
        (ground (arith, ne, back)) (λ a i n. ground (arith, apart a node (head ∷ xs) i, f', back))
        (λ a i. ground (arith, apart a node (head ∷ xs), f', d', apart a head xs i)))
      (ground (arith, ne, back), ground (arith, ne))
  where
    h' : Links
    h' = insert_before_devlist_node node head h

    c' : Chain h head xs head
    c' = rw append-nil at c

    d' : has head xs ≡ false
    d' = rw append-nil at d.0

    f' : has node (head ∷ xs) ≡ false
    f' = rw append-nil at fresh

    back : h.prev head ≡ last_of head xs
    back = Chain-prev h head xs head c'

    ne : (last_of head xs ≢ node) × (head ≢ node)
    ne = (apart (last_of head xs) node (head ∷ xs) (has-last_of head xs) f', ground (arith, f'))
insert-Chain h head xs (y ∷ ys) node c d fresh =
    Chain-append h' head xs node (y ∷ ys) head
      (retarget h h' head xs y node halves.0 (Distinct-left (head ∷ xs) (y ∷ ys) d)
        (ground (arith, ne, back)) (ground (arith, ne, back))
        (λ a i n. ground (arith, apart a node (head ∷ xs) i f', back))
        (λ a i.
          ground
            (arith, apart a node (head ∷ xs), f', i, Distinct-apart a y (head ∷ xs) (y ∷ ys) d)))
      (
        ground (arith, ne, back),
        ground (arith, ne),
        frame h h' y ys head halves.1
            (λ a i. ground (
              arith,
              apart a node (y ∷ ys) i g',
              back,
              Distinct-apart (last_of head xs) a (head ∷ xs) (y ∷ ys) d last i,
            ))
            (λ a i. ground (
              arith,
              i,
              apart a node (head ∷ ys),
              g',
              f',
              apart a y ys,
              r',
              Distinct-apart head y (head ∷ xs) (y ∷ ys) d,
            )),
      )
  where
    h' : Links
    h' = insert_before_devlist_node node y h

    halves : Chain h head xs y × Chain h y ys head
    halves = Chain-split h head xs y ys head c

    f' : has node (head ∷ xs) ≡ false
    f' = ground (arith, has-append node (head ∷ xs) (y ∷ ys), fresh)

    g' : has node (y ∷ ys) ≡ false
    g' = ground (arith, has-append node (head ∷ xs) (y ∷ ys), fresh)

    back : h.prev y ≡ last_of head xs
    back = Chain-prev h head xs y halves.0

    last : has (last_of head xs) (head ∷ xs) ≡ true
    last = has-last_of head xs

    r' : has y ys ≡ false
    r' = (Distinct-right (head ∷ xs) (y ∷ ys) d).0

    ne : (last_of head xs ≢ node) × (y ≢ node)
    ne = (apart (last_of head xs) node (head ∷ xs) last f', ground (arith, g'))

remove-Chain :
    (h : Links) (head : ℕ) (xs ys : List ℕ) (node : ℕ)
    → Chain h head (xs ++ node ∷ ys) head
    → Distinct (head ∷ xs ++ node ∷ ys)
    → Chain (remove_devlist_node node h).0 head (xs ++ ys) head
      × ((remove_devlist_node node h).1 ≡ first_of_ring ys head)
unfolding remove_devlist_node
remove-Chain h head xs [] node c d = (
  rw append-nil (
      retarget h h' head xs node head halves.0 (Distinct-left (head ∷ xs) (node ∷ []) d)
        (ground (arith, back, halves.1)) (ground (arith, back, halves.1))
        (λ a i n. ground (arith, back))
        (λ a i.
          ground (arith, back, halves.1, apart a head xs i, has-append head xs (node ∷ []), d.0))),
  halves.1.0,
)
  where
    h' : Links
    h' = (remove_devlist_node node h).0

    halves : Chain h head xs node × Chain h node [] head
    halves = Chain-split h head xs node [] head c

    back : h.prev node ≡ last_of head xs
    back = Chain-prev h head xs node halves.0
remove-Chain h head xs (y ∷ ys) node c d = (
  Chain-append h' head xs y ys head
      (retarget h h' head xs node y halves.0 (Distinct-left (head ∷ xs) (node ∷ y ∷ ys) d)
        (ground (arith, back, halves.1)) (ground (arith, back, halves.1))
        (λ a i n. ground (arith, back))
        (λ a i.
          ground (arith, back, halves.1, i, Distinct-apart a y (head ∷ xs) (node ∷ y ∷ ys) d)))
      (frame h h' y ys head halves.1.2
        (λ a i.
          ground
            (arith, back, i, Distinct-apart (last_of head xs) a (head ∷ xs) (node ∷ y ∷ ys) d last))
        (λ a i. ground (
          arith,
          back,
          halves.1,
          i,
          apart a y ys,
          r',
          Distinct-apart head y (head ∷ xs) (node ∷ y ∷ ys) d,
        ))),
  halves.1.0,
)
  where
    h' : Links
    h' = (remove_devlist_node node h).0

    halves : Chain h head xs node × Chain h node (y ∷ ys) head
    halves = Chain-split h head xs node (y ∷ ys) head c

    back : h.prev node ≡ last_of head xs
    back = Chain-prev h head xs node halves.0

    last : has (last_of head xs) (head ∷ xs) ≡ true
    last = has-last_of head xs

    r' : has y ys ≡ false
    r' = (Distinct-right (head ∷ xs) (node ∷ y ∷ ys) d).1.0

module _ (h : Links) (head : ℕ) (xs ys : List ℕ) (node : ℕ) where
  -- Before the node that follows `xs`, or before the head, `usbyi_insert_before_devlist_node` puts
  -- a node that is not in the ring, and keeps the ring and the order of the others.
  pub insert_before_devlist_node-IsRing :
      IsRing h head (xs ++ ys)
      → has node (head ∷ xs ++ ys) ≡ false
      → IsRing (insert_before_devlist_node node (first_of_ring ys head) h) head (xs ++ node ∷ ys)
  insert_before_devlist_node-IsRing r fresh = record {
    chain = insert-Chain h head xs ys node r.chain r.distinct fresh;
    distinct = (
      ground (arith, has-insert head node xs ys, r.distinct.0),
      Distinct-insert node xs ys r.distinct.1 (ground arith),
    );
  }

  -- `usbyi_remove_devlist_node` takes a node out of the ring, keeps the order of the others and
  -- returns the node that followed.
  pub remove_devlist_node-IsRing :
      IsRing h head (xs ++ node ∷ ys)
      → IsRing (remove_devlist_node node h).0 head (xs ++ ys)
        × ((remove_devlist_node node h).1 ≡ first_of_ring ys head)
  remove_devlist_node-IsRing r =
      let (c, e) = remove-Chain h head xs ys node r.chain r.distinct in
      (
        record {
          chain = c;
          distinct = (
            ground (arith, has-insert head node xs ys, r.distinct.0),
            Distinct-remove node xs ys r.distinct.1,
          );
        },
        e,
      )
