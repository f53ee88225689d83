-- ===== src/Config/Blocks.antt =====
-- The blocks that a result of the configuration parser of src/libusby.c owns, and how many of them
-- freeing it frees.
use libusby.Base.{
  ℕ, zero, suc, ◌+◌, ◌≡◌, refl, sym, ap, ◌∙◌, ◌&&◌, Bool, true, false, List, [], ◌∷◌, ◌++◌, Option,
  some, arith, if◌then◌else◌, get_elem?, set, length, length-set, All, All-get, All-set, total,
  total-nil, total-cons, total-set, total-append, ok, Allocator, Heap, realloc,
}
use libusby.Config.{
  InterfaceDescriptor, Interface, Parse, is_null, add_altsetting, count_some, free_endpoints,
  free_interfaces, free_config_descriptor, config_of,
}

-- The blocks that hang on an alternate setting and on an interface.
abbrev pub endpoint_blocks : InterfaceDescriptor → ℕ
endpoint_blocks d = count_some d.endpoint

unfoldable pub interface_blocks : Interface → ℕ
interface_blocks x = (if is_null x.altsetting then 0 else 1) + total endpoint_blocks x.altsetting

abbrev pub Counted : Interface → Type 0
Counted x = x.num_altsetting ≡ length x.altsetting

-- Every live block of the parse is in its result, but for those that were live before it.
pub record Accounted (base : ℕ) (p : Parse) : Type 0 where
  pub sized : length p.interface ≡ p.header.b_num_interfaces
  pub counted : All Counted p.interface
  pub owned : p.heap.live ≡ base + 2 + total interface_blocks p.interface

pub free_endpoints-total :
    (ds : List InterfaceDescriptor) → free_endpoints (length ds) ds ≡ ok (total endpoint_blocks ds)
unfolding free_endpoints
free_endpoints-total [] = rw total-nil
free_endpoints-total (d ∷ ds) = rw (free_endpoints-total ds, total-cons endpoint_blocks d ds)

pub total_of_null :
    (ds : List InterfaceDescriptor) → is_null ds ≡ true → total endpoint_blocks ds ≡ 0
total_of_null [] e = total-nil endpoint_blocks
total_of_null (d ∷ ds) e = cc

pub free_interfaces-total :
    (xs : List Interface)
    → All Counted xs
    → free_interfaces (length xs) xs ≡ ok (total interface_blocks xs)
unfolding free_interfaces interface_blocks
free_interfaces-total [] a = rw total-nil
free_interfaces-total (x ∷ xs) (c, cs) = ground (
  arith,
  ap (λ (n : ℕ). free_endpoints n x.altsetting) c ∙ free_endpoints-total x.altsetting,
  free_interfaces-total xs cs,
  total-cons interface_blocks x xs,
  total_of_null x.altsetting,
)

pub free_config_descriptor-total :
    (base : ℕ) (p : Parse)
    → Accounted base p
    → free_config_descriptor (config_of p) ≡ ok (2 + total interface_blocks p.interface)
unfolding free_config_descriptor
free_config_descriptor-total base p a = ground (
  arith,
  ap (λ (n : ℕ). free_interfaces n p.interface) (sym a.sized)
      ∙ free_interfaces-total p.interface a.counted,
)

pub is_null-append :
    (ds : List InterfaceDescriptor) (d : InterfaceDescriptor) → is_null (ds ++ d ∷ []) ≡ false
is_null-append [] d = refl
is_null-append (x ∷ ds) d = refl

pub is_null-set :
    (ds : List InterfaceDescriptor) (j : ℕ) (d : InterfaceDescriptor)
    → is_null (set ds j d) ≡ is_null ds
is_null-set [] j d = refl
is_null-set (x ∷ ds) zero d = refl
is_null-set (x ∷ ds) (suc j) d = refl

pub interface_blocks_lem :
    (x : Interface)
    → interface_blocks x
      ≡ (if is_null x.altsetting then 0 else 1) + total endpoint_blocks x.altsetting
unfolding interface_blocks
interface_blocks_lem x = refl

pub interface_blocks-add :
    (x : Interface) (d : InterfaceDescriptor)
    → interface_blocks (add_altsetting x d)
      ≡ 1 + total endpoint_blocks x.altsetting + endpoint_blocks d
unfolding interface_blocks
interface_blocks-add x d = ground (
  arith,
  is_null-append x.altsetting d,
  total-append endpoint_blocks x.altsetting (d ∷ []),
  total-cons endpoint_blocks d [],
  total-nil endpoint_blocks,
)

pub realloc-live :
    (succeeds : Allocator) (null : Bool) (h : Heap)
    → (realloc succeeds null h).1.live
      ≡ h.live + (if (realloc succeeds null h).0 && null then 1 else 0)
realloc-live succeeds true h = ground arith
realloc-live succeeds false h = ground arith

-- One interface is exchanged, and the heap changes as its blocks do.
pub Accounted-set :
    (base : ℕ) (p : Parse) (i : ℕ) (x y : Interface) (at : Option (ℕ × ℕ)) (index : ℕ) (h : Heap)
    → Accounted base p
    → get_elem? p.interface i ≡ some x
    → Counted y
    → h.live + interface_blocks x ≡ p.heap.live + interface_blocks y
    → Accounted base (record {
      header = p.header;
      interface = set p.interface i y;
      intf_desc = at;
      endp_desc_index = index;
      heap = h;
    })
Accounted-set base p i x y at index h a e c live = record {
  sized = length-set p.interface i y ∙ a.sized;
  counted = All-set Counted p.interface i y a.counted c;
  owned = omega (arith, total-set interface_blocks p.interface i x y e, a.owned, live);
}

-- An alternate setting exchanged for one with as many blocks.
pub Accounted-altsetting :
    (base : ℕ) (p : Parse) (i j index : ℕ) (x : Interface) (d d' : InterfaceDescriptor)
    → Accounted base p
    → get_elem? p.interface i ≡ some x
    → get_elem? x.altsetting j ≡ some d
    → endpoint_blocks d' ≡ endpoint_blocks d
    → Accounted base (record p {
      interface = set p.interface i (record x { altsetting = set x.altsetting j d' });
      endp_desc_index = index;
    })
Accounted-altsetting base p i j index x d d' a e e' same =
    Accounted-set base p i x _ _ _ _ a e
      (All-get Counted p.interface i x a.counted e ∙ sym (length-set x.altsetting j d'))
      (ground (
        arith,
        interface_blocks_lem x,
        interface_blocks_lem (record x { altsetting = set x.altsetting j d' }),
        is_null-set x.altsetting j d',
        total-set endpoint_blocks x.altsetting j d d' e',
      ))
