-- ===== src/Config.antt =====
-- Configuration descriptors of src/libusby.c: `usbyi_sanitize_config_descriptor` and
-- `libusby_free_config_descriptor`, over the descriptor structs of src/libusby.h.
-- An array behind a pointer is a list; a pointer that the code tests is an `Option`. For
-- `altsetting` the empty list is the null pointer, since the code never allocates an empty array
-- there. `intf_desc`, a pointer into the arrays, is the pair of its indices.
-- The host is little-endian (the source says so too: its FIXME on byte order).
-- Memory is counted, as in Base/Memory.antt.
-- The loop runs on fuel, one round for each byte and one more; a round takes two bytes or more.
mod Descriptors
pub mod Loop
pub mod Blocks
pub mod Memory
pub mod Room
pub mod Safety
unfoldable pub use Descriptors.*
use libusby.Base.{
  ℕ, zero, suc, ◌+◌, ◌-◌, Bool, true, false, not, ◌&&◌, ◌||◌, List, [], ◌∷◌, ◌++◌, Option, none,
  some, ltb, leb, ◌==◌, if◌then◌else◌, length, get_elem?, get_or, set, drop, replicate, word,
  Outcome, ok, err, fault, stuck, ◌>>=◌, io, no_mem, Allocator, Heap, malloc, realloc,
}

-- The variables of the loop; `rawdesc` and `wTotalLength` are arguments of it.
pub record Parse : Type 0 where
  pub header : ConfigHeader
  pub interface : List Interface
  pub intf_desc : Option (ℕ × ℕ)
  pub endp_desc_index : ℕ
  pub heap : Heap

-- Where control goes: on, to the label `error`, or nowhere.
pub data Flow : Type 0 where
  go : Parse → Flow
  goto_error : Parse → Flow
  crash : Flow
  out_of_fuel : Flow

abbrev pub and_then : Flow → (Parse → Flow) → Flow
and_then (go p) k = k p
and_then (goto_error p) k = goto_error p
and_then crash k = crash
and_then out_of_fuel k = out_of_fuel

-- A pointer, or an element of an array, that the code uses without a test.
abbrev pub deref {ℓ} : {A : Type ℓ} → Option A → (A → Flow) → Flow
deref none k = crash
deref (some a) k = k a

abbrev pub is_null : List InterfaceDescriptor → Bool
is_null [] = true
is_null (d ∷ ds) = false

-- `*intf_desc`
abbrev pub altsetting_at : List Interface → ℕ × ℕ → Option InterfaceDescriptor
altsetting_at interfaces (i, j) = elim (get_elem? interfaces i) [
  | none ↦ none
  | some intf ↦ get_elem? intf.altsetting j
]

-- `if (intf_desc && endp_desc_index != intf_desc->bNumEndpoints) goto error;`
unfoldable pub check_endpoints : Parse → Flow
check_endpoints p = elim p.intf_desc [
  | none ↦ go p
  | some at ↦
      deref (altsetting_at p.interface at)
        λ d. if p.endp_desc_index == d.b_num_endpoints then go p else goto_error p
]

-- The new alternate setting stands behind the others of `interface[i]`.
abbrev pub add_altsetting : Interface → InterfaceDescriptor → Interface
add_altsetting intf d = record {
  altsetting = intf.altsetting ++ d ∷ [];
  num_altsetting = intf.num_altsetting + 1;
}

-- The two allocations of an interface descriptor.
unfoldable pub append_altsetting : Allocator → List ℕ → Parse → ℕ → Interface → Flow
append_altsetting succeeds raw p i intf =
    let (moved, heap) = realloc succeeds (is_null intf.altsetting) p.heap in
    let (made, heap') = malloc succeeds heap in
    let blank = interface_descriptor raw none in
    let full = interface_descriptor raw (some (replicate (get_or raw 4 0) zero_endpoint)) in
    if moved
    then (if made
        then go (record p {
          interface = set p.interface i (add_altsetting intf full);
          intf_desc = some (i, get_or raw 3 0);
          endp_desc_index = 0;
          heap = heap';
        })
        else goto_error
            (record p { interface = set p.interface i (add_altsetting intf blank); heap = heap' }))
    else goto_error (record p { heap = heap })

-- The branch for an interface descriptor.
unfoldable pub on_interface : Allocator → List ℕ → Parse → Flow
on_interface succeeds raw p = and_then (check_endpoints p) λ p.
    if not (get_or raw 0 0 == 9)
    then goto_error p
    else if ltb (length raw) 9
    then crash
    else if leb p.header.b_num_interfaces (get_or raw 2 0)
    then goto_error p
    else deref (get_elem? p.interface (get_or raw 2 0)) λ intf.
      if get_or raw 3 0 == intf.num_altsetting
      then append_altsetting succeeds raw p (get_or raw 2 0) intf
      else goto_error p

-- `memcpy(&intf_desc->endpoint[endp_desc_index++], rawdesc, 7)`. The code tests neither the
-- pointer nor the index.
unfoldable pub store_endpoint : List ℕ → Parse → ℕ × ℕ → Flow
store_endpoint raw p (i, j) = deref (get_elem? p.interface i) λ intf.
    deref (get_elem? intf.altsetting j) λ d. deref d.endpoint λ endpoints.
      if ltb p.endp_desc_index (length endpoints)
      then go (record p {
        interface = set p.interface i (record intf {
          altsetting = set intf.altsetting j (record d {
            endpoint = some (set endpoints p.endp_desc_index (endpoint_descriptor raw));
          });
        });
        endp_desc_index = p.endp_desc_index + 1;
      })
      else crash

-- The branch for an endpoint descriptor.
unfoldable pub on_endpoint : List ℕ → Parse → Flow
on_endpoint raw p =
    if not (get_or raw 0 0 == 7)
    then goto_error p
    else if ltb (length raw) 7
    then crash
    else deref p.intf_desc (store_endpoint raw p)

-- The body of the loop behind the test of the length; descriptors of other types are skipped.
unfoldable pub on_descriptor : Allocator → List ℕ → Parse → Flow
on_descriptor succeeds raw p = deref (get_elem? raw 1) λ kind.
    if kind == 4 then on_interface succeeds raw p else if kind == 5 then on_endpoint raw p else go p

-- `while (wTotalLength != 0)`
unfoldable pub walk : Allocator → ℕ → List ℕ → ℕ → Parse → Flow
walk succeeds zero raw total p = out_of_fuel
walk succeeds (suc fuel) raw total p =
    if total == 0
    then go p
    else deref (get_elem? raw 0) λ desclen.
      if ltb total desclen || ltb desclen 2
      then goto_error p
      else and_then (on_descriptor succeeds raw p)
          λ q. walk succeeds fuel (drop desclen raw) (total - desclen) q

-- `for (i = 0; i < res->bNumInterfaces; ++i)`: has every interface an alternate setting?
unfoldable pub all_present : ℕ → List Interface → Outcome Bool
all_present zero xs = ok true
all_present (suc n) [] = fault
all_present (suc n) (x ∷ xs) =
    let rest = all_present n xs in if x.num_altsetting == 0 then ok false else rest

-- `libusby_free_config_descriptor`, with the number of blocks that it frees.
abbrev pub count_some : Option (List EndpointDescriptor) → ℕ
count_some none = 0
count_some (some es) = 1

unfoldable pub free_endpoints : ℕ → List InterfaceDescriptor → Outcome ℕ
free_endpoints zero ds = ok 0
free_endpoints (suc n) [] = fault
free_endpoints (suc n) (d ∷ ds) =
    free_endpoints n ds >>= λ freed. ok (count_some d.endpoint + freed)

unfoldable pub free_interfaces : ℕ → List Interface → Outcome ℕ
free_interfaces zero xs = ok 0
free_interfaces (suc n) [] = fault
free_interfaces (suc n) (x ∷ xs) =
    (if is_null x.altsetting
      then ok 0
      else (free_endpoints x.num_altsetting x.altsetting >>= λ freed. ok (freed + 1)))
    >>= λ here. free_interfaces n xs >>= λ freed. ok (here + freed)

unfoldable pub free_config_descriptor : ConfigDescriptor → Outcome ℕ
unfolding free_interfaces free_endpoints
free_config_descriptor c = elim c.interface [
  | none ↦ ok 1
  | some xs ↦ free_interfaces c.header.b_num_interfaces xs >>= λ freed. ok (freed + 2)
]

-- `error:`
abbrev pub give_up : ConfigDescriptor → Heap → Outcome ConfigDescriptor × Heap
give_up c h = elim (free_config_descriptor c) [
  | ok freed ↦ (err io, record h { live = h.live - freed })
  | _ ↦ (fault, h)
]

abbrev pub config_of : Parse → ConfigDescriptor
config_of p = record { header = p.header; interface = some p.interface }

-- What follows the loop, and the label `error`.
unfoldable pub conclude : Flow → Heap → Outcome ConfigDescriptor × Heap
conclude (go p) h = elim (all_present p.header.b_num_interfaces p.interface) [
  | ok true ↦ (ok (config_of p), p.heap)
  | ok false ↦ give_up (config_of p) p.heap
  | _ ↦ (fault, h)
]
conclude (goto_error p) h = give_up (config_of p) p.heap
conclude crash h = (fault, h)
conclude out_of_fuel h = (stuck, h)

abbrev pub no_altsetting : Interface
no_altsetting = record { altsetting = []; num_altsetting = 0 }

unfoldable pub start_parse : List ℕ → Heap → Parse
unfolding config_header
start_parse raw h = record {
  header = config_header raw;
  interface = replicate (get_or raw 4 0) no_altsetting;
  intf_desc = none;
  endp_desc_index = 0;
  heap = h;
}

-- `usbyi_sanitize_config_descriptor` over the bytes at `rawdesc`.
unfoldable pub sanitize_config_descriptor :
    Allocator → List ℕ → ℕ → Heap → Outcome ConfigDescriptor × Heap
sanitize_config_descriptor succeeds raw total h =
    let (made, heap) = malloc succeeds h in
    let (made', heap') = malloc succeeds heap in
    if ltb total 9
    then (err io, h)
    else if ltb (length raw) 9
    then (fault, h)
    else if not (get_or raw 1 0 == 2) || not (get_or raw 0 0 == 9)
    then (err io, h)
    else if not made
    then (err no_mem, heap)
    else if not made'
    then give_up (record { header = config_header raw; interface = none }) heap'
    else conclude
        (and_then (walk succeeds (total - 9 + 1) (drop 9 raw) (total - 9) (start_parse raw heap'))
          check_endpoints)
        h
