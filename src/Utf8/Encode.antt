-- ===== src/Utf8/Encode.antt =====
-- What `encode_utf8` of src/libusby.c writes, against UTF-8 in plain arithmetic.
use libusby.Base.{
  ℕ, zero, suc, ◌+◌, ◌-◌, ◌*◌, ◌/◌, ◌%◌, ◌≤◌, ◌<◌, ◌≡◌, sym, ap, ◌∙◌, ◌≢◌, ◌↔◌, ◌⊎◌, inl, inr, ◌&&◌,
  List, Bool, not, ◌||◌, ◌==◌, [], ◌∷◌, ◌++◌, Option, none, some, arith, ltb, leb, if◌then◌else◌,
  length, take, take_all, or_80, or_c0, or_e0, or_f0, ok,
}
use libusby.Utf8.{encode_bytes, encode_utf8}

-- One to four bytes, with the code points from which on two, three and four are taken.
abbrev pub layout : ℕ → ℕ → ℕ → ℕ → List ℕ
layout two three four cp =
    if ltb cp two
    then cp ∷ []
    else if ltb cp three
    then (0xC0 + cp / 64) ∷ (0x80 + cp % 64) ∷ []
    else if ltb cp four
    then (0xe0 + cp / 4096) ∷ (0x80 + cp / 64 % 64) ∷ (0x80 + cp % 64) ∷ []
    else (0xf0 + cp / 262144)
      ∷ (0x80 + cp / 4096 % 64)
      ∷ (0x80 + cp / 64 % 64)
      ∷ (0x80 + cp % 64)
      ∷ []

-- UTF-8 as RFC 3629 has it: each code point in the fewest bytes.
unfoldable pub utf8 : ℕ → List ℕ
utf8 cp = layout 0x80 0x800 0x10000 cp

-- What the code writes where nothing is cut off.
unfoldable pub code_bytes : ℕ → List ℕ
code_bytes cp = layout 0x7f 0x7ff 0xffff cp

pub encode_bytes-code_bytes :
    (room cp : ℕ) → 4 ≤ room → cp < 0x110000 → encode_bytes room cp ≡ code_bytes cp
unfolding encode_bytes code_bytes
encode_bytes-code_bytes room cp h k = ground (
  arith,
  or_80 (cp % 64) (omega arith),
  or_80 (cp / 64 % 64) (omega arith),
  or_80 (cp / 4096 % 64) (omega arith),
  or_c0 (cp / 64),
  or_e0 (cp / 4096),
  or_f0 (cp / 262144),
)

-- The three last code points of a length: the tests of the code exclude them.
abbrev pub IsBoundary : ℕ → Type 0
IsBoundary cp = (cp ≡ 0x7f) ⊎ (cp ≡ 0x7ff) ⊎ (cp ≡ 0xffff)

code_bytes-utf8 : (cp : ℕ) → ¬ IsBoundary cp → code_bytes cp ≡ utf8 cp
unfolding code_bytes utf8
code_bytes-utf8 cp h =
    let one : cp ≢ 0x7f = λ e. h (inl e) in
    let two : cp ≢ 0x7ff = λ e. h (inr (inl e)) in
    let three : cp ≢ 0xffff = λ e. h (inr (inr e)) in ground arith

code_bytes-ne-utf8 : (cp : ℕ) → IsBoundary cp → length (code_bytes cp) ≡ suc (length (utf8 cp))
unfolding code_bytes utf8
code_bytes-ne-utf8 cp (inl e) = ground arith
code_bytes-ne-utf8 cp (inr e) = ground arith

-- With four bytes of room, `encode_utf8` writes the UTF-8 encoding of a code point exactly
-- when the code point is none of 0x7f, 0x7ff and 0xffff.
pub encode_utf8-utf8 :
    (room cp : ℕ)
    → 4 ≤ room
    → cp < 0x110000
    → (encode_utf8 room cp ≡ ok (utf8 cp)) ↔ (¬ IsBoundary cp)
unfolding encode_utf8
encode_utf8-utf8 room cp h k = (
  λ e b. omega (
    arith,
    ap length (sym (encode_bytes-code_bytes room cp h k) ∙ bytes_eq e),
    code_bytes-ne-utf8 cp b,
  ),
  λ n. encodes ∙ ap ok (code_bytes-utf8 cp n),
)
  where
    encodes : encode_utf8 room cp ≡ ok (code_bytes cp)
    encodes = ground (arith, encode_bytes-code_bytes room cp h k)

    bytes_eq : encode_utf8 room cp ≡ ok (utf8 cp) → encode_bytes room cp ≡ utf8 cp
    bytes_eq e = ground arith

-- The continuation bytes of a code point.
continue : ℕ → ℕ → List ℕ → Option (ℕ × List ℕ)
continue zero acc bytes = some (acc, bytes)
continue (suc n) acc [] = none
continue (suc n) acc (b ∷ bytes) =
    if leb 0x80 b && ltb b 0xC0 then continue n (acc * 64 + (b - 0x80)) bytes else none

-- A code point that takes so many bytes: not less than `least`, no surrogate, not above 0x10ffff.
checked : ℕ → Option (ℕ × List ℕ) → Option (ℕ × List ℕ)
checked least none = none
checked least (some (cp, bytes)) =
    if leb least cp && ltb cp 0x110000 && not (leb 0xD800 cp && ltb cp 0xE000)
    then some (cp, bytes)
    else none

-- A decoder as RFC 3629 has it: the first byte says how many continuation bytes follow, and an
-- encoding that is longer than needed is not accepted.
unfoldable pub decode : List ℕ → Option (ℕ × List ℕ)
unfolding continue checked
decode [] = none
decode (a ∷ bytes) =
    if ltb a 0x80
    then some (a, bytes)
    else if ltb a 0xC0
    then none
    else if ltb a 0xe0
    then checked 0x80 (continue 1 (a - 0xC0) bytes)
    else if ltb a 0xf0
    then checked 0x800 (continue 2 (a - 0xe0) bytes)
    else if ltb a 0xf8
    then checked 0x10000 (continue 3 (a - 0xf0) bytes)
    else none

-- The code points that are not surrogates.
abbrev pub IsScalar : ℕ → Type 0
IsScalar cp = (cp < 0x110000) × ((cp < 0xD800) ⊎ (0xE000 ≤ cp))

abbrev pub is_boundary : ℕ → Bool
is_boundary cp = cp == 0x7f || cp == 0x7ff || cp == 0xffff

pub decode-code_bytes :
    (cp : ℕ) (rest : List ℕ)
    → IsScalar cp
    → decode (code_bytes cp ++ rest) ≡ (if is_boundary cp then none else some (cp, rest))
unfolding decode code_bytes
decode-code_bytes cp rest (h, plain) = ground (arith, h, plain)

-- Into four bytes of room `encode_utf8` writes bytes that a decoder of UTF-8 reads back as the code
-- point, whatever follows them, and it rejects them where the code point is 0x7f, 0x7ff or 0xffff.
-- The code point is at most 0x10ffff and no surrogate.
pub decode-encode_utf8 :
    (room cp : ℕ) (rest : List ℕ)
    → 4 ≤ room
    → IsScalar cp
    → (bytes : List ℕ) × (encode_utf8 room cp ≡ ok bytes)
      × (decode (bytes ++ rest) ≡ (if is_boundary cp then none else some (cp, rest)))
unfolding encode_utf8
decode-encode_utf8 room cp rest h k = (
  code_bytes cp,
  ground (arith, encode_bytes-code_bytes room cp h k.0),
  decode-code_bytes cp rest k,
)

pub length-code_bytes : (cp : ℕ) → (1 ≤ length (code_bytes cp)) × (length (code_bytes cp) ≤ 4)
unfolding code_bytes
length-code_bytes cp = ground arith

-- `encode_utf8` cuts an encoding off where the room ends: with any room it writes the first bytes
-- of what it writes into four, and never more than the room.
pub encode_utf8-take :
    (room cp : ℕ)
    → 0 < room
    → cp < 0x110000
    → (encode_utf8 room cp ≡ ok (take room (encode_bytes 4 cp)))
      × (length (take room (encode_bytes 4 cp)) ≤ room)
unfolding encode_utf8
encode_utf8-take zero cp h k = absurd (omega arith)
encode_utf8-take (suc zero) cp h k = unfold encode_bytes in ground arith
encode_utf8-take (suc (suc zero)) cp h k = unfold encode_bytes in ground arith
encode_utf8-take (suc (suc (suc zero))) cp h k = unfold encode_bytes in ground arith
encode_utf8-take (suc (suc (suc (suc room)))) cp h k = ground (
  arith,
  encode_bytes-code_bytes (suc (suc (suc (suc room)))) cp (omega arith) k,
  encode_bytes-code_bytes 4 cp (omega arith) k,
  take_all (suc (suc (suc (suc room)))) (encode_bytes 4 cp),
  length-code_bytes cp,
)
