-- ===== src/Utf8/Strings.antt =====
-- `libusby_get_string_descriptor_utf8` of src/libusby.c on whole descriptors.
use libusby.Base.{
  ℕ, ◌+◌, ◌-◌, ◌*◌, ◌/◌, ◌%◌, ◌≤◌, ◌<◌, ◌≡◌, refl, ap, ◌∙◌, List, [], ◌∷◌, ◌++◌, append-nil, some,
  arith, length, length-append, take_all, drop, word_lem, Outcome, ok, fault, ◌>>=◌, Bool, false,
  none, ◌||◌, if-false,
}
use native.Mathlib.Nat.{zero-add}
use libusby.Utf8.{Text, translate, code_units, start_text, finish, get_string_descriptor_utf8}
use libusby.Utf8.Encode.{decode, decode-code_bytes, is_boundary}
use libusby.Utf8.Translate.{
  IsPlain, AllPlain, text_bytes, filled, last_len, translate-prefix, translate-overlong,
}

-- The bytes of the units, low byte first, and the descriptor that holds them.
unfoldable pub unit_bytes : List ℕ → List ℕ
unit_bytes [] = []
unit_bytes (cu ∷ us) = (cu % 256) ∷ (cu / 256) ∷ unit_bytes us

unfoldable pub string_descriptor : List ℕ → List ℕ
string_descriptor us = (2 * length us + 2) ∷ 3 ∷ unit_bytes us

abbrev pub AllUnits : List ℕ → Type 0
AllUnits [] = Unit {0}
AllUnits (cu ∷ us) = (cu < 0x10000) × AllUnits us

length-unit_bytes : (us : List ℕ) → length (unit_bytes us) ≡ 2 * length us
unfolding unit_bytes
length-unit_bytes [] = refl
length-unit_bytes (cu ∷ us) = omega (arith, length-unit_bytes us)

code_units-unit_bytes : (us : List ℕ) → AllUnits us → code_units (unit_bytes us) ≡ us
unfolding code_units unit_bytes
code_units-unit_bytes [] a = refl
code_units-unit_bytes (cu ∷ us) (h, a) =
    rw (code_units-unit_bytes us a, word_lem (cu % 256) (cu / 256) (omega arith) (omega arith))
      (ap (λ (n : ℕ). n ∷ us) (omega arith))

-- On a descriptor the function runs its loop over the units. 126 units make 254 bytes, the most
-- that an even length byte can say.
pub get_string_descriptor_utf8-string_descriptor :
    (us buffer : List ℕ) (len : ℕ)
    → AllUnits us
    → length us ≤ 126
    → get_string_descriptor_utf8 (ok (string_descriptor us)) len buffer
      ≡ (translate len us (start_text buffer) >>= finish)
unfolding get_string_descriptor_utf8 string_descriptor
get_string_descriptor_utf8-string_descriptor us buffer len a h = ground (
  arith,
  length-unit_bytes us,
  take_all (2 * length us + 2 - 2) (unit_bytes us),
  code_units-unit_bytes us a,
)

pub AllPlain-AllUnits : (us : List ℕ) → AllPlain us → AllUnits us
AllPlain-AllUnits [] p = tt
AllPlain-AllUnits (cu ∷ us) (p, ps) = (p.0, AllPlain-AllUnits us ps)

pub AllUnits-append : (us vs : List ℕ) → AllUnits us → AllUnits vs → AllUnits (us ++ vs)
AllUnits-append [] vs p q = q
AllUnits-append (cu ∷ us) vs (p, ps) q = (p, AllUnits-append us vs ps q)

-- The call on plain text that fits, and what follows it, from where the text has been written.
pub get_string_descriptor_utf8-prefix :
    (us rest buffer : List ℕ)
    → AllPlain us
    → AllUnits rest
    → length (us ++ rest) ≤ 126
    → length (text_bytes us) ≤ length buffer
    → get_string_descriptor_utf8 (ok (string_descriptor (us ++ rest))) (length buffer) buffer ≡ (
        translate (length buffer) rest (filled [] (text_bytes us) buffer (last_len 0 us))
        >>= finish)
get_string_descriptor_utf8-prefix us rest buffer p a h fits =
    get_string_descriptor_utf8-string_descriptor (us ++ rest) buffer (length buffer)
      (AllUnits-append us rest (AllPlain-AllUnits us p) a) h
    ∙ ap (λ (m : Outcome (List ℕ × Text)). m >>= finish)
        (translate-prefix (length buffer) 0 us rest [] buffer p (omega arith) (omega arith) fits)

-- `bytes` is UTF-8 for exactly these code points.
abbrev pub Reads : List ℕ → List ℕ → Type 0
Reads [] bytes = bytes ≡ []
Reads (cp ∷ cps) bytes = (rest : List ℕ) × (decode bytes ≡ some (cp, rest)) × Reads cps rest

-- None of the units is 0x7f, 0x7ff or 0xffff.
abbrev pub has_boundary : List ℕ → Bool
has_boundary [] = false
has_boundary (cu ∷ us) = is_boundary cu || has_boundary us

text_bytes-Reads : (us : List ℕ) → AllPlain us → has_boundary us ≡ false → Reads us (text_bytes us)
unfolding text_bytes
text_bytes-Reads [] p n = refl
text_bytes-Reads (cu ∷ us) (p, ps) n = (
  text_bytes us,
  decode-code_bytes cu (text_bytes us) (omega arith, p.1)
      ∙ if-false (is_boundary cu) none (some (cu, text_bytes us)) (ground (arith, n)),
  text_bytes-Reads us ps (ground (arith, n)),
)

-- A descriptor of plain text without 0x7f, 0x7ff and 0xffff, whose encoding fits the buffer: the
-- call returns the number of bytes written, those bytes are UTF-8 for the text, and the rest of the
-- buffer is as before.
pub get_string_descriptor_utf8-Reads :
    (us buffer : List ℕ)
    → AllPlain us
    → has_boundary us ≡ false
    → length us ≤ 126
    → length (text_bytes us) ≤ length buffer
    → (out : List ℕ) × (get_string_descriptor_utf8
          (ok (string_descriptor us))
          (length buffer)
          buffer
        ≡ ok (length out, out ++ drop (length out) buffer))
      × Reads us out
get_string_descriptor_utf8-Reads us buffer p n h fits = (
  text_bytes us,
  rw (append-nil us) at (
        get_string_descriptor_utf8-prefix us [] buffer p tt (omega (arith, length-append us []))
          fits)
      ∙ unfold translate in rw zero-add,
  text_bytes-Reads us p n,
)

-- Plain text that does not end where the buffer is full, a buffer of five bytes or more: the call
-- runs into the assert of `encode_utf8`.
pub get_string_descriptor_utf8-fault :
    (us rest buffer : List ℕ) (next : ℕ)
    → AllPlain us
    → IsPlain next
    → AllUnits rest
    → length (us ++ next ∷ rest) ≤ 126
    → 4 < length buffer
    → length buffer ≤ length (text_bytes us)
    → get_string_descriptor_utf8 (ok (string_descriptor (us ++ next ∷ rest))) (length buffer) buffer
      ≡ fault
get_string_descriptor_utf8-fault us rest buffer next p pn a h big full =
    get_string_descriptor_utf8-string_descriptor (us ++ next ∷ rest) buffer (length buffer)
      (AllUnits-append us (next ∷ rest) (AllPlain-AllUnits us p) (pn.0, a)) h
    ∙ ap (λ (m : Outcome (List ℕ × Text)). m >>= finish)
        (translate-overlong (length buffer) 0 next us rest [] buffer p pn big (omega arith)
          (omega arith) full)
