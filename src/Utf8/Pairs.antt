-- ===== src/Utf8/Pairs.antt =====
-- Surrogates in `libusby_get_string_descriptor_utf8` of src/libusby.c.
use libusby.Base.{
  ℕ, ◌+◌, ◌-◌, ◌*◌, ◌≤◌, ◌<◌, ◌≡◌, ap, ◌∙◌, ◌⊎◌, inl, inr, List, [], ◌∷◌, ◌++◌, arith, length,
  or_shift, Outcome, ok, err, ◌>>=◌, io,
}
use libusby.Utf8.{Text, join_surrogates, unit, translate, finish, get_string_descriptor_utf8}
use libusby.Utf8.Encode.{code_bytes}
use libusby.Utf8.Translate.{AllPlain, text_bytes, text, last_len, last_len-le}
use libusby.Utf8.Strings.{string_descriptor, AllUnits, get_string_descriptor_utf8-prefix}

-- A high and a low surrogate.
pub record IsPair (high low : ℕ) : Type 0 where
  pub high_from : 0xD800 ≤ high
  pub high_below : high < 0xDC00
  pub low_from : 0xDC00 ≤ low
  pub low_below : low < 0xE000

-- The code point that UTF-16 gives the pair.
abbrev pub code_point : ℕ → ℕ → ℕ
code_point high low = (high - 0xD800) * 1024 + (low - 0xDC00) + 0x10000

module _ (high low : ℕ) (pair : IsPair high low) where
  pub join_surrogates_lem : join_surrogates high low + 0x10000 ≡ code_point high low
  unfolding join_surrogates
  join_surrogates_lem = omega (arith, or_shift 10 (high - 0xD800) (low - 0xDC00))

  abbrev pub code : List ℕ
  code = code_bytes (join_surrogates high low)

translate-low :
    (len n e low : ℕ) (rest bytes : List ℕ)
    → (0xDC00 ≤ low) × (low < 0xE000)
    → e < len
    → translate len (low ∷ rest) (text bytes n e) ≡ err io
unfolding translate unit
translate-low len n e low rest bytes l h = ground arith

-- Units that no high surrogate may be followed by: none, or one that is no low surrogate.
abbrev pub NoLow : List ℕ → Type 0
NoLow [] = Unit {0}
NoLow (next ∷ more) = (next < 0xDC00) ⊎ (0xE000 ≤ next)

translate-high :
    (len n e high : ℕ) (rest bytes : List ℕ)
    → (0xD800 ≤ high) × (high < 0xDC00)
    → NoLow rest
    → e < len
    → (translate len (high ∷ rest) (text bytes n e) >>= finish) ≡ err io
unfolding translate unit
translate-high len n e high [] bytes l next h = ground arith
translate-high len n e high (x ∷ more) bytes l (inl b) h = ground arith
translate-high len n e high (x ∷ more) bytes l (inr b) h = ground arith

-- A low surrogate with none before it, after plain text that leaves room: an I/O error.
pub get_string_descriptor_utf8-lone_low :
    (us rest buffer : List ℕ) (low : ℕ)
    → AllPlain us
    → AllUnits rest
    → (0xDC00 ≤ low) × (low < 0xE000)
    → length (us ++ low ∷ rest) ≤ 126
    → length (text_bytes us) < length buffer
    → get_string_descriptor_utf8 (ok (string_descriptor (us ++ low ∷ rest))) (length buffer) buffer
      ≡ err io
get_string_descriptor_utf8-lone_low us rest buffer low p a l h room =
    get_string_descriptor_utf8-prefix us (low ∷ rest) buffer p (omega arith, a) h (omega arith)
    ∙ ap (λ (m : Outcome (List ℕ × Text)). m >>= finish)
        (translate-low (length buffer) _ (last_len 0 us) low rest _ l
          (omega (arith, last_len-le 0 0 us (omega arith))))

-- A high surrogate with no low one behind it: an I/O error too, whether text follows or not.
get_string_descriptor_utf8-lone_high :
    (us rest buffer : List ℕ) (high : ℕ)
    → AllPlain us
    → AllUnits rest
    → (0xD800 ≤ high) × (high < 0xDC00)
    → NoLow rest
    → length (us ++ high ∷ rest) ≤ 126
    → length (text_bytes us) < length buffer
    → get_string_descriptor_utf8 (ok (string_descriptor (us ++ high ∷ rest))) (length buffer) buffer
      ≡ err io
get_string_descriptor_utf8-lone_high us rest buffer high p a l next h room =
    get_string_descriptor_utf8-prefix us (high ∷ rest) buffer p (omega arith, a) h (omega arith)
    ∙ translate-high (length buffer) _ (last_len 0 us) high rest _ l next
        (omega (arith, last_len-le 0 0 us (omega arith)))
