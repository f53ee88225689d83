-- ===== src/Tests/Utf8.antt =====
-- String descriptors of src/libusby.c on short texts.
use libusby.Base.{
  ℕ, ◌≡◌, ◌↔◌, List, [], ◌∷◌, ◌++◌, arith, length, drop, replicate, some, ok, fault, inl,
}
use libusby.Utf8.{encode_utf8, get_string_descriptor_utf8}
use libusby.Utf8.Encode.{utf8, code_bytes, IsBoundary, decode, encode_utf8-utf8, decode-encode_utf8}
use libusby.Utf8.Translate.{text_bytes}
use libusby.Utf8.Strings.{
  string_descriptor, Reads, get_string_descriptor_utf8-Reads, get_string_descriptor_utf8-fault,
}

-- "USB"
abbrev usb : List ℕ
usb = 85 ∷ 83 ∷ 66 ∷ []

abbrev zeros : ℕ → List ℕ
zeros n = replicate n 0

encode_utf8-utf8_example : (encode_utf8 4 0x20ac ≡ ok (utf8 0x20ac)) ↔ (¬ IsBoundary 0x20ac)
encode_utf8-utf8_example = encode_utf8-utf8 4 0x20ac (omega arith) (omega arith)

decode-encode_utf8_example :
    (bytes : List ℕ) × (encode_utf8 4 0x20ac ≡ ok bytes)
    × (decode (bytes ++ 33 ∷ []) ≡ some (0x20ac, 33 ∷ []))
decode-encode_utf8_example =
    decode-encode_utf8 4 0x20ac (33 ∷ []) (omega arith) (omega arith, inl (omega arith))

get_string_descriptor_utf8-Reads_example :
    (out : List ℕ) × (get_string_descriptor_utf8
        (ok (string_descriptor usb))
        (length (zeros 8))
        (zeros 8)
      ≡ ok (length out, out ++ drop (length out) (zeros 8)))
    × Reads usb out
unfolding text_bytes code_bytes
get_string_descriptor_utf8-Reads_example =
    get_string_descriptor_utf8-Reads usb (zeros 8) (ground arith) (ground arith) (ground arith)
      (ground arith)

get_string_descriptor_utf8-fault_example :
    get_string_descriptor_utf8
      (ok (string_descriptor ((usb ++ 50 ∷ 46 ∷ []) ++ 48 ∷ [])))
      (length (zeros 5))
      (zeros 5)
    ≡ fault
unfolding text_bytes code_bytes
get_string_descriptor_utf8-fault_example =
    get_string_descriptor_utf8-fault (usb ++ 50 ∷ 46 ∷ []) [] (zeros 5) 48 (ground arith)
      (ground arith) tt (ground arith) (ground arith) (ground arith)
