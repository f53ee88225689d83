-- ===== src/Utf8.antt =====
-- Strings of src/libusby.c: `encode_utf8` and the loop of `libusby_get_string_descriptor_utf8`,
-- which turns the UTF-16LE units of a string descriptor into UTF-8. `data` is the caller's buffer
-- of `length` bytes. The assert of `encode_utf8` on the room left is kept: without room the call is
-- a fault. A C int below 0 is read as 0 there, with the same outcome.
pub mod Encode
pub mod Buffer
pub mod Translate
pub mod Strings
pub mod Pairs
use libusby.Base.{
  ℕ, ◌+◌, ◌-◌, ◌*◌, ◌%◌, ◌^◌, Bool, not, ◌&&◌, ◌||◌, List, [], ◌∷◌, ◌++◌, bit_or, ltb, leb, ◌==◌,
  if◌then◌else◌, length, take, drop, set, get_or, shr, low_bits, word, Outcome, ok, err, fault,
  ◌>>=◌, io,
}

-- `if (res < length) data[res++] = b;`, over the bytes written so far.
abbrev pub put : ℕ → ℕ → List ℕ → List ℕ
put room b bytes = if ltb (length bytes) room then bytes ++ b ∷ [] else bytes

abbrev continuation : ℕ → ℕ
continuation x = bit_or 0x80 (low_bits x 6)

-- The bytes that `encode_utf8` writes where `room` bytes are left.
unfoldable pub encode_bytes : ℕ → ℕ → List ℕ
encode_bytes room cp =
    if ltb cp 0x7f
    then cp ∷ []
    else if ltb cp 0x7ff
    then put room (continuation cp) (bit_or 0xC0 (shr cp 6) ∷ [])
    else if ltb cp 0xffff
    then put room (continuation cp)
        (put room (continuation (shr cp 6)) (bit_or 0xe0 (shr cp 12) ∷ []))
    else put room (continuation cp) (
        put room (continuation (shr cp 6))
          (put room (continuation (shr cp 12)) (bit_or 0xf0 (shr cp 18) ∷ [])))

unfoldable pub encode_utf8 : ℕ → ℕ → Outcome (List ℕ)
encode_utf8 room cp = if room == 0 || leb 0x110000 cp then fault else ok (encode_bytes room cp)

-- The variables of the loop. `high_surrogate` is 0 where none is pending.
pub record Text : Type 0 where
  pub bytes : List ℕ
  pub data_len : ℕ
  pub encoded_len : ℕ
  pub high_surrogate : ℕ

-- Writes into the buffer from an offset on.
pub blit : List ℕ → ℕ → List ℕ → List ℕ
blit buffer off [] = buffer
blit buffer off (b ∷ bs) = blit (set buffer off b) (off + 1) bs

-- `((uint32_t)(high_surrogate - 0xD800) << 10) | (cu - 0xDC00)`
pub join_surrogates : ℕ → ℕ → ℕ
join_surrogates high cu = bit_or ((high - 0xD800) * 2 ^ 10) (cu - 0xDC00)

pub is_low : ℕ → Bool
is_low cu = leb 0xDC00 cu && ltb cu 0xE000

pub is_high : ℕ → Bool
is_high cu = leb 0xD800 cu && ltb cu 0xDC00

-- `encoded_len = encode_utf8(…); data_len += encoded_len;`, with no surrogate pending after it.
abbrev pub append_code : ℕ → ℕ → Text → Outcome Text
append_code len cp s = encode_utf8 (len - s.data_len) cp >>= λ code. ok (record {
  bytes = blit s.bytes s.data_len code;
  data_len = s.data_len + length code;
  encoded_len = length code;
  high_surrogate = 0;
})

-- One round of the loop. A high surrogate writes nothing, and `data_len` grows by the
-- `encoded_len` of the round before.
unfoldable pub unit : ℕ → ℕ → Text → Outcome Text
unfolding is_low is_high
unit len cu s =
    if is_low cu
    then (if s.high_surrogate == 0
        then err io
        else append_code len (join_surrogates s.high_surrogate cu) s)
    else if is_high cu
    then (if s.high_surrogate == 0
        then ok (record s { data_len = s.data_len + s.encoded_len; high_surrogate = cu })
        else err io)
    else if s.high_surrogate == 0
    then append_code len cu s
    else err io

-- The loop, with the units that it leaves when the test on `encoded_len` ends it.
unfoldable pub translate : ℕ → List ℕ → Text → Outcome (List ℕ × Text)
translate len [] s = ok ([], s)
translate len (cu ∷ rest) s =
    if ltb s.encoded_len len
    then (unit len cu s >>= λ t. translate len rest t)
    else ok (cu ∷ rest, s)

-- `utf16_buf[i] | (utf16_buf[i+1] << 8)` for i = 2, 4, …
unfoldable pub code_units : List ℕ → List ℕ
code_units [] = []
code_units (lo ∷ []) = []
code_units (lo ∷ hi ∷ rest) = word lo hi ∷ code_units rest

abbrev pub start_text : List ℕ → Text
start_text buffer = record { bytes = buffer; data_len = 0; encoded_len = 0; high_surrogate = 0 }

-- `if (i == r && high_surrogate) return LIBUSBY_ERROR_IO;`
abbrev pub finish : List ℕ × Text → Outcome (ℕ × List ℕ)
finish ([], s) = if s.high_surrogate == 0 then ok (s.data_len, s.bytes) else err io
finish (cu ∷ rest, s) = ok (s.data_len, s.bytes)

-- The number of bytes of the descriptor that count: `r`, cut down to its length field.
abbrev pub descriptor_len : List ℕ → ℕ
descriptor_len raw = if ltb (get_or raw 0 0) (length raw) then get_or raw 0 0 else length raw

-- `libusby_get_string_descriptor_utf8`, given what `libusby_get_string_descriptor` returned: an
-- error, or the bytes that it put into `utf16_buf`, as many as its return value says.
unfoldable pub get_string_descriptor_utf8 : Outcome (List ℕ) → ℕ → List ℕ → Outcome (ℕ × List ℕ)
get_string_descriptor_utf8 answer len buffer = answer >>= λ raw.
    if ltb (length raw) 2 || not (get_or raw 1 0 == 3)
    then err io
    else if descriptor_len raw % 2 == 0
    then (translate len (code_units (take (descriptor_len raw - 2) (drop 2 raw)))
          (start_text buffer)
        >>= finish)
    else err io
