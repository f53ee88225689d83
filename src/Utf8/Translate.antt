-- ===== src/Utf8/Translate.antt =====
-- The loop of `libusby_get_string_descriptor_utf8` on text without surrogates.
use libusby.Base.{
  ℕ, zero, suc, ◌+◌, ◌-◌, ◌≤◌, ◌<◌, ◌≡◌, refl, sym, ap, ◌∙◌, ◌⊎◌, List, [], ◌∷◌, ◌++◌, append_assoc,
  arith, lt→ltb, length, length-append, take, take_all, drop, length-take, length-drop, ok, fault,
}
use native.Mathlib.Nat.{zero-add, add-zero, add_assoc}
use native.Mathlib.Decide.{dec_lt}
use Prim.Native.Nat.add
use libusby.Utf8.{Text, encode_utf8, unit, translate}
use libusby.Utf8.Encode.{code_bytes, encode_bytes-code_bytes, encode_utf8-take, length-code_bytes}
use libusby.Utf8.Buffer.{blit-append}

-- A unit that stands for a code point by itself.
abbrev pub IsPlain : ℕ → Type 0
IsPlain cu = (cu < 0x10000) × ((cu < 0xD800) ⊎ (0xE000 ≤ cu))

abbrev pub AllPlain : List ℕ → Type 0
AllPlain [] = Unit {0}
AllPlain (cu ∷ us) = IsPlain cu × AllPlain us

-- The encodings of all units, one behind the other.
unfoldable pub text_bytes : List ℕ → List ℕ
text_bytes [] = []
text_bytes (cu ∷ us) = code_bytes cu ++ text_bytes us

pub encode_utf8-room :
    (room cp : ℕ) → 0 < room → cp < 0x110000 → encode_utf8 room cp ≡ ok (take room (code_bytes cp))
encode_utf8-room room cp h k =
    (encode_utf8-take room cp h k).0
    ∙ ap (λ (b : List ℕ). ok (take room b)) (encode_bytes-code_bytes 4 cp (omega arith) k)

abbrev pub text : List ℕ → ℕ → ℕ → Text
text bytes n e = record { bytes = bytes; data_len = n; encoded_len = e; high_surrogate = 0 }

-- A plain unit with room left: as much of its encoding as fits is written.
pub unit-plain :
    (len cu e : ℕ) (front old back : List ℕ)
    → IsPlain cu
    → length front < len
    → length old ≡ length (take (len - length front) (code_bytes cu))
    → unit len cu (text (front ++ (old ++ back)) (length front) e)
      ≡ ok (
          text
            (front ++ (take (len - length front) (code_bytes cu) ++ back))
            (length front + length (take (len - length front) (code_bytes cu)))
            (length (take (len - length front) (code_bytes cu))))
unfolding unit
unit-plain len cu e front old back p h k = ground (
  arith,
  encode_utf8-room (len - length front) cu,
  blit-append (take (len - length front) (code_bytes cu)) front old back,
)

pub take-drop : (n : ℕ) (xs : List ℕ) → take n xs ++ drop n xs ≡ xs
take-drop zero xs = refl
take-drop (suc n) [] = refl
take-drop (suc n) (x ∷ xs) = ap (◌∷◌ x) (take-drop n xs)

-- What a round writes with `front` written already.
abbrev pub cut : ℕ → ℕ → List ℕ → List ℕ
cut len cu front = take (len - length front) (code_bytes cu)

module _ (len cu e : ℕ) (us front back : List ℕ) (p : IsPlain cu) (h : length front < len)
    (test : e < len) (size : len ≡ length front + length back) where
  cut-le-back : length (cut len cu front) ≤ length back
  cut-le-back = omega (arith, length-take (len - length front) (code_bytes cu))

  pub translate_step :
      translate len (cu ∷ us) (text (front ++ back) (length front) e)
      ≡ translate len us (
          text
            ((front ++ cut len cu front) ++ drop (length (cut len cu front)) back)
            (length (front ++ cut len cu front))
            (length (cut len cu front)))
  unfolding translate
  translate_step =
      let n : ℕ = length (cut len cu front) in
      rw (
        lt→ltb e len test,
        ap (λ (b : List ℕ). unit len cu (text (front ++ b) (length front) e))
            (sym (take-drop n back)),
        unit-plain len cu e front (take n back) (drop n back) p h
            (omega (arith, length-take n back, cut-le-back)),
        append_assoc front (cut len cu front),
        length-append front (cut len cu front),
      )

text_bytes-pos : (cu : ℕ) (us : List ℕ) → 0 < length (text_bytes (cu ∷ us))
unfolding text_bytes
text_bytes-pos cu us =
    omega (arith, length-append (code_bytes cu) (text_bytes us), length-code_bytes cu)

drop-drop : (m n : ℕ) (xs : List ℕ) → drop n (drop m xs) ≡ drop (m + n) xs
drop-drop zero n xs = rw zero-add
drop-drop (suc m) zero [] = ground (arith, add.suc m 0)
drop-drop (suc m) (suc n) [] = rw add.suc
drop-drop (suc m) n (x ∷ xs) = rw add.suc (drop-drop m n xs)

-- The `encoded_len` after plain text: of its last unit, or the one before where there is no text.
unfoldable pub last_len : ℕ → List ℕ → ℕ
last_len e [] = e
last_len e (cu ∷ us) = last_len (length (code_bytes cu)) us

pub last_len-pos : (e : ℕ) (us : List ℕ) → 0 < e → 0 < last_len e us
unfolding last_len
last_len-pos e [] h = h
last_len-pos e (cu ∷ us) h = last_len-pos (length (code_bytes cu)) us (length-code_bytes cu).0

pub last_len-le : (n e : ℕ) (us : List ℕ) → e ≤ n → last_len e us ≤ n + length (text_bytes us)
unfolding last_len text_bytes
last_len-le n e [] h = omega arith
last_len-le n e (cu ∷ us) h = omega (
  arith,
  last_len-le (n + length (code_bytes cu)) (length (code_bytes cu)) us (omega arith),
  length-append (code_bytes cu) (text_bytes us),
)

-- The state after `bytes` went over the start of `back`.
abbrev pub filled : List ℕ → List ℕ → List ℕ → ℕ → Text
filled front bytes back e =
    text (front ++ (bytes ++ drop (length bytes) back)) (length front + length bytes) e

filled-append :
    (front code bytes back : List ℕ) (e : ℕ)
    → filled (front ++ code) bytes (drop (length code) back) e ≡ filled front (code ++ bytes) back e
filled-append front code bytes back e = rw (
  append_assoc front code (bytes ++ drop (length bytes) (drop (length code) back)),
  append_assoc code bytes (drop (length (code ++ bytes)) back),
  length-append front code,
  length-append code bytes,
  drop-drop (length code) (length bytes) back,
  add_assoc (length front),
)

-- Plain text whose encoding fits: the loop writes it and changes no other byte.
pub translate-prefix :
    (len e : ℕ) (us rest front back : List ℕ)
    → AllPlain us
    → e ≤ length front
    → len ≡ length front + length back
    → length (text_bytes us) ≤ length back
    → translate len (us ++ rest) (text (front ++ back) (length front) e)
      ≡ translate len rest (filled front (text_bytes us) back (last_len e us))
unfolding text_bytes last_len
translate-prefix len e [] rest front back p le size fits = rw add-zero
translate-prefix len e (cu ∷ us) rest front back (p, ps) le size fits =
    translate_step len cu e (us ++ rest) front back p (omega (arith, text_bytes-pos cu us))
      (omega (arith, text_bytes-pos cu us)) size
    ∙ ap
        (λ (c : List ℕ).
          translate len (us ++ rest)
            (text ((front ++ c) ++ drop (length c) back) (length (front ++ c)) (length c)))
        (take_all (len - length front) code (omega (arith, room)))
    ∙ translate-prefix len (length code) us rest (front ++ code) (drop (length code) back) ps
        (omega (arith, length-append front code))
        (omega (arith, length-append front code, length-drop (length code) back, room))
        (omega (arith, length-drop (length code) back, room))
    ∙ ap (translate len rest)
        (filled-append front code (text_bytes us) back (last_len (length code) us))
  where
    code : List ℕ
    code = code_bytes cu

    room : length (code_bytes cu) + length (text_bytes us) ≤ length back
    room = omega (arith, length-append (code_bytes cu) (text_bytes us), fits)

-- A further unit when the buffer is full: `encode_utf8` is called with no room.
translate-full :
    (len n e next : ℕ) (rest bytes : List ℕ)
    → IsPlain next
    → e < len
    → len ≤ n
    → translate len (next ∷ rest) (text bytes n e) ≡ fault
unfolding translate unit encode_utf8
translate-full len n e next rest bytes p le full = ground arith

-- Plain text that goes on when the buffer is full: the loop calls `encode_utf8` with no room.
pub translate-overlong :
    (len e next : ℕ) (us rest front back : List ℕ)
    → AllPlain us
    → IsPlain next
    → 4 < len
    → e < len
    → len ≡ length front + length back
    → length back ≤ length (text_bytes us)
    → translate len (us ++ next ∷ rest) (text (front ++ back) (length front) e) ≡ fault
unfolding text_bytes
translate-overlong len e next [] rest front back p pn big le size full =
    translate-full len (length front) e next rest (front ++ back) pn le (omega (arith, full))
translate-overlong len e next (cu ∷ us) rest front back (p, ps) pn big le size full =
    elim (dec_lt (length front) len) [
      | yes h ↦
          let c : List ℕ = cut len cu front in
          translate_step len cu e (us ++ next ∷ rest) front back p h le size
          ∙ translate-overlong len (length c) next us rest (front ++ c) (drop (length c) back) ps pn
              big
              (omega
                (arith, length-take (len - length front) (code_bytes cu), length-code_bytes cu))
              (omega (
                arith,
                length-append front c,
                length-drop (length c) back,
                cut-le-back len cu e us front back p h le size,
              ))
              (omega (
                arith,
                more,
                length-drop (length c) back,
                length-take (len - length front) (code_bytes cu),
                size,
              ))
      | no h ↦
          translate-full len (length front) e cu (us ++ next ∷ rest) (front ++ back) p le
            (omega arith)
    ]
  where
    more : length back ≤ length (code_bytes cu) + length (text_bytes us)
    more = omega (arith, length-append (code_bytes cu) (text_bytes us), full)
