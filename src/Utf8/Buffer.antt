-- ===== src/Utf8/Buffer.antt =====
-- Writes into the caller's buffer, seen as what is written, what is overwritten and what follows.
use libusby.Base.{
  ℕ, ◌≡◌, refl, ap, List, [], ◌∷◌, ◌++◌, append_assoc, arith, length, length-append, set,
}
use libusby.Utf8.{blit}

set-append :
    (front back : List ℕ) (x b : ℕ) → set (front ++ x ∷ back) (length front) b ≡ front ++ b ∷ back
set-append [] back x b = refl
set-append (y ∷ front) back x b = ap (◌∷◌ y) (set-append front back x b)

pub blit-append :
    (bytes front old back : List ℕ)
    → length old ≡ length bytes
    → blit (front ++ (old ++ back)) (length front) bytes ≡ front ++ (bytes ++ back)
unfolding blit
blit-append [] front [] back e = refl
blit-append [] front (x ∷ old) back e = absurd (omega arith)
blit-append (b ∷ bytes) front [] back e = absurd (omega arith)
blit-append (b ∷ bytes) front (x ∷ old) back e = rw (set-append front (old ++ back) x b) (
    rw
      (
        append_assoc front (b ∷ []) (old ++ back),
        length-append front (b ∷ []),
        append_assoc front (b ∷ []) (bytes ++ back),
      )
      at (blit-append bytes (front ++ b ∷ []) old back (omega arith)))
