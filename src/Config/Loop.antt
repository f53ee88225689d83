-- ===== src/Config/Loop.antt =====
-- Loop rule for `walk` of src/libusby.c's configuration parser: what every descriptor keeps, the
-- loop keeps, and with a round for each byte it does not run out of fuel.
use libusby.Base.{
  ℕ, zero, suc, ◌-◌, ◌<◌, ◌≡◌, refl, ◌||◌, Bool, true, false, List, Option, none, some, arith, ltb,
  ◌==◌, if◌then◌else◌, drop, get_elem?, Allocator,
}
use libusby.Config.{Parse, Flow, go, goto_error, crash, and_then, deref, on_descriptor, walk}

-- `P` where control goes on, `Q` at the label `error`, and `C` at a crash.
pub data Keeps (P Q : Parse → Type 0) (C : Type 0) : Flow → Type 0 where
  goes : {p : Parse} → P p → Keeps P Q C (go p)
  errs : {p : Parse} → Q p → Keeps P Q C (goto_error p)
  crashes : C → Keeps P Q C crash

module _ {P Q : Parse → Type 0} {C : Type 0} where
  pub if-Keeps :
      (b : Bool) {f g : Flow}
      → (b ≡ true → Keeps P Q C f)
      → (b ≡ false → Keeps P Q C g)
      → Keeps P Q C (if b then f else g)
  if-Keeps true h k = h refl
  if-Keeps false h k = k refl

  pub deref-Keeps {ℓ} :
      {A : Type ℓ} (o : Option A) {k : A → Flow}
      → (o ≡ none → C)
      → ((a : A) → o ≡ some a → Keeps P Q C (k a))
      → Keeps P Q C (deref o k)
  deref-Keeps none null at = crashes (null refl)
  deref-Keeps (some a) null at = at a refl

  pub and_then-Keeps :
      {R : Parse → Type 0} {f : Flow} {k : Parse → Flow}
      → Keeps R Q C f
      → ((p : Parse) → R p → Keeps P Q C (k p))
      → Keeps P Q C (and_then f k)
  and_then-Keeps (goes h) next = next _ h
  and_then-Keeps (errs h) next = errs h
  and_then-Keeps (crashes h) next = crashes h

module _ (P Q : Parse → Type 0) (succeeds : Allocator) (stop : (p : Parse) → P p → Q p)
    (step : (raw : List ℕ) (p : Parse)
      → P p
      → Keeps P Q (Unit {0}) (on_descriptor succeeds raw p)) where
  pub walk-Keeps :
      (fuel : ℕ) (raw : List ℕ) (total : ℕ) (p : Parse)
      → total < fuel
      → P p
      → Keeps P Q (Unit {0}) (walk succeeds fuel raw total p)
  unfolding walk
  walk-Keeps zero raw total p h inv = absurd (omega arith)
  walk-Keeps (suc fuel) raw total p h inv =
      if-Keeps (total == 0) (λ done. goes inv)
        λ more.
          deref-Keeps (get_elem? raw 0) (λ _. tt)
            λ len e.
              if-Keeps (ltb total len || ltb len 2) (λ bad. errs (stop p inv))
                λ good.
                  and_then-Keeps (step raw p inv)
                    λ q iq. walk-Keeps fuel (drop len raw) (total - len) q (ground arith) iq

-- What two arguments about one run show together; the second decides whether it can crash.
pub Keeps-both :
    {P Q P' Q' : Parse → Type 0} {C C' : Type 0} {f : Flow}
    → Keeps P Q C f
    → Keeps P' Q' C' f
    → Keeps (λ p. P p × P' p) Q' C' f
Keeps-both (goes a) (goes b) = goes (a, b)
Keeps-both (errs a) (errs b) = errs b
Keeps-both (crashes c) (crashes c') = crashes c'

pub forget :
    {P Q : Parse → Type 0} {C : Type 0} {f : Flow}
    → Keeps P Q C f
    → Keeps (λ _. Unit {0}) (λ _. Unit {0}) C f
forget (goes a) = goes tt
forget (errs a) = errs tt
forget (crashes c) = crashes c
