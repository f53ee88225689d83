-- ===== src/Win32/Queue/Order.antt =====
-- The list of submitted transfers of src/os/libusb0_win32.c keeps their order.
use libusby.Base.{
  ℕ, suc, ◌^◌, ◌<◌, ◌≡◌, refl, sym, ap, ◌∙◌, inl, inr, false, List, [], ◌∷◌, ◌++◌, append-nil,
  length, length-append, Option, none, some, arith, ◌==◌, Bool-cases, ==→eq, decrement,
}
use mathlib.Core.Path.{subst}
use libusby.Devices.Ring.{update, has, Distinct}
use libusby.Devices.Ring.Chain.{
  has-append, has-insert, Distinct-insert, Distinct-remove, Distinct-fresh, Distinct-left,
  Distinct-right,
}
use libusby.Win32.Queue.{
  Queue, link, or_else, append_tran, remove_tran, cases_of, first_or, last_or, Segment, IsQueue,
}
use libusby.Win32.Queue.Segments.{
  Outside, Segment-split, Segment-append, Segment-next, Segment-prev, Segment-last, Segment-first,
}

last_or-append : (before : Option ℕ) (xs : List ℕ) (t : ℕ) → last_or before (xs ++ t ∷ []) ≡ some t
last_or-append before [] t = refl
last_or-append before (x ∷ xs) t = last_or-append (some x) xs t

first_or-append :
    (xs : List ℕ) (t : ℕ) → first_or (xs ++ t ∷ []) none ≡ or_else (first_or xs none) (some t)
first_or-append [] t = refl
first_or-append (x ∷ xs) t = refl

-- The last of some transfers, and the first of others, are outside where they are not.
Outside-last :
    (before : Option ℕ) (xs ys : List ℕ)
    → Outside before ys
    → Distinct (xs ++ ys)
    → Outside (last_or before xs) ys
Outside-last before [] ys o d = o
Outside-last before (x ∷ xs) ys o d =
    Outside-last (some x) xs ys (ground (arith, d.0, has-append x xs ys)) d.1

Outside-first : (xs ys : List ℕ) → Distinct (xs ++ ys) → Outside (first_or ys none) xs
Outside-first xs [] d = tt
Outside-first xs (y ∷ ys) d = ground (arith, Distinct-fresh y xs ys d, has-append y xs ys)

link-Outside : (p v : Option ℕ) (f : ℕ → Option ℕ) (t : ℕ) → Outside p (t ∷ []) → link p v f t ≡ f t
link-Outside none v f t o = refl
link-Outside (some p) v f t o = ground arith

Distinct-last :
    (trans : List ℕ) (tran : ℕ)
    → Distinct trans
    → has tran trans ≡ false
    → Distinct (trans ++ tran ∷ [])
Distinct-last trans tran d e =
    Distinct-insert tran trans [] (rw (append-nil trans) d) (rw (append-nil trans) e)

-- Where the list holds some transfers, less than 2^31 - 1, the part of `usbyb_submit_transfer` that
-- appends a transfer which is not among them puts it behind the others.
pub append_tran-IsQueue :
    (q : Queue) (trans : List ℕ) (tran : ℕ)
    → IsQueue q trans
    → has tran trans ≡ false
    → suc (length trans) < 2 ^ 31
    → IsQueue (append_tran tran q) (trans ++ tran ∷ [])
unfolding append_tran
append_tran-IsQueue q trans tran v fresh few = record {
  linked =
      Segment-append _ _ none trans (tran ∷ []) none
        (subst
          (λ (p : Option ℕ).
            Segment (link p (some tran) next) (update q.prev tran p) none trans (some tran))
          (sym v.last)
          (Segment-last next prev none trans none (some tran) v.distinct (
            Segment-next q.next prev (some tran) none none trans none fresh (
              Segment-prev q.next q.prev (some tran) (last_or none trans) none trans none fresh
                v.linked))))
        (ground (arith, v.last), unlinked, tt);
  distinct = Distinct-last trans tran v.distinct fresh;
  first = ap (λ (p : Option ℕ). or_else p (some tran)) v.first ∙ sym (first_or-append trans tran);
  last = sym (last_or-append none trans tran);
  counted = ground (arith, v.counted, length-append trans (tran ∷ []));
  marked = λ t. ground (arith, v.marked t, has-insert t tran trans [], append-nil trans);
}
  where
    next : ℕ → Option ℕ
    next = update q.next tran none

    prev : ℕ → Option ℕ
    prev = update q.prev tran (last_or none trans)

    unlinked : link q.trani_last (some tran) next tran ≡ none
    unlinked =
        link-Outside q.trani_last (some tran) next tran (
          subst (λ (p : Option ℕ). Outside p (tran ∷ [])) (sym v.last)
            (Outside-last none trans (tran ∷ []) tt (Distinct-last trans tran v.distinct fresh)))
        ∙ ground arith

last_or-some : {A : Type 0} (x : ℕ) (xs : List ℕ) (a b : A) → cases_of (last_or (some x) xs) a b ≡ b
last_or-some x [] a b = refl
last_or-some x (y ∷ xs) a b = last_or-some y xs a b

last_or-skip :
    (before : Option ℕ) (xs : List ℕ) (t y : ℕ) (ys : List ℕ)
    → last_or before (xs ++ t ∷ y ∷ ys) ≡ last_or before (xs ++ y ∷ ys)
last_or-skip before [] t y ys = refl
last_or-skip before (x ∷ xs) t y ys = last_or-skip (some x) xs t y ys

-- What the removal of a transfer does when its neighbours are known.
abbrev unlinked_at : ℕ → Option ℕ → Option ℕ → Queue → Queue
unlinked_at t p n q = record {
  next = update (link p n q.next) t none;
  prev = update (link n p q.prev) t none;
  submitted = update q.submitted t false;
  trani_first = cases_of p n q.trani_first;
  trani_last = cases_of n p q.trani_last;
  tran_count = decrement q.tran_count;
}

remove_tran-known :
    (q : Queue) (t : ℕ) (p n : Option ℕ)
    → q.prev t ≡ p
    → q.next t ≡ n
    → Outside n (t ∷ [])
    → remove_tran t q ≡ unlinked_at t p n q
unfolding remove_tran
remove_tran-known q t p n e f o = rw (f, e, link-Outside n p q.prev t o ∙ e, front p) refl
  where
    front :
        (p : Option ℕ) → cases_of p (link p n q.next t) q.trani_first ≡ cases_of p n q.trani_first
    front none = f
    front (some x) = refl

removed-first :
    (xs ys : List ℕ) (t : ℕ) (first : Option ℕ)
    → first ≡ first_or (xs ++ t ∷ ys) none
    → cases_of (last_or none xs) (first_or ys none) first ≡ first_or (xs ++ ys) none
removed-first [] ys t first e = refl
removed-first (x ∷ xs) ys t first e = last_or-some x xs (first_or ys none) first ∙ e

removed-last :
    (xs ys : List ℕ) (t : ℕ) (last : Option ℕ)
    → last ≡ last_or none (xs ++ t ∷ ys)
    → cases_of (first_or ys none) (last_or none xs) last ≡ last_or none (xs ++ ys)
removed-last xs [] t last e = ap (last_or none) (sym (append-nil xs))
removed-last xs (y ∷ ys) t last e = e ∙ last_or-skip none xs t y ys

-- Where the list holds some transfers, less than 2^31, the part of `usbyb_reap_transfer` that takes
-- one of them out leaves the others, in their order.
pub remove_tran-IsQueue :
    (q : Queue) (xs ys : List ℕ) (tran : ℕ)
    → IsQueue q (xs ++ tran ∷ ys)
    → length (xs ++ tran ∷ ys) < 2 ^ 31
    → IsQueue (remove_tran tran q) (xs ++ ys)
remove_tran-IsQueue q xs ys tran v few =
    let (l, r) = Segment-split q.next q.prev none xs (tran ∷ ys) none v.linked in
    let known : remove_tran tran q ≡ unlinked_at tran p n q =
      remove_tran-known q tran p n r.0 r.1 (outside-n) in
    subst (λ (q : Queue). IsQueue q (xs ++ ys)) (sym known)
      (record {
        linked =
            Segment-append _ _ none xs ys none
              (framed none xs n (ground (arith, fresh, has-append tran xs ys)) (
                Segment-last q.next (link n p q.prev) none xs (some tran) n (Distinct-left xs ys d)
                  (Segment-prev q.next q.prev n p none xs (some tran) (Outside-first xs ys d) l)))
              (framed p ys none (ground (arith, fresh, has-append tran xs ys)) (
                Segment-next q.next (link n p q.prev) p n p ys none (Outside-last none xs ys tt d) (
                  Segment-first q.next q.prev (some tran) ys none p (Distinct-right xs ys d) r.2)));
        distinct = d;
        first = removed-first xs ys tran q.trani_first v.first;
        last = removed-last xs ys tran q.trani_last v.last;
        counted = ground (arith, v.counted, length-append xs (tran ∷ ys), length-append xs ys);
        marked = λ t. elim (Bool-cases (tran == t)) [
          | inl e ↦ rw e (sym fresh ∙ ap (λ (a : ℕ). has a (xs ++ ys)) (==→eq tran t e))
          | inr e ↦ ground (arith, v.marked t, has-insert t tran xs ys)
        ];
      })
  where
    p : Option ℕ
    p = last_or none xs

    n : Option ℕ
    n = first_or ys none

    d : Distinct (xs ++ ys)
    d = Distinct-remove tran xs ys v.distinct

    fresh : has tran (xs ++ ys) ≡ false
    fresh = Distinct-fresh tran xs ys v.distinct

    outside-n : Outside n (tran ∷ [])
    outside-n = Outside-head ys (ground (arith, fresh, has-append tran xs ys))
      where
        Outside-head : (ys : List ℕ) → has tran ys ≡ false → Outside (first_or ys none) (tran ∷ [])
        Outside-head [] h = tt
        Outside-head (y ∷ ys) h = ground arith

    framed :
        (before : Option ℕ) (zs : List ℕ) (after : Option ℕ)
        → has tran zs ≡ false
        → Segment (link p n q.next) (link n p q.prev) before zs after
        → Segment
            (update (link p n q.next) tran none)
            (update (link n p q.prev) tran none)
            before
            zs
            after
    framed before zs after o s =
        Segment-next (link p n q.next) (update (link n p q.prev) tran none) (some tran) none before
          zs after o
          (Segment-prev (link p n q.next) (link n p q.prev) (some tran) none before zs after o s)
