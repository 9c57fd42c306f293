-- ===== src/Mq/GlobalQueue/Fifo.antt =====
-- The linked global queue is a first-in first-out queue.
use native.Mathlib.Decide.{ℕ_discrete}
use skynet_cpp.Prelude.{
  ℕ, ◌==◌, if◌then◌else◌, ◌≡◌, ◌≢◌, refl, sym, ap, ◌∙◌, true, false, Option, none, some, List, [],
  ◌∷◌, ◌++◌, arith,
}
use skynet_cpp.Prelude.Run.{ok}
use skynet_cpp.Mq.GlobalQueue.{GlobalQueue, link, append, push, pop}

abbrev pub first : List ℕ → Option ℕ
first [] = none
first (q ∷ qs) = some q

abbrev pub last : List ℕ → Option ℕ
last [] = none
last (q ∷ []) = some q
last (q ∷ p ∷ qs) = last (p ∷ qs)

-- the queue that follows `p` in the list
abbrev pub next_in : List ℕ → ℕ → Option ℕ
next_in [] p = none
next_in (q ∷ qs) p = if p == q then first qs else next_in qs p

abbrev pub Apart : ℕ → List ℕ → Type 0
Apart p [] = Unit {0}
Apart p (q ∷ qs) = (p ≢ q) × Apart p qs

abbrev pub Distinct : List ℕ → Type 0
Distinct [] = Unit {0}
Distinct (q ∷ qs) = Apart q qs × Distinct qs

-- The fields hold the list `qs`: it has no queue twice, and a queue outside has no successor.
pub record Links (g : GlobalQueue) (qs : List ℕ) : Type 0 where
  pub distinct : Distinct qs
  pub head_eq : g.head ≡ first qs
  pub tail_eq : g.tail ≡ last qs
  pub next_eq : (p : ℕ) → g.next p ≡ next_in qs p

next_in-Apart : (p : ℕ) (qs : List ℕ) → Apart p qs → next_in qs p ≡ none
next_in-Apart p [] a = refl
next_in-Apart p (q ∷ qs) (ne, a) =
    let off : (p == q) ≡ false = ground arith in rw off (next_in-Apart p qs a)

pub Apart-snoc : (p q : ℕ) (qs : List ℕ) → Apart p qs → p ≢ q → Apart p (qs ++ q ∷ [])
Apart-snoc p q [] a ne = (ne, tt)
Apart-snoc p q (r ∷ qs) (ne', a) ne = (ne', Apart-snoc p q qs a ne)

Distinct-snoc : (q : ℕ) (qs : List ℕ) → Distinct qs → Apart q qs → Distinct (qs ++ q ∷ [])
Distinct-snoc q [] d a = (tt, tt)
Distinct-snoc q (r ∷ qs) (b, d) (ne, a) =
    (Apart-snoc r q qs b (λ e. ne (sym e)), Distinct-snoc q qs d a)

last-snoc : (q : ℕ) (qs : List ℕ) → last (qs ++ q ∷ []) ≡ some q
last-snoc q [] = refl
last-snoc q (r ∷ []) = refl
last-snoc q (r ∷ s ∷ qs) = last-snoc q (s ∷ qs)

some-injective : (a b : ℕ) → some a ≡ some b → a ≡ b
some-injective a b e = ap (λ (o : Option ℕ). elim o [ none ↦ a | some c ↦ c ]) e

-- the last queue of a list is not one that is apart from the list
last-Apart : (p t : ℕ) (qs : List ℕ) → Apart p qs → last qs ≡ some t → p ≢ t
last-Apart p t [] a e = absurd (cc (sym e))
last-Apart p t (q ∷ []) (ne, a) e = λ same. ne (same ∙ sym (some-injective _ _ e))
last-Apart p t (q ∷ r ∷ qs) (ne, a) e = last-Apart p t (r ∷ qs) a e

next_in-snoc :
    (qs : List ℕ) (t q p : ℕ)
    → Distinct qs
    → last qs ≡ some t
    → next_in (qs ++ q ∷ []) p ≡ (if p == t then some q else next_in qs p)
next_in-snoc [] t q p d e = absurd (cc (sym e))
next_in-snoc (r ∷ []) t q p d e = let same : r ≡ t = some-injective _ _ e in ground arith
next_in-snoc (r ∷ s ∷ qs) t q p (a, d) e =
    let other : r ≢ t = last-Apart r t (s ∷ qs) a e in
    let ih = next_in-snoc (s ∷ qs) t q p d e in
    elim (ℕ_discrete p r) [
      | yes here ↦
          let on : (p == r) ≡ true = ground arith in
          let off : (p == t) ≡ false = ground arith in rw (on, off)
      | no ne ↦ let off : (p == r) ≡ false = ground arith in rw (off) ih
    ]

last-some : (q : ℕ) (qs : List ℕ) → (t : ℕ) × (last (q ∷ qs) ≡ some t)
last-some q [] = (q, refl)
last-some q (r ∷ qs) = last-some r qs

append-Links :
    (g : GlobalQueue) (qs : List ℕ) (q : ℕ)
    → Links g qs
    → Apart q qs
    → Links (append g q) (qs ++ q ∷ [])
unfolding append
append-Links g [] q l a = rw l.tail_eq (record {
  distinct = (tt, tt);
  head_eq = refl;
  tail_eq = refl;
  next_eq = λ p. ground (arith, l.next_eq p);
})
append-Links g (r ∷ qs) q l a =
    let (t, e) = last-some r qs in
    let tail : g.tail ≡ some t = l.tail_eq ∙ e in
    rw tail (record {
      distinct = Distinct-snoc q (r ∷ qs) l.distinct a;
      head_eq = l.head_eq;
      tail_eq = sym (last-snoc q (r ∷ qs));
      next_eq = λ p. ground (arith, l.next_eq p, next_in-snoc (r ∷ qs) t q p l.distinct e);
    })

-- Pushing a queue that is not in the linked list passes the assertion and appends it to the list
-- that the fields next_ hold.
pub push-Links :
    (g : GlobalQueue) (qs : List ℕ) (q : ℕ)
    → Links g qs
    → Apart q qs
    → (h : GlobalQueue) × (push g q ≡ ok h) × Links h (qs ++ q ∷ [])
unfolding push
push-Links g qs q l a =
    let free : g.next q ≡ none = l.next_eq q ∙ next_in-Apart q qs a in
    (append g q, rw free, append-Links g qs q l a)

-- what taking the first queue off `qs` gives
abbrev pub Popped : GlobalQueue → List ℕ → Type 0
Popped g [] = pop g ≡ ok (none, g)
Popped g (q ∷ qs) = (h : GlobalQueue) × (pop g ≡ ok (some q, h)) × Links h qs × (h.next q ≡ none)

unlinked :
    (g : GlobalQueue) (q : ℕ) (qs : List ℕ)
    → Links g (q ∷ qs)
    → (p : ℕ) → link g.next q none p ≡ next_in qs p
unlinked g q qs l p = elim (ℕ_discrete p q) [
  | yes here ↦
      let on : (p == q) ≡ true = ground arith in
      rw on (sym (ap (next_in qs) here ∙ next_in-Apart q qs l.distinct.0))
  | no ne ↦ let off : (p == q) ≡ false = ground arith in rw off (rw off at (l.next_eq p))
]

-- Popping passes its assertion and takes the first queue off the list, unlinked, or returns NULL and
-- changes nothing if the list is empty.
pop-Links : (g : GlobalQueue) (qs : List ℕ) → Links g qs → Popped g qs
unfolding pop
pop-Links g [] l = let e = l.head_eq in ground (arith, e)
pop-Links g (q ∷ []) l =
    let e : g.head ≡ some q = l.head_eq in
    let t : g.tail ≡ some q = l.tail_eq in
    let self : (q == q) ≡ true = ground arith in
    let n : g.next q ≡ none = (rw self at (l.next_eq q)) in
    (
      record { head = none; tail = none; next = link g.next q none },
      rw (e, n, t, self),
      record { distinct = tt; head_eq = refl; tail_eq = refl; next_eq = unlinked g q [] l },
      rw self,
    )
pop-Links g (q ∷ r ∷ qs) l =
    let e : g.head ≡ some q = l.head_eq in
    let self : (q == q) ≡ true = ground arith in
    let n : g.next q ≡ some r = (rw self at (l.next_eq q)) in
    (
      record g { head = some r; next = link g.next q none },
      rw (e, n),
      record {
        distinct = l.distinct.1;
        head_eq = refl;
        tail_eq = l.tail_eq;
        next_eq = unlinked g q (r ∷ qs) l;
      },
      rw self,
    )
