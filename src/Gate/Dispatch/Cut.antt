-- ===== src/Gate/Dispatch/Cut.antt =====
-- What a stream of bytes means: frames of a big-endian length and as many bytes, one after another,
-- with empty frames left out. The stream is read from a state, the header that was read (0: none).
use skynet_cpp.Prelude.{
  ℕ, ◌-◌, ◌≤◌, ◌<◌, ◌≡◌, refl, ap, List, [], ◌∷◌, ◌++◌, length, take, drop, length-append, arith,
  append-nil, take-append, drop-append,
}
use skynet_cpp.Gate.Databuffer.{header_value}

-- `Cut size h bytes frames h' rest`: from the header state `h`, the stream `bytes` holds the complete
-- frames `frames`, and leaves the header state `h'` and the bytes `rest`.
pub data Cut (size : ℕ) : ℕ → List ℕ → List (List ℕ) → ℕ → List ℕ → Type 0 where
  wait_header : (h : ℕ) (bs : List ℕ) → h ≡ 0 → length bs < size → Cut size h bs [] h bs
  header :
      (h : ℕ) (bs : List ℕ) (fs : List (List ℕ)) (h' : ℕ) (rest : List ℕ)
      → h ≡ 0
      → size ≤ length bs
      → header_value size (take size bs) < 0x1000000
      → Cut size (header_value size (take size bs)) (drop size bs) fs h' rest
      → Cut size h bs fs h' rest
  wait_body : (h : ℕ) (bs : List ℕ) → 0 < h → length bs < h → Cut size h bs [] h bs
  body :
      (h : ℕ) (bs : List ℕ) (fs : List (List ℕ)) (h' : ℕ) (rest : List ℕ)
      → 0 < h
      → h ≤ length bs
      → Cut size 0 (drop h bs) fs h' rest
      → Cut size h bs (take h bs ∷ fs) h' rest

-- A stream may be cut anywhere: what is left of the first part is read on with the second.
pub Cut-append :
    (size : ℕ) {h : ℕ} {bs : List ℕ} {fs : List (List ℕ)} {h₁ : ℕ} {r₁ : List ℕ}
    → Cut size h bs fs h₁ r₁
    → (more : List ℕ) {gs : List (List ℕ)} {h₂ : ℕ} {r₂ : List ℕ}
    → Cut size h₁ (r₁ ++ more) gs h₂ r₂
    → Cut size h (bs ++ more) (fs ++ gs) h₂ r₂
Cut-append size (wait_header h bs z short) more next = next
Cut-append size (header h bs fs h₁ r₁ z room fits cut) more {gs} {h₂} {r₂} next =
    let e : size - length bs ≡ 0 = omega arith in
    let t : take size (bs ++ more) ≡ take size bs = rw (take-append size bs more, e, append-nil) in
    let d : drop size (bs ++ more) ≡ drop size bs ++ more = rw (drop-append size bs more, e) in
    header h (bs ++ more) (fs ++ gs) h₂ r₂ z (omega (arith, length-append bs more)) (rw t fits) (
      rw (t, d)
        (Cut-append size {h = header_value size (take size bs)} {bs = drop size bs} cut more next))
Cut-append size (wait_body h bs z short) more next = next
Cut-append size (body h bs fs h₁ r₁ z room cut) more {gs} {h₂} {r₂} next =
    let e : h - length bs ≡ 0 = omega arith in
    let t : take h (bs ++ more) ≡ take h bs = rw (take-append h bs more, e, append-nil) in
    let d : drop h (bs ++ more) ≡ drop h bs ++ more = rw (drop-append h bs more, e) in
    rw (← t) (
      body h (bs ++ more) (fs ++ gs) h₂ r₂ z (omega (arith, length-append bs more))
        (rw d (Cut-append size {h = 0} {bs = drop h bs} cut more next)))

-- A stream has one reading.
pub Cut-unique :
    (size : ℕ) {h : ℕ} {bs : List ℕ} {fs : List (List ℕ)} {h₁ : ℕ} {r₁ : List ℕ}
    → 0 < size
    → Cut size h bs fs h₁ r₁
    → {gs : List (List ℕ)} {h₂ : ℕ} {r₂ : List ℕ} → Cut size h bs gs h₂ r₂
    → (fs ≡ gs) × (h₁ ≡ h₂) × (r₁ ≡ r₂)
Cut-unique size pos (wait_header h bs z short) (wait_header _ _ _ _) = (refl, refl, refl)
Cut-unique size pos (wait_header h bs z short) (header _ _ _ _ _ _ room _ _) = absurd (omega arith)
Cut-unique size pos (wait_header h bs z short) (wait_body _ _ p _) = absurd (omega arith)
Cut-unique size pos (wait_header h bs z short) (body _ _ _ _ _ p _ _) = absurd (omega arith)
Cut-unique size pos (header h bs fs h₁ r₁ z room fits cut) (wait_header _ _ _ short) =
    absurd (omega arith)
Cut-unique size pos (header h bs fs h₁ r₁ z room fits cut) (header _ _ _ _ _ _ _ _ cut') =
    Cut-unique size {h = header_value size (take size bs)} {bs = drop size bs} pos cut cut'
Cut-unique size pos (header h bs fs h₁ r₁ z room fits cut) (wait_body _ _ p _) =
    absurd (omega arith)
Cut-unique size pos (header h bs fs h₁ r₁ z room fits cut) (body _ _ _ _ _ p _ _) =
    absurd (omega arith)
Cut-unique size pos (wait_body h bs z short) (wait_header _ _ p _) = absurd (omega arith)
Cut-unique size pos (wait_body h bs z short) (header _ _ _ _ _ p _ _ _) = absurd (omega arith)
Cut-unique size pos (wait_body h bs z short) (wait_body _ _ _ _) = (refl, refl, refl)
Cut-unique size pos (wait_body h bs z short) (body _ _ _ _ _ _ room _) = absurd (omega arith)
Cut-unique size pos (body h bs fs h₁ r₁ z room cut) (wait_header _ _ p _) = absurd (omega arith)
Cut-unique size pos (body h bs fs h₁ r₁ z room cut) (header _ _ _ _ _ p _ _ _) =
    absurd (omega arith)
Cut-unique size pos (body h bs fs h₁ r₁ z room cut) (wait_body _ _ _ short) = absurd (omega arith)
Cut-unique size pos (body h bs fs h₁ r₁ z room cut) (body _ _ _ _ _ _ _ cut') =
    let (e, f, g) = Cut-unique size {h = 0} {bs = drop h bs} pos cut cut' in
    (ap (λ r. take h bs ∷ r) e, f, g)

-- What a reading leaves holds no complete frame.
pub Cut-settled :
    (size : ℕ) {h : ℕ} {bs : List ℕ} {fs : List (List ℕ)} {h' : ℕ} {rest : List ℕ}
    → Cut size h bs fs h' rest
    → Cut size h' rest [] h' rest
Cut-settled size (wait_header h bs z short) = wait_header h bs z short
Cut-settled size (header h bs fs h' rest z room fits cut) =
    Cut-settled size {h = header_value size (take size bs)} {bs = drop size bs} cut
Cut-settled size (wait_body h bs z short) = wait_body h bs z short
Cut-settled size (body h bs fs h' rest z room cut) = Cut-settled size {h = 0} {bs = drop h bs} cut
