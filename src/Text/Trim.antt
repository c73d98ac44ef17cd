-- ===== src/Text/Trim.antt =====
-- `trim_space` is idempotent.
use mathlib.Core.List.{reverse-append, reverse-reverse}
use private_mesh.Prelude.{ℕ, zero, suc, ◌≡◌, refl, sym, ap, ◌∙◌, [], ◌∷◌, ◌++◌, reverse, arith}
use private_mesh.Text.{Text, width_front, width_back, strip, trim_space}

-- White space at the front of a text is still there when bytes are added behind it.
width_front-prefix : (u v : Text) → width_front (u ++ v) ≡ 0 → width_front u ≡ 0
unfolding width_front
width_front-prefix [] v h = refl
width_front-prefix (a ∷ []) [] h = h
width_front-prefix (a ∷ []) (b ∷ []) h = ground arith
width_front-prefix (a ∷ []) (b ∷ c ∷ v) h = ground arith
width_front-prefix (a ∷ b ∷ []) [] h = h
width_front-prefix (a ∷ b ∷ []) (c ∷ v) h = ground arith
width_front-prefix (a ∷ b ∷ c ∷ u) v h = h

module _ (width : Text → ℕ) (width-nil : width [] ≡ 0) where
  strip_stripped : (k : ℕ) (s : Text) → width (strip width k s) ≡ 0
  unfolding strip
  strip_stripped k [] = width-nil
  strip_stripped (suc k) (a ∷ s) = strip_stripped k s
  strip_stripped zero (a ∷ s) = by_width (width (a ∷ s)) refl (λ k. strip_stripped k s)
    where
      by_width :
          (n : ℕ)
          → width (a ∷ s) ≡ n
          → ((k : ℕ) → width (strip width k s) ≡ 0)
          → width (elim n [ zero ↦ a ∷ s | suc k ↦ strip width k s ]) ≡ 0
      by_width zero e ih = e
      by_width (suc k) e ih = ih k

  strip_fixed : (s : Text) → width s ≡ 0 → strip width 0 s ≡ s
  unfolding strip
  strip_fixed [] h = refl
  strip_fixed (a ∷ s) h = rw (h, strip)

  -- What is dropped stands in front.
  strip_suffix : (k : ℕ) (s : Text) → (p : Text) × (s ≡ p ++ strip width k s)
  unfolding strip
  strip_suffix k [] = ([], refl)
  strip_suffix (suc k) (a ∷ s) = let (p, e) = strip_suffix k s in (a ∷ p, ap (λ t. a ∷ t) e)
  strip_suffix zero (a ∷ s) = by_width (width (a ∷ s)) (λ k. strip_suffix k s)
    where
      by_width :
          (n : ℕ)
          → ((k : ℕ) → (p : Text) × (s ≡ p ++ strip width k s))
          → (p : Text) × (a ∷ s ≡ p ++ elim n [ zero ↦ a ∷ s | suc k ↦ strip width k s ])
      by_width zero ih = ([], refl)
      by_width (suc k) ih = let (p, e) = ih k in (a ∷ p, ap (λ t. a ∷ t) e)

strip_back-prefix : (u : Text) → (p : Text) × (u ≡ reverse (strip width_back 0 (reverse u)) ++ p)
strip_back-prefix u =
    let (p, e) = strip_suffix width_back (unfold width_back in refl) 0 (reverse u) in
    (reverse p, sym (reverse-reverse u) ∙ ap reverse e ∙ reverse-append p _)

-- Trimming a trimmed text changes nothing.
pub trim_space-trim_space : (s : Text) → trim_space (trim_space s) ≡ trim_space s
unfolding trim_space
trim_space-trim_space s =
    let front = strip width_front 0 s in
    let back = strip width_back 0 (reverse front) in
    let (p, e) = strip_back-prefix front in
    let kept : width_front front ≡ 0 =
      strip_stripped width_front (unfold width_front in refl) 0 s in
    let kept' : width_front (reverse back) ≡ 0 =
      width_front-prefix (reverse back) p (ap width_front (sym e) ∙ kept) in
    let done : width_back back ≡ 0 =
      strip_stripped width_back (unfold width_back in refl) 0 (reverse front) in
    ap (λ t. reverse (strip width_back 0 (reverse t)))
      (strip_fixed width_front (unfold width_front in refl) (reverse back) kept')
    ∙ ap (λ t. reverse (strip width_back 0 t)) (reverse-reverse back)
    ∙ ap reverse (strip_fixed width_back (unfold width_back in refl) back done)
