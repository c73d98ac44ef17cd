-- ===== src/Planner/Order.antt =====
-- The order of the plans, as an order of numbers.
use private_mesh.Prelude.{
  ℕ, ◌+◌, ◌-◌, ◌≤◌, ◌≡◌, refl, sym, ◌∙◌, Bool, true, false, not, ◌||◌, ◌==◌, ltb, if◌then◌else◌,
  arith, ℤ, pos, negsuc,
}
use private_mesh.Planner.{Reals, less}
use private_mesh.Planner.Select.{Plan, plan_before, strategy_order}

-- The comparisons of qualities are those of numbers.
pub record IsOrdered {Real : Type 0} (reals : Reals Real) : Type 0 where
  pub level : Real → ℕ
  pub same_level : (a b : Real) → reals.same a b ≡ (level a == level b)
  pub greater_level : (a b : Real) → reals.greater a b ≡ ltb (level b) (level a)

-- A bound of the negative numbers among some, and their order above it.
unfoldable below : ℤ → ℕ
below (pos n) = 0
below (negsuc n) = n + 1

unfoldable above : ℕ → ℤ → ℕ
above m (pos n) = m + n
above m (negsuc n) = m - (n + 1)

less-above : (m : ℕ) (a b : ℤ) → below a ≤ m → below b ≤ m → less a b ≡ ltb (above m a) (above m b)
unfolding less below above
less-above m (pos a) (pos b) h k = ground arith
less-above m (pos a) (negsuc b) h k = ground arith
less-above m (negsuc a) (pos b) h k = ground arith
less-above m (negsuc a) (negsuc b) h k = ground arith

unfoldable precedes : (q l o q' l' o' : ℕ) → Bool
precedes q l o q' l' o' =
    if not (q == q') then ltb q' q else if not (ltb l l' || ltb l' l) then ltb o o' else ltb l l'

precedes_trans :
    (q l o q' l' o' q'' l'' o'' : ℕ)
    → precedes q'' l'' o'' q' l' o' ≡ false
    → precedes q' l' o' q l o ≡ false
    → precedes q'' l'' o'' q l o ≡ false
unfolding precedes
precedes_trans q l o q' l' o' q'' l'' o'' h k = ground arith

precedes_asym :
    (q l o q' l' o' : ℕ) → precedes q' l' o' q l o ≡ true → precedes q l o q' l' o' ≡ false
unfolding precedes
precedes_asym q l o q' l' o' h = ground arith

precedes_irreflexive : (q l o : ℕ) → precedes q l o q l o ≡ false
unfolding precedes
precedes_irreflexive q l o = ground arith

module _ {Real : Type 0} (reals : Reals Real) (ordered : IsOrdered reals) where
  plan_before-precedes :
      (m : ℕ) (a b : Plan Real)
      → below a.estimated_latency ≤ m
      → below b.estimated_latency ≤ m
      → plan_before reals a b
        ≡ precedes
            (ordered.level a.estimated_quality)
            (above m a.estimated_latency)
            (strategy_order a.strategy)
            (ordered.level b.estimated_quality)
            (above m b.estimated_latency)
            (strategy_order b.strategy)
  unfolding plan_before precedes
  plan_before-precedes m a b h k =
      rw
        (
          ordered.same_level a.estimated_quality b.estimated_quality,
          ordered.greater_level a.estimated_quality b.estimated_quality,
          less-above m a.estimated_latency b.estimated_latency h k,
          less-above m b.estimated_latency a.estimated_latency k h,
        )
        refl

  pub plan_before_irreflexive : (a : Plan Real) → plan_before reals a a ≡ false
  plan_before_irreflexive a =
      let m = below a.estimated_latency in
      plan_before-precedes m a a (omega arith) (omega arith) ∙ precedes_irreflexive _ _ _

  pub plan_before_trans :
      (a b c : Plan Real)
      → plan_before reals c b ≡ false
      → plan_before reals b a ≡ false
      → plan_before reals c a ≡ false
  plan_before_trans a b c h k =
      let m = below a.estimated_latency + below b.estimated_latency + below c.estimated_latency in
      let a_le : below a.estimated_latency ≤ m = omega arith in
      let b_le : below b.estimated_latency ≤ m = omega arith in
      let c_le : below c.estimated_latency ≤ m = omega arith in
      plan_before-precedes m c a c_le a_le
      ∙ precedes_trans _ _ _ _ _ _ _ _ _ (sym (plan_before-precedes m c b c_le b_le) ∙ h)
          (sym (plan_before-precedes m b a b_le a_le) ∙ k)

  pub plan_before_asym :
      (a b : Plan Real) → plan_before reals b a ≡ true → plan_before reals a b ≡ false
  plan_before_asym a b h =
      let m = below a.estimated_latency + below b.estimated_latency in
      let a_le : below a.estimated_latency ≤ m = omega arith in
      let b_le : below b.estimated_latency ≤ m = omega arith in
      plan_before-precedes m a b a_le b_le
      ∙ precedes_asym _ _ _ _ _ _ (sym (plan_before-precedes m b a b_le a_le) ∙ h)
