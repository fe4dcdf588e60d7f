-- ===== src/Guard/Envelope.antt =====
-- The hard envelopes of what is forwarded.
use dyx_3wd.Base.{◌≡◌, true, false, arith}
use dyx_3wd.Base.Real.{Real, zero_real, IsOrdered}
use dyx_3wd.Guard.Types.{Motion, uses_rate}
use dyx_3wd.Guard.Limits.{Limits, LimitState, limits_valid, clamp_to, apply_limits, is_stop}

module _ {R : Type 0} ⦃r : Real R⦄ (laws : IsOrdered R) where
  open laws use {lt-eq-not-le, le_refl, le_trans, lt_le, finite_zero, finite_neg, neg_nonpos}

  -- `v` lies in the range.
  abbrev pub Between : R → R → R → Type 0
  Between lo hi v = (r.le lo v ≡ true) × (r.le v hi ≡ true)

  clamp_to-Between :
      (lo hi v : R)
      → r.finite lo ≡ true
      → r.finite hi ≡ true
      → r.finite v ≡ true
      → r.le lo hi ≡ true
      → Between lo hi (clamp_to lo hi v).0
        × ((clamp_to lo hi v).1 ≡ false → (clamp_to lo hi v).0 ≡ v)
  unfolding clamp_to
  clamp_to-Between lo hi v fl fh fv h = ground (
    arith,
    lt-eq-not-le hi v fh fv,
    lt-eq-not-le v lo fv fl,
    lt-eq-not-le hi lo fh fl,
    le_refl lo fl,
    le_refl hi fh,
    lt_le hi v,
  )

  -- The facts that valid limits give to a clamp between a negated limit and another.
  speed-Between :
      (lim : Limits R) (v : R)
      → limits_valid lim ≡ true
      → r.finite v ≡ true
      → let (v', cut) = clamp_to (r.neg lim.max_reverse_speed_mps) lim.max_forward_speed_mps v in
        Between (r.neg lim.max_reverse_speed_mps) lim.max_forward_speed_mps v'
        × (cut ≡ false → v' ≡ v)
  unfolding limits_valid
  speed-Between lim v h f =
      let rev = lim.max_reverse_speed_mps in
      let fwd = lim.max_forward_speed_mps in
      ground (
        arith,
        clamp_to-Between (r.neg rev) fwd v,
        finite_neg rev,
        neg_nonpos rev,
        lt_le zero_real fwd,
        le_trans (r.neg rev) zero_real fwd,
      )

  rate-Between :
      (lim : Limits R) (v : R)
      → limits_valid lim ≡ true
      → r.finite v ≡ true
      → let most = lim.max_yaw_rate_radps in
        let (v', cut) = clamp_to (r.neg most) most v in
        Between (r.neg most) most v' × (cut ≡ false → v' ≡ v)
  unfolding limits_valid
  rate-Between lim v h f =
      let most = lim.max_yaw_rate_radps in
      ground (
        arith,
        clamp_to-Between (r.neg most) most v,
        finite_neg most,
        neg_nonpos most,
        lt_le zero_real most,
        le_trans (r.neg most) zero_real most,
      )

  -- With the laws of the comparisons, in production mode, a moving motion with finite fields comes out
  -- within the envelopes of valid limits: the speed between the reverse and the forward limit, and in
  -- the modes with a rate the yaw rate within its limit. The mode and the yaw are kept, in the
  -- modes without a rate the yaw rate too, and all of the motion unless it is reported clamped.
  pub apply_limits-envelope :
      (i : Motion R) (dt : R) (lim : Limits R) (st : LimitState R)
      → limits_valid lim ≡ true
      → lim.profile_shaping_test_mode ≡ false
      → r.finite i.speed_body_x ≡ true
      → (uses_rate i.mode ≡ true → r.finite i.yaw_rate_setpoint ≡ true)
      → is_stop i.mode ≡ false
      → let o = (apply_limits i dt lim st).0 in
        Between (r.neg lim.max_reverse_speed_mps) lim.max_forward_speed_mps o.motion.speed_body_x
        × (uses_rate i.mode ≡ true
            → Between
                (r.neg lim.max_yaw_rate_radps)
                lim.max_yaw_rate_radps
                o.motion.yaw_rate_setpoint)
        × (o.motion.mode ≡ i.mode)
        × (o.motion.yaw_setpoint ≡ i.yaw_setpoint)
        × (uses_rate i.mode ≡ false → o.motion.yaw_rate_setpoint ≡ i.yaw_rate_setpoint)
        × (o.clamped ≡ false → o.motion ≡ i)
  unfolding apply_limits
  apply_limits-envelope i dt lim st v p fs fr ns =
      ground (arith, speed-Between lim i.speed_body_x v fs, rate-Between lim i.yaw_rate_setpoint v)
