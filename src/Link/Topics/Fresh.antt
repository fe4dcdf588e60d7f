-- ===== src/Link/Topics/Fresh.antt =====
-- The report against the freshness of each topic, and the resets of the session.
use dyx_3wd.Base.{
  ℕ, ◌+◌, ◌^◌, ◌<◌, ◌≡◌, refl, ap, ◌∙◌, ◌↔◌, Bool, true, false, not, ◌||◌, List, [], ◌∷◌, arith,
  if◌then◌else◌,
}
use dyx_3wd.Base.Real.{Real}
use dyx_3wd.Link.Topics.Bits.{set_bit_lem, weight, mask_of, mask_of-bit, mask_of-empty, none_of}
use dyx_3wd.Link.Topics.Ops.{
  TopicBit, timesync, local_position, vehicle_status, attitude, estimator_flags, gps, topic_bit,
  topics, has_bit, set_bit, StalenessReport, StalenessMonitor, blank_report, assess, assess_all,
  evaluate, all_fresh, all_fresh_of,
}

summand : (b : Bool) (a x c : ℕ) → x ≡ a + c → (if b then x else a) ≡ a + (if b then c else 0)
summand b a x c h = ground arith

module _ {R : Type 0} ⦃r : Real R⦄ where
  -- The topic was never received, or its last sample is older than its limit.
  abbrev pub is_stale : StalenessMonitor R → R → TopicBit → Bool
  is_stale m now t = not (m.seen t) || r.lt (m.max_age_s t) (r.sub now (m.last t))

  -- The mask after a turn of the loop.
  assess_mask :
      (m : StalenessMonitor R) (now : R) (t : TopicBit) (p : StalenessReport R)
      → (assess m now t p).mask ≡ (if is_stale m now t then set_bit p.mask t else p.mask)
  unfolding assess
  assess_mask m now t p = ground arith

  turn :
      (m : StalenessMonitor R) (now : R) (t : TopicBit) (p : StalenessReport R)
      → p.mask < 2 ^ topic_bit t
      → (assess m now t p).mask ≡ p.mask + weight (is_stale m now) t
  turn m now t p h =
      assess_mask m now t p ∙ summand (is_stale m now t) p.mask _ _ (set_bit_lem t p.mask h)

  -- The mask of the report is that of the stale topics.
  evaluate_mask :
      (m : StalenessMonitor R) (now : R)
      → (assess_all m now topics blank_report).mask ≡ mask_of (is_stale m now)
  unfolding assess_all
  evaluate_mask m now =
      let p0 = assess m now timesync blank_report in
      let p1 = assess m now local_position p0 in
      let p2 = assess m now vehicle_status p1 in
      let p3 = assess m now attitude p2 in
      let p4 = assess m now estimator_flags p3 in
      let e0 = turn m now timesync blank_report (omega arith) in
      let e1 = turn m now local_position p0 (ground arith) in
      let e2 = turn m now vehicle_status p1 (ground arith) in
      let e3 = turn m now attitude p2 (ground arith) in
      let e4 = turn m now estimator_flags p3 (ground arith) in
      let e5 = turn m now gps p4 (ground arith) in omega (arith, e0, e1, e2, e3, e4, e5)

  all_fresh-none_of :
      (m : StalenessMonitor R) (now : R) (ts : List TopicBit)
      → all_fresh_of m now ts ≡ none_of (is_stale m now) ts
  unfolding all_fresh_of
  all_fresh-none_of m now [] = refl
  all_fresh-none_of m now (t ∷ ts) =
      ap (λ rest. if is_stale m now t then false else rest) (all_fresh-none_of m now ts)

  -- The report's mask names exactly the topics that were never received or are older than their
  -- limits; the session is alive exactly while the time synchronisation is fresh; and the mask is
  -- empty exactly when the immediate test says that all topics are fresh.
  pub evaluate_lem :
      (m : StalenessMonitor R) (now : R)
      → let report = (evaluate m now).1 in
        ((t : TopicBit) → has_bit report.mask t ≡ is_stale m now t)
        × (report.session_alive ≡ not (is_stale m now timesync))
        × ((report.mask ≡ 0) ↔ (all_fresh m now ≡ true))
  unfolding evaluate all_fresh
  evaluate_lem m now = (
    λ t. ap (λ n. has_bit n t) (evaluate_mask m now) ∙ mask_of-bit (is_stale m now) t,
    ap (λ n. not (has_bit n timesync)) (evaluate_mask m now)
        ∙ ap not (mask_of-bit (is_stale m now) timesync),
    ground (
      arith,
      evaluate_mask m now,
      mask_of-empty (is_stale m now),
      all_fresh-none_of m now topics,
    ),
  )
