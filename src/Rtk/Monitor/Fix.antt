-- ===== src/Rtk/Monitor/Fix.antt =====
-- FixMonitor of correction_health.hpp and .cpp.
use dyx_3wd.Base.{
  ℕ, suc, ◌+◌, ◌≤◌, ◌≡◌, refl, sym, subst, Bool, true, false, not, ◌&&◌, ◌||◌, Option, none, some,
  List, [], ◌∷◌, ◌++◌, arith, ltb, ◌==◌, if◌then◌else◌, u32, if_cases, length, drop, length-append,
  length-drop,
}
use dyx_3wd.Base.Chain.{LeadsTo, LeadsTo-append, LeadsTo-drop}
use dyx_3wd.Base.Trace.{after, after_inv}

pub record FixTransition (R : Type 0) : Type 0 where
  pub t_s : R
  pub source : ℕ
  pub target : ℕ
  pub correction_age_s : R
  pub corrections_fresh : Bool
  pub suspicious : Bool

pub record FixMonitor (R : Type 0) : Type 0 where
  pub have_fix : Bool
  pub fix : ℕ
  pub count : ℕ
  pub log : List (FixTransition R)

abbrev pub is_rtk : ℕ → Bool
is_rtk fix_type = fix_type == 5 || fix_type == 6

pub record Observation (R : Type 0) : Type 0 where
  pub now_s : R
  pub fix_type : ℕ
  pub corrections_fresh : Bool
  pub correction_age_s : R

module _ {R : Type 0} where
  abbrev pub fix_monitor : FixMonitor R
  fix_monitor = record { have_fix = false; fix = 0; count = 0; log = [] }

  -- The log keeps the last 256 transitions.
  abbrev pub push_log : List (FixTransition R) → FixTransition R → List (FixTransition R)
  push_log log t =
      let grown = log ++ t ∷ [] in if ltb 256 (length grown) then drop 1 grown else grown

  abbrev pub transition : FixMonitor R → Observation R → FixTransition R
  transition m o = record {
    t_s = o.now_s;
    source = m.fix;
    target = o.fix_type;
    correction_age_s = o.correction_age_s;
    corrections_fresh = o.corrections_fresh;
    suspicious = is_rtk m.fix && not (is_rtk o.fix_type) && o.corrections_fresh;
  }

  unfoldable pub update : FixMonitor R → Observation R → FixMonitor R × Option (FixTransition R)
  update m o =
      let t = transition m o in
      if not m.have_fix
      then (record m { have_fix = true; fix = o.fix_type }, none)
      else if o.fix_type == m.fix
      then (m, none)
      else (
        record m { fix = o.fix_type; count = u32 (m.count + 1); log = push_log m.log t },
        some t,
      )

  -- The log has at most 256 transitions, each a change that begins where the one before it ended;
  -- the last one ended at the fix.
  pub record IsLog (m : FixMonitor R) : Type 0 where
    pub short : length m.log ≤ 256
    pub unknown : m.have_fix ≡ false → m.log ≡ []
    pub leads : LeadsTo (λ t. t.source) (λ t. t.target) m.log m.fix

  push_log-LeadsTo :
      (log : List (FixTransition R)) (t : FixTransition R)
      → LeadsTo (λ u. u.source) (λ u. u.target) log t.source
      → LeadsTo (λ u. u.source) (λ u. u.target) (push_log log t) t.target
  push_log-LeadsTo log t h =
      let grown = log ++ t ∷ [] in
      let kept = LeadsTo-append (λ u. u.source) (λ u. u.target) log t h in
      if_cases (λ ts. LeadsTo (λ u. u.source) (λ u. u.target) ts t.target) (ltb 256 (length grown))
        (drop 1 grown) grown
        (λ long. LeadsTo-drop (λ u. u.source) (λ u. u.target) 1 grown t.target kept) (λ short. kept)

  length-push_log :
      (log : List (FixTransition R)) (t : FixTransition R)
      → length log ≤ 256
      → length (push_log log t) ≤ 256
  length-push_log log t few =
      let grown = log ++ t ∷ [] in
      ground (arith, few, length-append log (t ∷ []), length-drop 1 grown)

  nothing_logged :
      (log : List (FixTransition R)) (fix : ℕ)
      → log ≡ []
      → LeadsTo (λ t. t.source) (λ t. t.target) log fix
  nothing_logged log fix e =
      subst (λ ts. LeadsTo (λ t. t.source) (λ t. t.target) ts fix) (sym e) (fix, tt, refl)

  update-IsLog : (m : FixMonitor R) (o : Observation R) → IsLog m → IsLog (update m o).0
  unfolding update
  update-IsLog m o h =
      if_cases (λ (out : FixMonitor R × Option (FixTransition R)). IsLog out.0) (not m.have_fix) _ _
        (λ first.
          let e = h.unknown (ground (arith, first)) in
          record { short = h.short; unknown = λ _. e; leads = nothing_logged m.log o.fix_type e })
        (λ later.
          if_cases (λ (out : FixMonitor R × Option (FixTransition R)). IsLog out.0)
            (o.fix_type == m.fix) _ _ (λ same. h)
            (λ changed. record {
              short = length-push_log m.log (transition m o) h.short;
              unknown = λ none_yet. absurd (ground (arith, later, none_yet));
              leads = push_log-LeadsTo m.log (transition m o) h.leads;
            }))

  -- How often the fix changed over the observations, the latest first.
  abbrev pub changes : List (Observation R) → ℕ
  changes [] = 0
  changes (o ∷ os) =
      let n = changes os in
      elim os [ [] ↦ 0 | p ∷ ps ↦ if o.fix_type == p.fix_type then n else suc n ]

  unfoldable pub observe : FixMonitor R → Observation R → FixMonitor R
  unfolding update
  observe m o = (update m o).0

  abbrev pub Follows : List (Observation R) → FixMonitor R → Type 0
  Follows [] m = (m.have_fix ≡ false) × (m.count ≡ 0)
  Follows (o ∷ os) m =
      (m.have_fix ≡ true) × (m.fix ≡ o.fix_type) × (m.count ≡ u32 (changes (o ∷ os)))

  after-Follows : (os : List (Observation R)) → Follows os (after observe fix_monitor os)
  unfolding after observe update
  after-Follows [] = ground arith
  after-Follows (o ∷ []) = ground arith
  after-Follows (o ∷ p ∷ os) = ground (arith, after-Follows (p ∷ os))

  fix_monitor-IsLog : IsLog fix_monitor
  fix_monitor-IsLog = record { short = omega arith; unknown = λ _. refl; leads = (0, tt, refl) }

  observe-IsLog : (m : FixMonitor R) (o : Observation R) → IsLog m → IsLog (observe m o)
  unfolding observe
  observe-IsLog = update-IsLog

  -- Over any observations the monitor keeps the latest fix type, counts its changes modulo 2^32, and
  -- keeps the last 256 at most of them in a log without gaps that ends at that fix type.
  pub observe_lem :
      (o : Observation R) (os : List (Observation R))
      → let m = after observe fix_monitor (o ∷ os) in
        (m.fix ≡ o.fix_type) × (m.count ≡ u32 (changes (o ∷ os))) × IsLog m
  observe_lem o os =
      let (_, fix, count) = after-Follows (o ∷ os) in
      (fix, count, after_inv observe fix_monitor IsLog fix_monitor-IsLog observe-IsLog (o ∷ os))
