-- ===== src/Link/Topics/Ops.antt =====
-- dds_session.hpp and .cpp. An array with an entry per topic is a function from the topic; the loops
-- over the topics go through the list of them, in the order of their bits.
use dyx_3wd.Base.{
  ℕ, ◌+◌, ◌/◌, ◌%◌, ◌^◌, Bool, true, false, not, ◌||◌, List, [], ◌∷◌, ◌==◌, if◌then◌else◌, u32,
}
use dyx_3wd.Base.Real.{Real, zero_real}

pub data TopicBit : Type 0 where
  timesync local_position vehicle_status attitude estimator_flags gps : TopicBit

abbrev pub topic_bit : TopicBit → ℕ
topic_bit timesync = 0
topic_bit local_position = 1
topic_bit vehicle_status = 2
topic_bit attitude = 3
topic_bit estimator_flags = 4
topic_bit gps = 5

abbrev pub topics : List TopicBit
topics = timesync ∷ local_position ∷ vehicle_status ∷ attitude ∷ estimator_flags ∷ gps ∷ []

-- `(mask & (1U << i)) != 0` and `mask | (1U << i)`.
abbrev pub has_bit : ℕ → TopicBit → Bool
has_bit mask t = mask / 2 ^ topic_bit t % 2 == 1

abbrev pub set_bit : ℕ → TopicBit → ℕ
set_bit mask t = if has_bit mask t then mask else mask + 2 ^ topic_bit t

pub record StalenessReport (R : Type 0) : Type 0 where
  pub mask : ℕ
  pub worst_age_s : R
  pub session_alive : Bool
  pub any_seen : Bool

pub record StalenessMonitor (R : Type 0) : Type 0 where
  pub max_age_s : TopicBit → R
  pub last : TopicBit → R
  pub seen : TopicBit → Bool
  pub was_alive : Bool
  pub had_dead_after_alive : Bool
  pub reset_flag : Bool
  pub resets : ℕ

module _ {R : Type 0} ⦃r : Real R⦄ where
  unfoldable pub limits : TopicBit → R
  limits timesync = r.lit 3 1
  limits local_position = r.lit 1 5
  limits vehicle_status = r.lit 1 1
  limits attitude = r.lit 1 5
  limits estimator_flags = r.lit 3 1
  limits gps = r.lit 1 1

  unfoldable pub monitor : (TopicBit → R) → StalenessMonitor R
  monitor max_age = record {
    max_age_s = max_age;
    last = λ _. zero_real;
    seen = λ _. false;
    was_alive = false;
    had_dead_after_alive = false;
    reset_flag = false;
    resets = 0;
  }

  unfoldable pub on_sample : StalenessMonitor R → TopicBit → R → StalenessMonitor R
  on_sample m t now = record m {
    last = λ u. if topic_bit u == topic_bit t then now else m.last u;
    seen = λ u. if topic_bit u == topic_bit t then true else m.seen u;
  }

  abbrev pub blank_report : StalenessReport R
  blank_report = record {
    mask = 0;
    worst_age_s = zero_real;
    session_alive = false;
    any_seen = false;
  }

  -- One turn of the loop of `evaluate`.
  unfoldable pub assess : StalenessMonitor R → R → TopicBit → StalenessReport R → StalenessReport R
  assess m now t report =
      let age = r.sub now (m.last t) in
      if not (m.seen t) then record report { mask = set_bit report.mask t } else record report {
        any_seen = true;
        worst_age_s = if r.lt report.worst_age_s age then age else report.worst_age_s;
        mask = if r.lt (m.max_age_s t) age then set_bit report.mask t else report.mask;
      }

  unfoldable pub assess_all :
      StalenessMonitor R → R → List TopicBit → StalenessReport R → StalenessReport R
  assess_all m now [] report = report
  assess_all m now (t ∷ ts) report = assess_all m now ts (assess m now t report)

  -- The report, and the counting of the resets.
  unfoldable pub note_alive : StalenessMonitor R → Bool → StalenessMonitor R
  note_alive m alive =
      if alive
      then record m {
        resets = if m.had_dead_after_alive then u32 (m.resets + 1) else m.resets;
        reset_flag = if m.had_dead_after_alive then true else m.reset_flag;
        had_dead_after_alive = false;
        was_alive = true;
      }
      else if m.was_alive
      then record m { had_dead_after_alive = true }
      else m

  unfoldable pub evaluate : StalenessMonitor R → R → StalenessMonitor R × StalenessReport R
  evaluate m now =
      let report = assess_all m now topics blank_report in
      let alive = not (has_bit report.mask timesync) in
      (note_alive m alive, record report { session_alive = alive })

  unfoldable pub all_fresh_of : StalenessMonitor R → R → List TopicBit → Bool
  all_fresh_of m now [] = true
  all_fresh_of m now (t ∷ ts) =
      let rest = all_fresh_of m now ts in
      if not (m.seen t) || r.lt (m.max_age_s t) (r.sub now (m.last t)) then false else rest

  unfoldable pub all_fresh : StalenessMonitor R → R → Bool
  all_fresh m now = all_fresh_of m now topics

  unfoldable pub consume_reset : StalenessMonitor R → StalenessMonitor R × Bool
  consume_reset m = (record m { reset_flag = false }, m.reset_flag)

-- The methods that change the monitor.
pub data Call (R : Type 0) : Type 0 where
  samples : TopicBit → R → Call R
  evaluates : R → Call R
  consumes : Call R

unfoldable pub call : {R : Type 0} ⦃r : Real R⦄ → StalenessMonitor R → Call R → StalenessMonitor R
unfolding on_sample evaluate consume_reset
call m (samples t now) = on_sample m t now
call m (evaluates now) = (evaluate m now).0
call m consumes = (consume_reset m).0
