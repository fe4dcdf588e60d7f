-- ===== src/Link/Topics/Bits.antt =====
-- The mask of the topics as a sum of powers of two.
use dyx_3wd.Base.{
  ℕ, ◌+◌, ◌^◌, ◌<◌, ◌≡◌, ◌↔◌, Bool, true, false, List, [], ◌∷◌, arith, if◌then◌else◌,
}
use dyx_3wd.Link.Topics.Ops.{
  TopicBit, timesync, local_position, vehicle_status, attitude, estimator_flags, gps, topic_bit,
  topics, has_bit, set_bit,
}

-- A mask of the bits below a topic's takes its bit as a summand.
pub set_bit_lem :
    (t : TopicBit) (mask : ℕ) → mask < 2 ^ topic_bit t → set_bit mask t ≡ mask + 2 ^ topic_bit t
set_bit_lem timesync mask h = ground arith
set_bit_lem local_position mask h = ground arith
set_bit_lem vehicle_status mask h = ground arith
set_bit_lem attitude mask h = ground arith
set_bit_lem estimator_flags mask h = ground arith
set_bit_lem gps mask h = ground arith

abbrev pub weight : (TopicBit → Bool) → TopicBit → ℕ
weight b t = if b t then 2 ^ topic_bit t else 0

-- The mask of a set of topics.
abbrev pub mask_of : (TopicBit → Bool) → ℕ
mask_of b =
    weight b timesync
    + weight b local_position
    + weight b vehicle_status
    + weight b attitude
    + weight b estimator_flags
    + weight b gps

abbrev sum_of : Bool → Bool → Bool → Bool → Bool → Bool → ℕ
sum_of a b c d e f =
    (if a then 1 else 0)
    + (if b then 2 else 0)
    + (if c then 4 else 0)
    + (if d then 8 else 0)
    + (if e then 16 else 0)
    + (if f then 32 else 0)

sum_of-bits :
    (a b c d e f : Bool)
    → let m = sum_of a b c d e f in
      (has_bit m timesync ≡ a)
      × (has_bit m local_position ≡ b)
      × (has_bit m vehicle_status ≡ c)
      × (has_bit m attitude ≡ d)
      × (has_bit m estimator_flags ≡ e)
      × (has_bit m gps ≡ f)
sum_of-bits a b c d e f = ground arith

-- The mask has the bits of the topics of the set, and no others.
pub mask_of-bit : (b : TopicBit → Bool) (t : TopicBit) → has_bit (mask_of b) t ≡ b t
mask_of-bit b timesync =
    (sum_of-bits (b timesync) (b local_position) (b vehicle_status) (b attitude) (b estimator_flags)
      (b gps)).0
mask_of-bit b local_position =
    (sum_of-bits (b timesync) (b local_position) (b vehicle_status) (b attitude) (b estimator_flags)
      (b gps)).1
mask_of-bit b vehicle_status =
    (sum_of-bits (b timesync) (b local_position) (b vehicle_status) (b attitude) (b estimator_flags)
      (b gps)).2
mask_of-bit b attitude =
    (sum_of-bits (b timesync) (b local_position) (b vehicle_status) (b attitude) (b estimator_flags)
      (b gps)).3
mask_of-bit b estimator_flags =
    (sum_of-bits (b timesync) (b local_position) (b vehicle_status) (b attitude) (b estimator_flags)
      (b gps)).4
mask_of-bit b gps =
    (sum_of-bits (b timesync) (b local_position) (b vehicle_status) (b attitude) (b estimator_flags)
      (b gps)).5

-- Whether the set has none of the topics of a list.
abbrev pub none_of : (TopicBit → Bool) → List TopicBit → Bool
none_of b [] = true
none_of b (t ∷ ts) = let rest = none_of b ts in if b t then false else rest

pub mask_of-empty : (b : TopicBit → Bool) → (mask_of b ≡ 0) ↔ (none_of b topics ≡ true)
mask_of-empty b = ground arith
