-- ===== src/Examples/Rtk.antt =====
-- The RTCM parser's theorems on two short frames and a byte between them.
use dyx_3wd.Base.{ℕ, ◌≡◌, refl, List, [], ◌∷◌, ◌++◌, arith}
use dyx_3wd.Rtk.Frame.Ops.{
  RtcmParser, feed, parse, crc24q, crc_from, rtcm_message_type, look, consume, trim_buffer,
}
use dyx_3wd.Rtk.Frame.Chunks.{feed_in_pieces}
use dyx_3wd.Rtk.Frame.Valid.{IsFrame}
use dyx_3wd.Rtk.Frame.RoundTrip.{feed-concat}

abbrev empty : RtcmParser
empty = record {
  max_buffer = 8192;
  buf = [];
  frames = 0;
  crc_failures = 0;
  invalid_headers = 0;
  resync_bytes = 0;
}

-- A frame of message 1005, and one with a reserved header bit.
abbrev one : List ℕ
one = 211 ∷ 0 ∷ 2 ∷ 62 ∷ 208 ∷ 164 ∷ 224 ∷ 0 ∷ []

abbrev two : List ℕ
two = 211 ∷ 4 ∷ 1 ∷ 7 ∷ 19 ∷ 149 ∷ 203 ∷ []

one-IsFrame : IsFrame one
unfolding parse crc24q crc_from
one-IsFrame = refl

two-IsFrame : IsFrame two
unfolding parse crc24q crc_from
two-IsFrame = refl

one_type : rtcm_message_type one ≡ 1005
unfolding rtcm_message_type
one_type = refl

-- A byte between the frames is skipped and counted.
skips_noise :
    let (p, fs) = feed empty (one ++ 9 ∷ two) in
    (fs ≡ one ∷ two ∷ []) × (p.resync_bytes ≡ 1) × (p.frames ≡ 2) × (p.invalid_headers ≡ 1)
unfolding feed look consume trim_buffer crc24q crc_from
skips_noise = (refl, refl, refl, refl)

feed_in_pieces_example :
    let (p, fs) = feed empty (211 ∷ 0 ∷ 2 ∷ []) in
    let (q, gs) = feed p (62 ∷ 208 ∷ 164 ∷ 224 ∷ 0 ∷ two) in feed empty (one ++ two) ≡ (q, fs ++ gs)
feed_in_pieces_example =
    feed_in_pieces empty (211 ∷ 0 ∷ 2 ∷ []) (62 ∷ 208 ∷ 164 ∷ 224 ∷ 0 ∷ two) (omega arith)

feed-concat_example :
    ((feed empty (one ++ two ++ [])).1 ≡ one ∷ two ∷ [])
    × ((feed empty (one ++ two ++ [])).0.buf ≡ [])
feed-concat_example =
    feed-concat empty (one ∷ two ∷ []) refl (ground arith) (one-IsFrame, (two-IsFrame, tt))
