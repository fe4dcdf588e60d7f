-- ===== src/Rtk/Frame/RoundTrip.antt =====
-- The parser on a stream of valid frames.
use dyx_3wd.Base.{
  ℕ, zero, suc, ◌+◌, ◌-◌, ◌*◌, ◌%◌, ◌≤◌, ◌<◌, ◌≡◌, sym, ap, ◌∙◌, Bool, List, [], ◌∷◌, ◌++◌, arith,
  length, length-append, take, drop, All, take-all, drop-all, concat,
}
use dyx_3wd.Rtk.Frame.Ops.{
  RtcmParser, takes, preamble, look, check, reserved_bits, consume, waiting, cut, scan, appended,
  trim_buffer, feed, crc24q, big_endian, parse,
}
use dyx_3wd.Rtk.Frame.Scan.{look-append, consume-buf, scan-stop, scan-go, size}
use dyx_3wd.Rtk.Frame.Valid.{AreBytes, IsFrame}

check-frame :
    (a b c : ℕ) (rest : List ℕ) (reserved : Bool)
    → c < 256
    → let f = a ∷ b ∷ c ∷ rest in
      (length f ≡ b % 4 * 256 + c + 6)
      → crc24q (take (length f - 3) f) ≡ big_endian (drop (length f - 3) f)
      → check f (3 + (b * 256 + c) % 1024) reserved ≡ takes (length f) reserved
check-frame a b c rest reserved byte long crc =
    let f = a ∷ b ∷ c ∷ rest in
    let payload = 3 + (b * 256 + c) % 1024 in
    let at : length f - 3 ≡ payload = omega (arith, long, byte) in
    let whole : payload + 3 ≡ length f = omega (arith, long, byte) in
    let matched = ap (λ k. crc24q (take k f)) (sym at) ∙ crc ∙ ap (λ k. big_endian (drop k f)) at in
    ground (arith, matched, whole)

-- A valid frame at the front is taken.
look-frame :
    (f : List ℕ) → AreBytes f → IsFrame f → (reserved : Bool) × (look f ≡ takes (length f) reserved)
unfolding look parse
look-frame [] h v = ground arith
look-frame (a ∷ []) h v = ground arith
look-frame (a ∷ b ∷ []) h v = ground arith
look-frame (a ∷ b ∷ c ∷ rest) h v =
    let f = a ∷ b ∷ c ∷ rest in
    let accepted : (a ≡ preamble)
        × (length f ≡ b % 4 * 256 + c + 6)
        × (crc24q (take (length f - 3) f) ≡ big_endian (drop (length f - 3) f)) =
      ground arith in
    let (first, long, crc) = accepted in
    (
      reserved_bits b,
      ground (arith, check-frame a b c rest (reserved_bits b) h.1.1.0 long crc, first),
    )

-- The parser after it took a frame from the front.
turn-frame :
    (p : RtcmParser) (f rest : List ℕ) (fuel : ℕ)
    → p.buf ≡ f ++ rest
    → AreBytes f
    → IsFrame f
    → (q : RtcmParser) × (q.buf ≡ rest)
      × (scan (suc fuel) p ≡ ((scan fuel q).0, f ∷ (scan fuel q).1))
turn-frame p f rest fuel e h v =
    let (reserved, taken) = look-frame f h v in
    let here : look p.buf ≡ takes (length f) reserved =
      ap look e ∙ look-append f rest (ap waiting taken) ∙ taken in
    let q = consume p (look p.buf) in
    (
      q,
      consume-buf p (look p.buf)
          ∙ ap (λ l. drop (size l) p.buf) here
          ∙ ap (drop (length f)) e
          ∙ drop-all f rest,
      scan-go fuel p (ap waiting here)
          ∙ ap (λ fs. ((scan fuel q).0, fs ++ (scan fuel q).1))
              (ap (λ l. cut l p.buf) here
                ∙ ap (λ bs. take (length f) bs ∷ []) e
                ∙ ap (λ g. g ∷ []) (take-all f rest)),
    )

IsFrame-long : (f : List ℕ) → IsFrame f → 6 ≤ length f
unfolding parse
IsFrame-long f v = ground arith

scan-frames :
    (fs : List (List ℕ)) (p : RtcmParser) (fuel : ℕ)
    → p.buf ≡ concat fs
    → length (concat fs) ≤ fuel
    → All AreBytes fs
    → All IsFrame fs
    → ((scan fuel p).1 ≡ fs) × ((scan fuel p).0.buf ≡ [])
unfolding look
scan-frames [] p fuel e k h v =
    let none = scan-stop fuel p (ap (λ bs. waiting (look bs)) e) in
    (ap (λ o. o.1) none, ap (λ (o : RtcmParser × List (List ℕ)). o.0.buf) none ∙ e)
scan-frames (f ∷ fs) p zero e k h v =
    absurd (omega (arith, k, IsFrame-long f v.0, length-append f (concat fs)))
scan-frames (f ∷ fs) p (suc fuel) e k h v =
    let (q, left, turned) = turn-frame p f (concat fs) fuel e h.0 v.0 in
    let (out, done) =
      scan-frames fs q fuel left (omega (arith, k, IsFrame-long f v.0, length-append f (concat fs)))
        h.1 v.1 in
    (
      ap (λ (o : RtcmParser × List (List ℕ)). o.1) turned ∙ ap (λ gs. f ∷ gs) out,
      ap (λ (o : RtcmParser × List (List ℕ)). o.0.buf) turned ∙ done,
    )

-- Valid frames fed to a parser with an empty buffer, one after another, come out as they are, all of
-- them and in order, and nothing stays in the buffer.
pub feed-concat :
    (p : RtcmParser) (fs : List (List ℕ))
    → p.buf ≡ []
    → All AreBytes fs
    → All IsFrame fs
    → ((feed p (concat fs)).1 ≡ fs) × ((feed p (concat fs)).0.buf ≡ [])
unfolding feed trim_buffer
feed-concat p fs e h v =
    let start = ap (λ bs. bs ++ concat fs) e in
    let (out, done) =
      scan-frames fs (appended p (concat fs)) (length (p.buf ++ concat fs)) start
        (let n = ap length start in omega (arith, n)) h v in
    (out, ground (arith, done))
