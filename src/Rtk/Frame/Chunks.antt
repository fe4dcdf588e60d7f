-- ===== src/Rtk/Frame/Chunks.antt =====
-- The parser on a stream that comes in pieces.
use dyx_3wd.Base.{
  ℕ, suc, ◌≤◌, ◌≡◌, refl, sym, ap, ◌∙◌, subst, false, List, ◌++◌, arith, length, length-append,
}
use mathlib.Core.List.{append_assoc}
use dyx_3wd.Rtk.Frame.Ops.{
  RtcmParser, Look, waits, skips, fails, takes, look, consume, waiting, cut, scan, appended,
  trim_buffer, feed,
}
use dyx_3wd.Rtk.Frame.Scan.{
  look-size, look-append, consume-appended, cut-append, scan-stop, scan-go, turn, turn-shorter,
  scan-induct, Enough, turn-Enough, Prefixes, scan-fuel,
}

consume-max_buffer : (p : RtcmParser) (l : Look) → (consume p l).max_buffer ≡ p.max_buffer
unfolding consume
consume-max_buffer p waits = refl
consume-max_buffer p skips = refl
consume-max_buffer p (fails _) = refl
consume-max_buffer p (takes n _) = refl

abbrev Shrinks : RtcmParser → ℕ → Type 0
Shrinks p fuel =
    (length (scan fuel p).0.buf ≤ length p.buf) × ((scan fuel p).0.max_buffer ≡ p.max_buffer)

-- What the loop leaves is no longer than what it found.
pub scan-Shrinks : (p : RtcmParser) → Enough p (Shrinks p)
scan-Shrinks p =
    scan-induct (λ q. Enough q (Shrinks q))
      (λ q w fuel _. rw (scan-stop fuel q w) (omega arith, refl))
      (λ q g ih. turn-Enough q (Shrinks q) g λ fuel k.
        let (shorter, same) = ih fuel k in
        rw (scan-go fuel q g)
          (omega (arith, shorter, turn-shorter q g), same ∙ consume-max_buffer q (look q.buf)))
      (length p.buf) p (omega arith)

-- The turn with later bytes is the turn without them.
consume-later :
    (p : RtcmParser) (cs : List ℕ)
    → waiting (look p.buf) ≡ false
    → (consume (appended p cs) (look (p.buf ++ cs)) ≡ appended (consume p (look p.buf)) cs)
      × (cut (look (p.buf ++ cs)) (p.buf ++ cs) ≡ cut (look p.buf) p.buf)
consume-later p cs g =
    let fits = (look-size p.buf g).1 in
    let e = look-append p.buf cs g in
    (
      ap (consume (appended p cs)) e ∙ consume-appended p (look p.buf) cs fits,
      ap (λ l. cut l (p.buf ++ cs)) e ∙ cut-append (look p.buf) p.buf cs fits,
    )

Prefixes-twice :
    (fs gs : List (List ℕ)) (o : RtcmParser × List (List ℕ))
    → Prefixes fs (Prefixes gs o) ≡ Prefixes (fs ++ gs) o
Prefixes-twice fs gs o = ap (λ hs. (o.0, hs)) (sym (append_assoc fs gs o.1))

abbrev Resumes : List ℕ → RtcmParser → ℕ → ℕ → Type 0
Resumes cs p fuel more =
    scan more (appended p cs) ≡ Prefixes (scan fuel p).1 (scan more (appended (scan fuel p).0 cs))

-- One turn of the proof below: `q` is what the turn leaves.
turn-Resumes :
    (p : RtcmParser) (cs : List ℕ) (fuel more : ℕ)
    → waiting (look p.buf) ≡ false
    → let q = consume p (look p.buf) in
      length q.buf ≤ fuel
      → length (q.buf ++ cs) ≤ more
      → Resumes cs q fuel more
      → Resumes cs p (suc fuel) (suc more)
turn-Resumes p cs fuel more g h k ih =
    let q = consume p (look p.buf) in
    let (turned, cuts) = consume-later p cs g in
    let later = look-append p.buf cs g in
    let r = (scan fuel q).0 in
    let shorter = (scan-Shrinks q fuel h).0 in
    let enough : length (r.buf ++ cs) ≤ more =
      omega (arith, k, shorter, length-append q.buf cs, length-append r.buf cs) in
    scan-go more (appended p cs) (ap waiting later ∙ g)
    ∙ ap (λ fs. Prefixes fs (scan more (consume (appended p cs) (look (p.buf ++ cs))))) cuts
    ∙ ap (λ t. Prefixes (cut (look p.buf) p.buf) (scan more t)) turned
    ∙ ap (Prefixes (cut (look p.buf) p.buf)) ih
    ∙ Prefixes-twice (cut (look p.buf) p.buf) (scan fuel q).1 (scan more (appended r cs))
    ∙ ap (Prefixes (turn fuel p).1)
        (scan-fuel (appended r cs) more enough (suc more) (omega (arith, enough)))
    ∙ ap (λ (o : RtcmParser × List (List ℕ)). Prefixes o.1 (scan (suc more) (appended o.0 cs)))
        (sym (scan-go fuel p g))

-- Bytes that come later are scanned after what the loop left, as if they had been there before.
pub scan-Resumes :
    (p : RtcmParser) (cs : List ℕ) → Enough p λ fuel. Enough (appended p cs) (Resumes cs p fuel)
scan-Resumes p cs =
    scan-induct (λ q. Enough q λ fuel. Enough (appended q cs) (Resumes cs q fuel))
      (λ q w fuel _ more _. rw (scan-stop fuel q w) refl)
      (λ q g ih.
        turn-Enough q (λ fuel. Enough (appended q cs) (Resumes cs q fuel)) g
          λ fuel h.
            turn-Enough (appended q cs) (Resumes cs q (suc fuel))
              (ap waiting (look-append q.buf cs g) ∙ g)
              λ more k.
                let k' =
                  subst (λ (t : RtcmParser). length t.buf ≤ more) (consume-later q cs g).0 k in
                turn-Resumes q cs fuel more g h k' (ih fuel h more k'))
      (length p.buf) p (omega arith)

trim-fits : (p : RtcmParser) → length p.buf ≤ p.max_buffer → trim_buffer p ≡ p
unfolding trim_buffer
trim-fits p h = ground arith

-- Where the buffer can hold the bytes, `feed` is the loop.
feed-scan :
    (p : RtcmParser) (bytes : List ℕ) (fuel : ℕ)
    → length (p.buf ++ bytes) ≤ p.max_buffer
    → length (p.buf ++ bytes) ≤ fuel
    → feed p bytes ≡ scan fuel (appended p bytes)
unfolding feed
feed-scan p bytes fuel h k =
    let all = appended p bytes in
    let enough = length (p.buf ++ bytes) in
    let (shorter, same) = scan-Shrinks all enough (omega arith) in
    ap (λ q. (q, (scan enough all).1))
      (trim-fits (scan enough all).0 (omega (arith, shorter, same, h)))
    ∙ scan-fuel all enough (omega arith) fuel k

-- If the buffer can hold all the bytes, feeding them in two pieces leaves the parser as feeding them
-- at once, its counters included, and gives the same frames in the same order.
pub feed_in_pieces :
    (p : RtcmParser) (first second : List ℕ)
    → length (p.buf ++ first ++ second) ≤ p.max_buffer
    → let (p₁, frames₁) = feed p first in
      let (p₂, frames₂) = feed p₁ second in feed p (first ++ second) ≡ (p₂, frames₁ ++ frames₂)
feed_in_pieces p first second h =
    let a = appended p first in
    let fuel = length a.buf in
    let all = length (p.buf ++ first ++ second) in
    let rest = (scan fuel a).0 in
    let (shorter, same) = scan-Shrinks a fuel (omega arith) in
    let whole = length-append a.buf second in
    let first_part : feed p first ≡ scan fuel a =
      feed-scan p first fuel (omega (arith, h, whole)) (omega arith) in
    let piece : length (rest.buf ++ second) ≤ all =
      omega (arith, shorter, whole, length-append rest.buf second) in
    let second_part : feed rest second ≡ scan all (appended rest second) =
      feed-scan rest second all (omega (arith, piece, same, h)) piece in
    let joined = append_assoc p.buf first second in
    let size = ap length joined in
    feed-scan p (first ++ second) all (omega (arith, size, h)) (omega (arith, size))
    ∙ ap (λ bs. scan all (record p { buf = bs })) (sym joined)
    ∙ scan-Resumes a second fuel (omega arith) all (omega arith)
    ∙ ap (Prefixes (scan fuel a).1) (sym second_part)
    ∙ ap (λ (o : RtcmParser × List (List ℕ)). Prefixes o.1 (feed o.0 second)) (sym first_part)
