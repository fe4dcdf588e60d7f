-- ===== src/Rtk/Frame/Valid.antt =====
-- The frames of the parser and the validating constructor.
use dyx_3wd.Base.{
  ℕ, suc, ◌+◌, ◌-◌, ◌*◌, ◌%◌, ◌≤◌, ◌<◌, ◌≡◌, refl, sym, ap, ◌∙◌, List, [], ◌∷◌, ◌++◌, some, arith,
  length, take, drop, All, length-take, take-take, drop-take, All-append, All-drop,
}
use dyx_3wd.Rtk.Frame.Ops.{
  RtcmParser, preamble, look, consume, cut, scan, appended, feed, crc24q, big_endian, parse,
}
use dyx_3wd.Rtk.Frame.Scan.{consume-buf, Enough, turn-Enough, scan-induct, scan-stop, scan-go, size}

abbrev pub AreBytes : List ℕ → Type 0
AreBytes = All λ b. b < 256

-- The validating constructor accepts the frame, as it is.
abbrev pub IsFrame : List ℕ → Type 0
IsFrame f = parse f ≡ some f

big_endian-take : (xs : List ℕ) → big_endian (take 3 xs) ≡ big_endian xs
big_endian-take [] = refl
big_endian-take (a ∷ []) = refl
big_endian-take (a ∷ b ∷ []) = refl
big_endian-take (a ∷ b ∷ c ∷ xs) = refl

-- The frame in `all`, whose payload has `m` bytes.
front-IsFrame :
    (b c : ℕ) (rest : List ℕ) (m : ℕ)
    → c < 256
    → m ≡ (b * 256 + c) % 1024
    → let all = preamble ∷ b ∷ c ∷ rest in
      m + 6 ≤ length all
      → crc24q (take (3 + m) all) ≡ big_endian (drop (3 + m) all)
      → IsFrame (take (3 + m + 3) all)
unfolding parse
front-IsFrame b c rest m byte e fits crc =
    let all = preamble ∷ b ∷ c ∷ rest in
    let f = preamble ∷ b ∷ c ∷ take (m + 3) rest in
    let same : take (3 + m + 3) all ≡ f =
      ap (λ k. take k all) (let s : 3 + m + 3 ≡ suc (suc (suc (m + 3))) = omega arith in s) in
    let long : length f ≡ m + 6 = omega (arith, length-take (m + 3) rest (omega (arith, fits))) in
    let at : length f - 3 ≡ 3 + m = omega (arith, long) in
    let body : take (length f - 3) f ≡ take (3 + m) all =
      ap (λ k. take k f) at
      ∙ ap (take (3 + m)) (sym same)
      ∙ take-take (3 + m) (3 + m + 3) all (omega arith) in
    let mark : big_endian (drop (length f - 3) f) ≡ big_endian (drop (3 + m) all) =
      ap (λ k. big_endian (drop k f)) at
      ∙ ap (λ g. big_endian (drop (3 + m) g)) (sym same)
      ∙ ap big_endian (drop-take (3 + m) 3 (3 + m + 3) all refl)
      ∙ big_endian-take (drop (3 + m) all) in
    let accepted : parse f ≡ some f = ground (arith, long, body, mark) in rw same accepted

cut-IsFrame : (bs : List ℕ) → AreBytes bs → All IsFrame (cut (look bs) bs)
unfolding look
cut-IsFrame [] h = tt
cut-IsFrame (a ∷ []) h = ground arith
cut-IsFrame (a ∷ b ∷ []) h = ground arith
cut-IsFrame (a ∷ b ∷ c ∷ rest) h =
    ground (arith, front-IsFrame b c rest ((b * 256 + c) % 1024) h.1.1.0 refl)

abbrev Cuts : RtcmParser → ℕ → Type 0
Cuts p fuel = AreBytes p.buf → All IsFrame (scan fuel p).1

scan-Cuts : (p : RtcmParser) → Enough p (Cuts p)
scan-Cuts p =
    scan-induct (λ q. Enough q (Cuts q)) (λ q w fuel _ _. rw (scan-stop fuel q w) tt)
      (λ q g ih. turn-Enough q (Cuts q) g λ fuel k h.
        let rest : AreBytes (consume q (look q.buf)).buf =
          rw (consume-buf q (look q.buf)) (All-drop _ (size (look q.buf)) q.buf h) in
        rw (scan-go fuel q g) (
          All-append IsFrame (cut (look q.buf) q.buf) (scan fuel (consume q (look q.buf))).1
            (cut-IsFrame q.buf h) (ih fuel k rest)))
      (length p.buf) p (omega arith)

-- Every frame that the parser gives for bytes passes the validating constructor of frames.
pub feed-IsFrame :
    (p : RtcmParser) (bytes : List ℕ)
    → AreBytes p.buf
    → AreBytes bytes
    → All IsFrame (feed p bytes).1
unfolding feed
feed-IsFrame p bytes h k =
    scan-Cuts (appended p bytes) (length (p.buf ++ bytes)) (omega arith)
      (All-append _ p.buf bytes h k)
