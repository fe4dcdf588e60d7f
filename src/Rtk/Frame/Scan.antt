-- ===== src/Rtk/Frame/Scan.antt =====
-- The loop of the parser: its fuel, and a stream that comes in pieces.
use dyx_3wd.Base.{
  ℕ, zero, suc, ◌+◌, ◌*◌, ◌%◌, ◌≤◌, ◌≡◌, refl, sym, ap, ◌∙◌, Bool, true, false, List, [], ◌∷◌, ◌++◌,
  arith, length, drop, length-append, length-drop, drop-append, take-append, Bool-cases, inl, inr,
}
use dyx_3wd.Rtk.Frame.Ops.{
  reserved_bits, RtcmParser, Look, waits, skips, fails, takes, look, check, consume, waiting, cut,
  scan, appended, big_endian,
}

-- The bytes that a turn of the loop consumes.
abbrev pub size : Look → ℕ
size waits = 0
size skips = 1
size (fails _) = 1
size (takes n _) = n

pub look-size :
    (bs : List ℕ) → waiting (look bs) ≡ false → (1 ≤ size (look bs)) × (size (look bs) ≤ length bs)
unfolding look
look-size [] h = ground arith
look-size (a ∷ []) h = ground arith
look-size (a ∷ b ∷ []) h = ground arith
look-size (a ∷ b ∷ c ∷ bs) h = ground arith

big_endian-append : (xs ys : List ℕ) → 3 ≤ length xs → big_endian (xs ++ ys) ≡ big_endian xs
big_endian-append [] ys h = absurd (omega (arith, h))
big_endian-append (a ∷ []) ys h = absurd (omega (arith, h))
big_endian-append (a ∷ b ∷ []) ys h = absurd (omega (arith, h))
big_endian-append (a ∷ b ∷ c ∷ xs) ys h = refl

check-append :
    (bs cs : List ℕ) (payload : ℕ) (reserved : Bool)
    → waiting (check bs payload reserved) ≡ false
    → check (bs ++ cs) payload reserved ≡ check bs payload reserved
check-append bs cs payload reserved h = ground (
  arith,
  length-append bs cs,
  length-drop payload bs,
  take-append payload bs cs,
  drop-append payload bs cs,
  big_endian-append (drop payload bs) cs,
)

-- Bytes that come later do not change a turn that does not wait.
pub look-append : (bs cs : List ℕ) → waiting (look bs) ≡ false → look (bs ++ cs) ≡ look bs
unfolding look
look-append [] cs h = ground arith
look-append (a ∷ []) cs h = ground arith
look-append (a ∷ b ∷ []) cs h = ground arith
look-append (a ∷ b ∷ c ∷ bs) cs h =
    ground (arith, check-append (a ∷ b ∷ c ∷ bs) cs (3 + (b * 256 + c) % 1024) (reserved_bits b))

pub consume-buf : (p : RtcmParser) (l : Look) → (consume p l).buf ≡ drop (size l) p.buf
unfolding consume
consume-buf p waits = refl
consume-buf p skips = refl
consume-buf p (fails _) = refl
consume-buf p (takes n _) = refl

pub consume-appended :
    (p : RtcmParser) (l : Look) (cs : List ℕ)
    → size l ≤ length p.buf
    → consume (appended p cs) l ≡ appended (consume p l) cs
unfolding consume
consume-appended p waits cs h = refl
consume-appended p skips cs h = rw (drop-append 1 p.buf cs h)
consume-appended p (fails _) cs h = rw (drop-append 1 p.buf cs h)
consume-appended p (takes n _) cs h = rw (drop-append n p.buf cs h)

pub cut-append : (l : Look) (bs cs : List ℕ) → size l ≤ length bs → cut l (bs ++ cs) ≡ cut l bs
cut-append waits bs cs h = refl
cut-append skips bs cs h = refl
cut-append (fails _) bs cs h = refl
cut-append (takes n _) bs cs h = rw (take-append n bs cs h)

pub scan-stop : (fuel : ℕ) (p : RtcmParser) → waiting (look p.buf) ≡ true → scan fuel p ≡ (p, [])
unfolding scan
scan-stop zero p h = refl
scan-stop (suc fuel) p h = rw (h, scan)

-- The turn and the rest of the loop.
abbrev pub turn : ℕ → RtcmParser → RtcmParser × List (List ℕ)
turn fuel p =
    let (p', fs) = scan fuel (consume p (look p.buf)) in (p', cut (look p.buf) p.buf ++ fs)

pub scan-go :
    (fuel : ℕ) (p : RtcmParser) → waiting (look p.buf) ≡ false → scan (suc fuel) p ≡ turn fuel p
unfolding scan
scan-go fuel p h = rw (h, scan)

-- A turn leaves less than it found.
pub turn-shorter :
    (p : RtcmParser)
    → waiting (look p.buf) ≡ false
    → suc (length (consume p (look p.buf)).buf) ≤ length p.buf
turn-shorter p h =
    let e = ap length (consume-buf p (look p.buf)) in
    omega (arith, e, length-drop (size (look p.buf)) p.buf, look-size p.buf h)

-- The rule of induction over the turns of the loop.
pub scan-induct {κ} :
    (P : RtcmParser → Type κ)
    → ((p : RtcmParser) → waiting (look p.buf) ≡ true → P p)
    → ((p : RtcmParser) → waiting (look p.buf) ≡ false → P (consume p (look p.buf)) → P p)
    → (n : ℕ) (p : RtcmParser) → length p.buf ≤ n
    → P p
scan-induct P stop go zero p h = elim (Bool-cases (waiting (look p.buf))) [
  | inl w ↦ stop p w
  | inr g ↦ absurd (omega (arith, h, turn-shorter p g))
]
scan-induct P stop go (suc n) p h = elim (Bool-cases (waiting (look p.buf))) [
  | inl w ↦ stop p w
  | inr g ↦ go p g (scan-induct P stop go n _ (omega (arith, h, turn-shorter p g)))
]

-- What holds with any fuel that is enough for the buffer.
abbrev pub Enough : RtcmParser → (ℕ → Type 0) → Type 0
Enough p P = (fuel : ℕ) → length p.buf ≤ fuel → P fuel

pub turn-Enough :
    (p : RtcmParser) (P : ℕ → Type 0)
    → waiting (look p.buf) ≡ false
    → Enough (consume p (look p.buf)) (λ fuel. P (suc fuel))
    → Enough p P
turn-Enough p P g k zero h = absurd (omega (arith, h, turn-shorter p g))
turn-Enough p P g k (suc fuel) h = k fuel (omega (arith, h, turn-shorter p g))

abbrev pub Ends : RtcmParser → ℕ → Type 0
Ends p fuel = waiting (look (scan fuel p).0.buf) ≡ true

-- With a byte of fuel for each byte of the buffer the loop ends where it waits for more bytes.
pub scan-waits : (p : RtcmParser) (fuel : ℕ) → length p.buf ≤ fuel → Ends p fuel
scan-waits p =
    scan-induct (λ q. Enough q (Ends q)) (λ q w fuel _. rw (scan-stop fuel q w) w)
      (λ q g ih. turn-Enough q (Ends q) g λ fuel k. rw (scan-go fuel q g) (ih fuel k))
      (length p.buf) p (omega arith)

abbrev pub Prefixes : List (List ℕ) → RtcmParser × List (List ℕ) → RtcmParser × List (List ℕ)
Prefixes fs o = (o.0, fs ++ o.1)

abbrev pub Agree : RtcmParser → ℕ → ℕ → Type 0
Agree p fuel more = scan fuel p ≡ scan more p

-- More fuel than that changes nothing.
pub scan-fuel : (p : RtcmParser) → Enough p λ fuel. Enough p (Agree p fuel)
scan-fuel p =
    scan-induct (λ q. Enough q λ fuel. Enough q (Agree q fuel))
      (λ q w f _ g _. scan-stop f q w ∙ sym (scan-stop g q w))
      (λ q g ih.
        turn-Enough q (λ fuel. Enough q (Agree q fuel)) g
          λ f hf. turn-Enough q (Agree q (suc f)) g λ f' hf'.
            scan-go f q g
            ∙ ap (Prefixes (cut (look q.buf) q.buf)) (ih f hf f' hf')
            ∙ sym (scan-go f' q g))
      (length p.buf) p (omega arith)
