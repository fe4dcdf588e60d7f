-- ===== src/Mission/Progress/Digits.antt =====
-- A number, a text and a list of points are read back as they were written.
use dyx_3wd.Base.{
  ℕ, zero, suc, ◌+◌, ◌-◌, ◌*◌, ◌/◌, ◌%◌, ◌≤◌, ◌<◌, ◌≡◌, refl, sym, ap, ◌∙◌, subst, ◌⊎◌, inl, inr,
  Bool, true, false, not, ◌&&◌, ◌||◌, Option, none, some, List, [], ◌∷◌, ◌++◌, arith, ltb, ◌==◌,
  if◌then◌else◌, ltb→lt, Bool-cases, if_cases, length, All, length-append,
}
use dyx_3wd.Mission.Progress.Reader.{
  ws, eat, begins, peek, prepend, read_text, read_digits, read_u32, is_digit, max_u32,
  accept_digits,
}
use dyx_3wd.Mission.Progress.Record.{digits_of, decimal, join_points, plain_string}
use dyx_3wd.Mission.Progress.Parse.{gives, read_points}

-- The number has at most f digits.
abbrev Enough : ℕ → ℕ → Type 0
Enough zero n = ⊥
Enough (suc f) n = (n < 10) ⊎ Enough f (n / 10)

enough : (n : ℕ) → n ≤ max_u32 → Enough 10 n
enough n h = inr (inr (inr (inr (inr (inr (inr (inr (inr (inl (omega (arith, h)))))))))))

-- The digits come one after another.
read_digits-one :
    (v n d : ℕ) (t : List ℕ)
    → d < 10
    → v * 10 + d ≤ max_u32
    → read_digits v n ((48 + d) ∷ t) ≡ read_digits (v * 10 + d) (suc n) t
unfolding read_digits
read_digits-one v n d t small h =
    let e : v * 10 + (48 + d - 48) ≡ v * 10 + d = omega arith in
    subst
      (λ w.
        (if not (is_digit (48 + d))
          then some (v, n, (48 + d) ∷ t)
          else if ltb max_u32 w
          then none
          else read_digits w (suc n) t)
        ≡ read_digits (v * 10 + d) (suc n) t)
      (sym e)
      (if_cases (λ o. o ≡ read_digits (v * 10 + d) (suc n) t) (not (is_digit (48 + d))) _ _
        (λ other. absurd (ground (arith, other, small)))
        (λ digit.
          if_cases (λ o. o ≡ read_digits (v * 10 + d) (suc n) t) (ltb max_u32 (v * 10 + d)) _ _
            (λ over. absurd (ground (arith, over, h))) (λ fits. refl)))

append_assoc : {A : Type 0} (xs ys zs : List A) → (xs ++ ys) ++ zs ≡ xs ++ (ys ++ zs)
append_assoc [] ys zs = refl
append_assoc (x ∷ xs) ys zs = ap (λ l. x ∷ l) (append_assoc xs ys zs)

fewer : (f n : ℕ) → Enough (suc f) n → ltb n 10 ≡ false → Enough f (n / 10)
fewer f n (inl small) big = absurd (ground (arith, small, big))
fewer f n (inr rest) big = rest

read_digits-digits_of :
    (f n : ℕ) (t : List ℕ)
    → Enough f n
    → n ≤ max_u32
    → read_digits 0 0 (digits_of f n ++ t) ≡ read_digits n (length (digits_of f n)) t
unfolding digits_of
read_digits-digits_of zero n t e h = absurd e
read_digits-digits_of (suc f) n t e h =
    let front = digits_of f (n / 10) in
    let last : ℕ = 48 + n % 10 in
    if_cases (λ l. read_digits 0 0 (l ++ t) ≡ read_digits n (length l) t) (ltb n 10) _ _
      (λ small.
        read_digits-one 0 0 n t (ltb→lt n 10 small) (omega (arith, h))
        ∙ ap (λ w. read_digits w 1 t) (omega arith))
      (λ big.
        let rest = fewer f n e big in
        let size = length-append front (last ∷ []) in
        ap (read_digits 0 0) (append_assoc front (last ∷ []) t)
        ∙ read_digits-digits_of f (n / 10) (last ∷ t) rest (omega (arith, h))
        ∙ read_digits-one (n / 10) (length front) (n % 10) t (omega arith) (omega (arith, h))
        ∙ ap (λ w. read_digits w (suc (length front)) t) (omega arith)
        ∙ ap (λ k. read_digits n k t) (omega (arith, size)))

-- The first digit of a number that is not zero is not zero, and zero has one digit.
first_digit : (f n : ℕ) (t : List ℕ) → Enough f n → 0 < n → begins 48 (digits_of f n ++ t) ≡ false
unfolding digits_of
first_digit zero n t e h = absurd e
first_digit (suc f) n t e h =
    let front = digits_of f (n / 10) in
    let last : ℕ = 48 + n % 10 in
    if_cases (λ l. begins 48 (l ++ t) ≡ false) (ltb n 10) _ _ (λ small. ground (arith, small, h))
      (λ big.
        ap (begins 48) (append_assoc front (last ∷ []) t)
        ∙ first_digit f (n / 10) (last ∷ t) (fewer f n e big) (ground (arith, big)))

-- Digits are no blanks, and there is one at least.
digits_of-begin :
    (f n : ℕ) (t : List ℕ)
    → Enough f n
    → (ws (digits_of f n ++ t) ≡ digits_of f n ++ t) × (0 < length (digits_of f n))
unfolding digits_of ws
digits_of-begin zero n t e = absurd e
digits_of-begin (suc f) n t e =
    let front = digits_of f (n / 10) in
    let last : ℕ = 48 + n % 10 in
    if_cases (λ l. (ws (l ++ t) ≡ l ++ t) × (0 < length l)) (ltb n 10) _ _
      (λ small. (ground (arith, small), omega arith))
      (λ big.
        let (same, size) = digits_of-begin f (n / 10) (last ∷ t) (fewer f n e big) in
        let long = length-append front (last ∷ []) in
        (
          ap ws (append_assoc front (last ∷ []) t) ∙ same ∙ sym (append_assoc front (last ∷ []) t),
          omega (arith, long),
        ))

length-small : (f n : ℕ) → n < 10 → length (digits_of (suc f) n) ≡ 1
unfolding digits_of
length-small f n h =
    if_cases (λ (l : List ℕ). length l ≡ 1) (ltb n 10) _ _ (λ small. refl)
      (λ big. absurd (ground (arith, big, h)))

-- What follows a number begins with no digit.
abbrev pub Ends : List ℕ → Type 0
Ends [] = Unit
Ends (c ∷ t) = is_digit c ≡ false

read_digits-Ends : (v n : ℕ) (t : List ℕ) → Ends t → read_digits v n t ≡ some (v, n, t)
unfolding read_digits
read_digits-Ends v n [] h = refl
read_digits-Ends v n (c ∷ t) h =
    if_cases (λ o. o ≡ some (v, n, c ∷ t)) (not (is_digit c)) _ _ (λ other. refl)
      (λ digit. absurd (ground (arith, digit, h)))

no_leading_zero :
    (n : ℕ) (t : List ℕ)
    → n ≤ max_u32
    → (length (decimal n) ≡ 1) ⊎ (begins 48 (decimal n ++ t) ≡ false)
no_leading_zero n t h = elim (Bool-cases (ltb n 10)) [
  | inl small ↦ inl (length-small 9 n (ltb→lt n 10 small))
  | inr big ↦ inr (first_digit 10 n t (enough n h) (ground (arith, big)))
]

accepted :
    (l : ℕ) (z : Bool) (n : ℕ) (t : List ℕ)
    → 0 < l
    → (l ≡ 1) ⊎ (z ≡ false)
    → ◌≡◌ {A = Option (ℕ × List ℕ)}
        (if l == 0 || (ltb 1 l && z) then none else some (n, t))
        (some (n, t))
accepted l z n t h k =
    if_cases (λ (o : Option (ℕ × List ℕ)). o ≡ some (n, t)) (l == 0 || (ltb 1 l && z)) _ _
      (λ refused. absurd (ground (arith, refused, h, k))) (λ taken. refl)

pub read_u32-decimal :
    (n : ℕ) (t : List ℕ) → n ≤ max_u32 → Ends t → read_u32 (decimal n ++ t) ≡ some (n, t)
unfolding read_u32
read_u32-decimal n t h e =
    let (same, size) = digits_of-begin 10 n t (enough n h) in
    let read =
      read_digits-digits_of 10 n t (enough n h) h ∙ read_digits-Ends n (length (decimal n)) t e in
    ap (λ s. accept_digits s (read_digits 0 0 s)) same
    ∙ ap (accept_digits (decimal n ++ t)) read
    ∙ accepted (length (decimal n)) (begins 48 (decimal n ++ t)) n t size (no_leading_zero n t h)

-- A text of plain bytes and its closing quote.
pub read_text-plain : (s t : List ℕ) → plain_string s ≡ true → read_text (s ++ 34 ∷ t) ≡ some (s, t)
unfolding read_text plain_string
read_text-plain [] t h = refl
read_text-plain (c ∷ s) t h =
    let more = read_text-plain s t (ground (arith, h)) in
    if_cases (λ o. o ≡ some (c ∷ s, t)) (c == 34) _ _ (λ quote. absurd (ground (arith, quote, h)))
      (λ other.
        if_cases (λ o. o ≡ some (c ∷ s, t)) (ltb c 32 || ltb 126 c || c == 92) _ _
          (λ bad. absurd (ground (arith, bad, h))) (λ good. ap (prepend c) more))

-- The points, each of 32 bits, up to what follows the last one.
pub read_points-join :
    (fuel n : ℕ) (ns t : List ℕ)
    → length ns < fuel
    → All (λ m. m ≤ max_u32) (n ∷ ns)
    → read_points fuel (join_points (n ∷ ns) ++ 93 ∷ t) ≡ gives (some (n ∷ ns, 93 ∷ t))
unfolding read_points join_points eat ws
read_points-join zero n ns t few h = absurd (omega (arith, few))
read_points-join (suc fuel) n [] t few h = rw (read_points, read_u32-decimal n (93 ∷ t) h.0 refl)
read_points-join (suc fuel) n (m ∷ ns) t few h = rw (
  append_assoc (decimal n) (44 ∷ join_points (m ∷ ns)) (93 ∷ t),
  read_points,
  read_u32-decimal n (44 ∷ (join_points (m ∷ ns) ++ 93 ∷ t)) h.0 refl,
  read_points-join fuel m ns t (omega (arith, few)) h.1,
)

not_bracket : (f n : ℕ) (t : List ℕ) → Enough f n → begins 93 (digits_of f n ++ t) ≡ false
unfolding digits_of
not_bracket zero n t e = absurd e
not_bracket (suc f) n t e =
    let front = digits_of f (n / 10) in
    let last : ℕ = 48 + n % 10 in
    if_cases (λ (l : List ℕ). begins 93 (l ++ t) ≡ false) (ltb n 10) _ _
      (λ small. ground (arith, small))
      (λ big.
        ap (begins 93) (append_assoc front (last ∷ []) t)
        ∙ not_bracket f (n / 10) (last ∷ t) (fewer f n e big))

peek-decimal : (n : ℕ) (t : List ℕ) → n ≤ max_u32 → peek 93 (decimal n ++ t) ≡ false
unfolding peek
peek-decimal n t h =
    ap (begins 93) (digits_of-begin 10 n t (enough n h)).0 ∙ not_bracket 10 n t (enough n h)

-- A list of points does not begin with the bracket that closes it.
pub peek-join_points :
    (n : ℕ) (ns t : List ℕ)
    → All (λ m. m ≤ max_u32) (n ∷ ns)
    → peek 93 (join_points (n ∷ ns) ++ t) ≡ false
unfolding join_points
peek-join_points n [] t h = peek-decimal n t h.0
peek-join_points n (m ∷ ns) t h =
    ap (peek 93) (append_assoc (decimal n) (44 ∷ join_points (m ∷ ns)) t)
    ∙ peek-decimal n (44 ∷ (join_points (m ∷ ns) ++ t)) h.0

-- It is at least as long as there are points.
pub length-join_points :
    (n : ℕ) (ns t : List ℕ)
    → All (λ m. m ≤ max_u32) (n ∷ ns)
    → length ns < length (join_points (n ∷ ns) ++ t)
unfolding join_points
length-join_points n [] t h =
    let size = (digits_of-begin 10 n t (enough n h.0)).1 in
    let e = length-append (decimal n) t in omega (arith, size, e)
length-join_points n (m ∷ ns) t h =
    let more = length-join_points m ns t h.1 in
    let e = length-append (join_points (m ∷ ns)) t in
    let k = length-append (decimal n ++ 44 ∷ join_points (m ∷ ns)) t in
    let l = length-append (decimal n) (44 ∷ join_points (m ∷ ns)) in omega (arith, more, e, k, l)
