-- ===== src/Mission/Progress/Points.antt =====
-- The loop over the points ends: a turn takes a byte at least.
use dyx_3wd.Base.{
  ℕ, zero, suc, ◌+◌, ◌-◌, ◌*◌, ◌≤◌, ◌<◌, ◌≡◌, refl, subst, ◌⊎◌, inl, inr, not, ◌&&◌, ◌||◌, Option,
  none, some, List, [], ◌∷◌, arith, ltb, ◌==◌, if_cases, length,
}
use dyx_3wd.Mission.Progress.Reader.{
  ws, eat, eat_at, peek, read_digits, read_u32, accept_digits, is_digit, is_space, max_u32, begins,
}
use dyx_3wd.Mission.Progress.Parse.{
  Outcome, out_of_fuel, fails, gives, Points, add_point, close_all, read_inside, read_points,
  read_list,
}

abbrev pub Ended : {A : Type 0} → Outcome A → Type 0
Ended out_of_fuel = ⊥
Ended (fails e) = Unit
Ended (gives a) = Unit

length-ws : (s : List ℕ) → length (ws s) ≤ length s
unfolding ws
length-ws [] = omega arith
length-ws (c ∷ s) =
    let rest = length-ws s in
    if_cases (λ (l : List ℕ). length l ≤ suc (length s)) (is_space c) _ _
      (λ blank. omega (arith, rest)) (λ other. omega arith)

-- What is left is shorter.
abbrev Shorter : ℕ → Option (List ℕ) → Type 0
Shorter n none = Unit
Shorter n (some s) = length s < n

eat_at-Shorter : (c : ℕ) (s : List ℕ) (n : ℕ) → length s ≤ n → Shorter n (eat_at c s)
eat_at-Shorter c [] n h = tt
eat_at-Shorter c (d ∷ s) n h =
    if_cases (Shorter n) (d == c) _ _ (λ same. omega (arith, h)) (λ other. tt)

eat-Shorter : (c : ℕ) (s : List ℕ) (n : ℕ) → length s ≤ n → Shorter n (eat c s)
unfolding eat
eat-Shorter c s n h = eat_at-Shorter c (ws s) n (omega (arith, h, length-ws s))

abbrev DigitsLeft : ℕ → Option (ℕ × ℕ × List ℕ) → Type 0
DigitsLeft n none = Unit
DigitsLeft n (some (v, k, s)) = length s ≤ n

read_digits-DigitsLeft :
    (v k : ℕ) (s : List ℕ) (n : ℕ) → length s ≤ n → DigitsLeft n (read_digits v k s)
unfolding read_digits
read_digits-DigitsLeft v k [] n h = omega (arith, h)
read_digits-DigitsLeft v k (c ∷ s) n h =
    let v' = v * 10 + (c - 48) in
    if_cases (DigitsLeft n) (not (is_digit c)) _ _ (λ other. h)
      (λ digit.
        if_cases (DigitsLeft n) (ltb max_u32 v') _ _ (λ over. tt)
          (λ fits. read_digits-DigitsLeft v' (suc k) s n (omega (arith, h))))

abbrev NumberLeft : ℕ → Option (ℕ × List ℕ) → Type 0
NumberLeft n none = Unit
NumberLeft n (some (v, s)) = length s ≤ n

accept_digits-NumberLeft :
    (s : List ℕ) (o : Option (ℕ × ℕ × List ℕ)) (n : ℕ)
    → DigitsLeft n o
    → NumberLeft n (accept_digits s o)
accept_digits-NumberLeft s none n h = tt
accept_digits-NumberLeft s (some (v, k, rest)) n h =
    if_cases (NumberLeft n) (k == 0 || (ltb 1 k && begins 48 s)) _ _ (λ refused. tt) (λ taken. h)

read_u32-NumberLeft : (s : List ℕ) (n : ℕ) → length s ≤ n → NumberLeft n (read_u32 s)
unfolding read_u32
read_u32-NumberLeft s n h =
    accept_digits-NumberLeft (ws s) (read_digits 0 0 (ws s)) n
      (read_digits-DigitsLeft 0 0 (ws s) n (omega (arith, h, length-ws s)))

pub option_cases : {A : Type 0} (o : Option A) → (o ≡ none) ⊎ ((a : A) × (o ≡ some a))
option_cases none = inl refl
option_cases (some a) = inr (a, refl)

add_point-Ended : (v : ℕ) (o : Points) → Ended o → Ended (add_point v o)
add_point-Ended v out_of_fuel h = h
add_point-Ended v (fails e) h = tt
add_point-Ended v (gives none) h = tt
add_point-Ended v (gives (some (vs, rest))) h = tt

read_points-Ended : (fuel : ℕ) (s : List ℕ) → length s < fuel → Ended (read_points fuel s)
unfolding read_points
read_points-Ended zero s h = absurd (omega (arith, h))
read_points-Ended (suc fuel) s h = elim (option_cases (read_u32 s)) [
  | inl e ↦ rw (read_points, e) tt
  | inr ((v, rest), e) ↦
      let left = subst (NumberLeft fuel) e (read_u32-NumberLeft s fuel (omega (arith, h))) in
      elim (option_cases (eat 44 rest)) [
        | inl k ↦ rw (read_points, e, k) tt
        | inr (more, k) ↦
            let less = subst (Shorter fuel) k (eat-Shorter 44 rest fuel left) in
            rw (read_points, e, k)
              (add_point-Ended v (read_points fuel more) (read_points-Ended fuel more less))
      ]
]

close_all-Ended : (o : Points) → Ended o → Ended (close_all o)
close_all-Ended out_of_fuel h = h
close_all-Ended (fails e) h = tt
close_all-Ended (gives none) h = tt
close_all-Ended (gives (some (vs, rest))) h = tt

read_inside-Ended : (o : Option (List ℕ)) → Ended (read_inside o)
read_inside-Ended none = tt
read_inside-Ended (some inside) =
    let fuel = suc (length inside) in
    if_cases Ended (peek 93 inside) _ _ (λ empty_list. tt)
      (λ points.
        close_all-Ended (read_points fuel inside) (read_points-Ended fuel inside (omega arith)))

pub read_list-Ended : (s : List ℕ) → Ended (read_list s)
unfolding read_list
read_list-Ended s = read_inside-Ended (eat 91 s)
