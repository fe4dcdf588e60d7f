-- ===== src/Mission/Progress/Reader.antt =====
-- Class Reader of mission_progress.cpp. A text is the list of its bytes; the reader's position is the
-- rest of the text. A failed read leaves no rest: every read skips blanks first, so the blanks that a
-- failed one has skipped make no difference.
use Prim.Native.Char.{code}
use Prim.Native.String.{String}
use dyx_3wd.Base.{
  ℕ, suc, ◌+◌, ◌-◌, ◌*◌, Bool, true, false, not, ◌&&◌, ◌||◌, Option, none, some, List, [], ◌∷◌, ltb,
  leb, ◌==◌, if◌then◌else◌, length,
}

abbrev pub codes : String → List ℕ
codes String.[] = []
codes (String.◌∷◌ c s) = code c ∷ codes s

abbrev pub same_text : List ℕ → List ℕ → Bool
same_text [] [] = true
same_text (a ∷ s) (b ∷ t) = let rest = same_text s t in a == b && rest
same_text _ _ = false

abbrev pub is_space : ℕ → Bool
is_space c = c == 32 || c == 10 || c == 9 || c == 13

abbrev pub is_digit : ℕ → Bool
is_digit c = leb 48 c && leb c 57

-- Printable ASCII without the backslash and the quote.
abbrev pub is_plain : ℕ → Bool
is_plain c = not (ltb c 32) && not (ltb 126 c) && not (c == 34) && not (c == 92)

unfoldable pub ws : List ℕ → List ℕ
ws [] = []
ws (c ∷ s) = let rest = ws s in if is_space c then rest else c ∷ s

abbrev pub eat_at : ℕ → List ℕ → Option (List ℕ)
eat_at c [] = none
eat_at c (d ∷ s) = if d == c then some s else none

unfoldable pub eat : ℕ → List ℕ → Option (List ℕ)
eat c s = eat_at c (ws s)

abbrev pub begins : ℕ → List ℕ → Bool
begins c [] = false
begins c (d ∷ s) = d == c

unfoldable pub peek : ℕ → List ℕ → Bool
peek c s = begins c (ws s)

abbrev pub prepend : ℕ → Option (List ℕ × List ℕ) → Option (List ℕ × List ℕ)
prepend c none = none
prepend c (some (text, rest)) = some (c ∷ text, rest)

-- The loop of `string`, from behind the opening quote.
unfoldable pub read_text : List ℕ → Option (List ℕ × List ℕ)
read_text [] = none
read_text (c ∷ s) =
    let more = read_text s in
    if c == 34
    then some ([], s)
    else if ltb c 32 || ltb 126 c || c == 92
    then none
    else prepend c more

unfoldable pub read_string : List ℕ → Option (List ℕ × List ℕ)
read_string s = elim (eat 34 s) [ none ↦ none | some rest ↦ read_text rest ]

abbrev pub max_u32 : ℕ
max_u32 = 4294967295

-- The loop of `uint32`: the value and the number of digits.
unfoldable pub read_digits : ℕ → ℕ → List ℕ → Option (ℕ × ℕ × List ℕ)
read_digits v n [] = some (v, n, [])
read_digits v n (c ∷ s) =
    let v' = v * 10 + (c - 48) in
    let more = read_digits v' (suc n) s in
    if not (is_digit c) then some (v, n, c ∷ s) else if ltb max_u32 v' then none else more

-- No empty number, and none with a leading zero.
abbrev pub accept_digits : List ℕ → Option (ℕ × ℕ × List ℕ) → Option (ℕ × List ℕ)
accept_digits s none = none
accept_digits s (some (v, n, rest)) =
    if n == 0 || (ltb 1 n && begins 48 s) then none else some (v, rest)

unfoldable pub read_u32 : List ℕ → Option (ℕ × List ℕ)
read_u32 s = accept_digits (ws s) (read_digits 0 0 (ws s))

unfoldable pub at_end : List ℕ → Bool
at_end s = length (ws s) == 0
