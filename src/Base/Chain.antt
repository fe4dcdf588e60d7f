-- ===== src/Base/Chain.antt =====
-- Lists of steps that follow one another: each begins where the one before it ended.
use dyx_3wd.Base.{ℕ, zero, suc, ◌≡◌, refl, sym, List, [], ◌∷◌, ◌++◌, drop}

module _ {A K : Type 0} (source target : A → K) where
  abbrev pub Chained : K → List A → Type 0
  Chained at [] = Unit
  Chained at (t ∷ ts) = (source t ≡ at) × Chained (target t) ts

  abbrev pub last_target : K → List A → K
  last_target at [] = at
  last_target at (t ∷ ts) = last_target (target t) ts

  -- The list leads from somewhere to the end.
  abbrev pub LeadsTo : List A → K → Type 0
  LeadsTo ts end = (at : K) × Chained at ts × (last_target at ts ≡ end)

  Chained-append :
      (at : K) (ts : List A) (t : A)
      → Chained at ts
      → source t ≡ last_target at ts
      → Chained at (ts ++ t ∷ []) × (last_target at (ts ++ t ∷ []) ≡ target t)
  Chained-append at [] t h e = ((e, tt), refl)
  Chained-append at (u ∷ ts) t h e =
      let (c, l) = Chained-append (target u) ts t h.1 e in ((h.0, c), l)

  pub LeadsTo-append :
      (ts : List A) (t : A) → LeadsTo ts (source t) → LeadsTo (ts ++ t ∷ []) (target t)
  LeadsTo-append ts t (at, c, l) = let (c', l') = Chained-append at ts t c (sym l) in (at, c', l')

  -- Without its first steps it still leads to the end.
  pub LeadsTo-drop : (n : ℕ) (ts : List A) (end : K) → LeadsTo ts end → LeadsTo (drop n ts) end
  LeadsTo-drop zero ts end h = h
  LeadsTo-drop (suc n) [] end h = h
  LeadsTo-drop (suc n) (t ∷ ts) end (at, c, l) = LeadsTo-drop n ts end (target t, c.1, l)
