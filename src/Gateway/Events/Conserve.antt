-- ===== src/Gateway/Events/Conserve.antt =====
-- No transition of a status is lost, and the events are numbered without gaps.
use Prim.Native.String.{String}
use dyx_3wd.Base.{
  ℕ, ◌+◌, ◌≡◌, refl, true, false, List, [], ◌∷◌, arith, if◌then◌else◌, if_cases, All,
}
use dyx_3wd.Base.Real.{Real}
use dyx_3wd.Gateway.Events.Ops.{
  Event, Kind, new_kind, find_kind, has_kind, replace_kind, insert_kind, put_kind,
}

module _ {R : Type 0} ⦃r : Real R⦄ where
  -- The transitions that a kind holds back, and those that an event stands for.
  abbrev pub held : Kind R → ℕ
  held k = if k.pending then k.folded + 1 else 0

  abbrev pub held_in : List (String × Kind R) → ℕ
  held_in [] = 0
  held_in ((n, k) ∷ ks) = held k + held_in ks

  abbrev pub told : List (Event R) → ℕ
  told [] = 0
  told (e ∷ es) = e.coalesced + 1 + told es

  -- A kind that holds nothing back has folded nothing.
  abbrev pub Clean : String × Kind R → Type 0
  Clean (n, k) = k.pending ≡ false → k.folded ≡ 0

  pub find_kind-Clean :
      (name : String) (ks : List (String × Kind R)) → All Clean ks → Clean (name, find_kind name ks)
  unfolding find_kind new_kind
  find_kind-Clean name [] h = ground arith
  find_kind-Clean name ((n, k) ∷ ks) h = ground (arith, h.0, find_kind-Clean name ks h.1)

  replace_kind-Clean :
      (name : String) (k : Kind R) (ks : List (String × Kind R))
      → All Clean ks
      → Clean (name, k)
      → All Clean (replace_kind name k ks)
  unfolding replace_kind
  replace_kind-Clean name k [] h c = tt
  replace_kind-Clean name k ((n, j) ∷ ks) h c =
      ground (arith, h.0, h.1, c, replace_kind-Clean name k ks h.1 c)

  insert_kind-Clean :
      (name : String) (k : Kind R) (ks : List (String × Kind R))
      → All Clean ks
      → Clean (name, k)
      → All Clean (insert_kind name k ks)
  unfolding insert_kind
  insert_kind-Clean name k [] h c = (c, tt)
  insert_kind-Clean name k ((n, j) ∷ ks) h c =
      ground (arith, h.0, h.1, c, insert_kind-Clean name k ks h.1 c)

  pub put_kind-Clean :
      (name : String) (k : Kind R) (ks : List (String × Kind R))
      → All Clean ks
      → Clean (name, k)
      → All Clean (put_kind name k ks)
  unfolding put_kind
  put_kind-Clean name k ks h c =
      if_cases (All Clean) (has_kind name ks) _ _ (λ _. replace_kind-Clean name k ks h c)
        (λ _. insert_kind-Clean name k ks h c)

  held_in-replace_kind :
      (name : String) (k : Kind R) (ks : List (String × Kind R))
      → has_kind name ks ≡ true
      → held_in (replace_kind name k ks) + held (find_kind name ks) ≡ held_in ks + held k
  unfolding replace_kind has_kind find_kind
  held_in-replace_kind name k [] e = absurd (ground (arith, e))
  held_in-replace_kind name k ((n, j) ∷ ks) e = ground (arith, e, held_in-replace_kind name k ks)

  held_in-insert_kind :
      (name : String) (k : Kind R) (ks : List (String × Kind R))
      → held_in (insert_kind name k ks) ≡ held_in ks + held k
  unfolding insert_kind
  held_in-insert_kind name k [] = omega arith
  held_in-insert_kind name k ((n, j) ∷ ks) = ground (arith, held_in-insert_kind name k ks)

  held-missing :
      (name : String) (ks : List (String × Kind R))
      → has_kind name ks ≡ false
      → held (find_kind name ks) ≡ 0
  unfolding has_kind find_kind new_kind
  held-missing name [] e = refl
  held-missing name ((n, j) ∷ ks) e = ground (arith, e, held-missing name ks)

  -- What a kind held is exchanged for what the new one holds.
  pub held_in-put_kind :
      (name : String) (k : Kind R) (ks : List (String × Kind R))
      → held_in (put_kind name k ks) + held (find_kind name ks) ≡ held_in ks + held k
  unfolding put_kind
  held_in-put_kind name k ks =
      if_cases (λ js. held_in js + held (find_kind name ks) ≡ held_in ks + held k)
        (has_kind name ks) _ _ (λ has. held_in-replace_kind name k ks has)
        (λ missing.
          let a = held_in-insert_kind name k ks in
          let b = held-missing name ks missing in omega (arith, a, b))
