-- ===== src/Mission/Journal/Order.antt =====
-- Which points are reported, and in which order.
use dyx_3wd.Base.{
  ℕ, suc, ◌+◌, ◌≤◌, ◌≡◌, refl, ap, ◌∙◌, subst, List, [], ◌∷◌, ◌++◌, none, arith, u32, length,
  length-append, length-drop,
}
use dyx_3wd.Base.Real.{Real}
use dyx_3wd.Base.Trace.{after, after_inv}
use dyx_3wd.Mission.Journal.Ops.{
  PointEvent, Vertex, PointJournal, open_vertices, active_point, completed_current, follow,
  fail_rest, finish, Call, updates, skips, finishes, call,
}

module _ {R : Type 0} ⦃r : Real R⦄ where
  -- The events are of the points from `k` on, one each, in order.
  abbrev pub Consecutive : ℕ → List (PointEvent R) → Type 0
  Consecutive k [] = Unit
  Consecutive k (e ∷ es) = (e.point_index ≡ u32 k) × Consecutive (suc k) es

  -- A step reports the points that it settles: those from `next` before to `next` after.
  pub record Settles (j j' : PointJournal R) (es : List (PointEvent R)) : Type 0 where
    pub in_order : Consecutive j.next es
    pub count : j'.next ≡ j.next + length es
    pub path : j'.vertices ≡ j.vertices

  follow-Settles :
      (vs : List (Vertex R)) (j : PointJournal R) (north east : R)
      → Settles j (follow vs j north east).0 (follow vs j north east).1
        × (length (follow vs j north east).1 ≤ length vs)
  unfolding follow
  follow-Settles [] j north east = ground arith
  follow-Settles (v ∷ vs) j north east = ground (
    arith,
    follow-Settles vs (record j { next = suc j.next }) north east,
    follow-Settles vs (completed_current j) north east,
  )

  fail_rest-Settles :
      (vs : List (Vertex R)) (j : PointJournal R)
      → Settles j (fail_rest vs j).0 (fail_rest vs j).1 × (length (fail_rest vs j).1 ≡ length vs)
  unfolding fail_rest
  fail_rest-Settles [] j = ground arith
  fail_rest-Settles (v ∷ vs) j =
      ground (arith, fail_rest-Settles vs (record j { next = suc j.next }))

  -- The journal has settled no point beyond its path.
  abbrev pub Within : PointJournal R → Type 0
  Within j = j.next ≤ length j.vertices

  skip-Settles :
      (j : PointJournal R) (vs : List (Vertex R))
      → open_vertices j ≡ vs
      → Settles j (call j skips).0 (call j skips).1 × (Within j → Within (call j skips).0)
  unfolding call
  skip-Settles j [] e = ground arith
  skip-Settles j (v ∷ vs) e = ground (arith, length-drop j.next j.vertices)

  finish-Settles :
      (j : PointJournal R) (vs : List (Vertex R))
      → open_vertices j ≡ vs
      → Settles j (finish j).0 (finish j).1 × (Within j → (finish j).0.next ≡ length j.vertices)
  unfolding finish
  finish-Settles j [] e = ground (arith, length-drop j.next j.vertices)
  finish-Settles j (v ∷ vs) e = ground (
    arith,
    length-drop j.next j.vertices,
    fail_rest-Settles vs (completed_current j),
    fail_rest-Settles (v ∷ vs) j,
  )

  call-Settles :
      (j : PointJournal R) (c : Call R)
      → Settles j (call j c).0 (call j c).1 × (Within j → Within (call j c).0)
  unfolding call
  call-Settles j (updates north east) =
      let vs = open_vertices j in
      ground (arith, follow-Settles vs j north east, length-drop j.next j.vertices)
  call-Settles j skips = skip-Settles j (open_vertices j) refl
  call-Settles j finishes = ground (arith, finish-Settles j (open_vertices j) refl)

  -- All events of the calls (the latest first), the first event first.
  pub reported : PointJournal R → List (Call R) → List (PointEvent R)
  reported j [] = []
  reported j (c ∷ cs) = reported j cs ++ (call (after (λ i d. (call i d).0) j cs) c).1

  Consecutive-append :
      (k : ℕ) (xs ys : List (PointEvent R))
      → Consecutive k xs
      → Consecutive (k + length xs) ys
      → Consecutive k (xs ++ ys)
  Consecutive-append k [] ys h g = subst (λ n. Consecutive n ys) (omega arith) g
  Consecutive-append k (x ∷ xs) ys h g =
      (h.0, Consecutive-append (suc k) xs ys h.1 (subst (λ n. Consecutive n ys) (omega arith) g))

  -- Through any calls (the latest first) each point is settled at most once and in the order of the
  -- path: the events are of the points from the first open one on, one each, as many as the calls
  -- moved the journal forward.
  pub points_in_order :
      (j : PointJournal R) (cs : List (Call R))
      → let j' = after (λ i d. (call i d).0) j cs in
        Consecutive j.next (reported j cs)
        × (j'.next ≡ j.next + length (reported j cs))
        × (j'.vertices ≡ j.vertices)
  unfolding after reported
  points_in_order j [] = ground arith
  points_in_order j (c ∷ cs) =
      let j' = after (λ i d. (call i d).0) j cs in
      let (order, count, path) = points_in_order j cs in
      let step = (call-Settles j' c).0 in
      (
        Consecutive-append j.next (reported j cs) (call j' c).1 order
            (subst (λ n. Consecutive n (call j' c).1) count step.in_order),
        omega (arith, count, step.count, length-append (reported j cs) (call j' c).1),
        step.path ∙ path,
      )

  -- The end of the path settles every point: with those that the calls before it reported, each point
  -- from the first open one on has had its event, and no point is active.
  pub finish_settles_all :
      (j : PointJournal R) (cs : List (Call R))
      → Within j
      → (j.next + length (reported j (finishes ∷ cs)) ≡ length j.vertices)
        × (active_point (after (λ i d. (call i d).0) j (finishes ∷ cs)) ≡ none)
  unfolding after call
  finish_settles_all j cs h =
      let j' = after (λ i d. (call i d).0) j cs in
      let fits = after_inv _ j Within h (λ i c. (call-Settles i c).1) cs in
      let all = (finish-Settles j' (open_vertices j') refl).1 fits in
      let (_, count, path) = points_in_order j (finishes ∷ cs) in
      let (_, _, before) = points_in_order j cs in let e = ap length before in ground arith
