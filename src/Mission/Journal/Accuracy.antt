-- ===== src/Mission/Journal/Accuracy.antt =====
-- How close a completed point was reached.
use dyx_3wd.Base.{◌≡◌, refl, true, List, [], ◌∷◌, arith, All, suc}
use dyx_3wd.Base.Real.{Real}
use dyx_3wd.Mission.Journal.Ops.{
  completed, PointEvent, Vertex, PointJournal, completed_current, follow, finish, fail_rest,
  open_vertices, Call, updates, skips, finishes, call,
}

module _ {R : Type 0} ⦃r : Real R⦄ where
  -- A capture in progress is of a distance inside the radius.
  abbrev pub InRadius : PointJournal R → Type 0
  InRadius j = j.capturing ≡ true → r.le j.min_d j.radius ≡ true

  -- A completed point was reached inside the radius.
  abbrev pub IsClose : R → PointEvent R → Type 0
  IsClose radius e = e.outcome ≡ completed → r.le e.error_m radius ≡ true

  abbrev Kept : PointJournal R → PointJournal R → List (PointEvent R) → Type 0
  Kept j j' es = InRadius j' × (j'.radius ≡ j.radius) × All (IsClose j.radius) es

  follow-Kept :
      (vs : List (Vertex R)) (j : PointJournal R) (north east : R)
      → InRadius j
      → Kept j (follow vs j north east).0 (follow vs j north east).1
  unfolding follow
  follow-Kept [] j north east h = ground arith
  follow-Kept (v ∷ vs) j north east h = ground (
    arith,
    follow-Kept vs (record j { next = suc j.next }) north east,
    follow-Kept vs (completed_current j) north east,
  )

  fail_rest-Kept :
      (vs : List (Vertex R)) (j : PointJournal R)
      → InRadius j
      → Kept j (fail_rest vs j).0 (fail_rest vs j).1
  unfolding fail_rest
  fail_rest-Kept [] j h = ground arith
  fail_rest-Kept (v ∷ vs) j h = ground (arith, fail_rest-Kept vs (record j { next = suc j.next }))

  finish-Kept :
      (j : PointJournal R) (vs : List (Vertex R))
      → open_vertices j ≡ vs
      → InRadius j
      → Kept j (finish j).0 (finish j).1
  unfolding finish
  finish-Kept j [] e h = ground arith
  finish-Kept j (v ∷ vs) e h =
      ground (arith, fail_rest-Kept vs (completed_current j), fail_rest-Kept (v ∷ vs) j)

  -- A call keeps a capture in progress inside the radius, and every point that it reports as completed
  -- was reached at a distance inside the radius.
  pub capture_accuracy :
      (j : PointJournal R) (c : Call R)
      → InRadius j
      → let (j', es) = call j c in InRadius j' × (j'.radius ≡ j.radius) × All (IsClose j.radius) es
  unfolding call
  capture_accuracy j (updates north east) h =
      ground (arith, follow-Kept (open_vertices j) j north east h)
  capture_accuracy j skips h = ground arith
  capture_accuracy j finishes h = finish-Kept j (open_vertices j) refl h
