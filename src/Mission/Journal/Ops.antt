-- ===== src/Mission/Journal/Ops.antt =====
-- point_journal.hpp and .cpp, and the point of path_artifact.hpp.
use dyx_3wd.Base.{
  ℕ, suc, ◌/◌, ◌%◌, Bool, true, false, not, ◌&&◌, ◌||◌, List, [], ◌∷◌, Option, none, some, ◌==◌,
  ltb, u32, if◌then◌else◌, length, drop,
}
use dyx_3wd.Base.Real.{Real, zero_real}

pub record ArtifactPoint (R : Type 0) : Type 0 where
  pub north_m : R
  pub east_m : R
  pub flags : ℕ

-- `flags & 2`.
abbrev pub must_hit : {R : Type 0} → ArtifactPoint R → Bool
must_hit p = p.flags / 2 % 2 == 1

pub data PointOutcome : Type 0 where
  nothing completed skipped failed : PointOutcome

pub record PointEvent (R : Type 0) : Type 0 where
  pub point_index : ℕ
  pub outcome : PointOutcome
  pub north_m : R
  pub east_m : R
  pub error_m : R

pub record Vertex (R : Type 0) : Type 0 where
  pub n : R
  pub e : R

pub record PointJournal (R : Type 0) : Type 0 where
  pub vertices : List (Vertex R)
  pub radius : R
  pub next : ℕ
  pub capturing : Bool
  pub min_d : R
  pub min_n : R
  pub min_e : R

abbrev pub vertices_of : {R : Type 0} → List (ArtifactPoint R) → List (Vertex R)
vertices_of [] = []
vertices_of (p ∷ ps) =
    let rest = vertices_of ps in
    if must_hit p then record { n = p.north_m; e = p.east_m } ∷ rest else rest

module _ {R : Type 0} ⦃r : Real R⦄ where
  -- The constructor; `none` where it throws.
  unfoldable pub journal : List (ArtifactPoint R) → R → Option (PointJournal R)
  journal path radius =
      if not (r.lt zero_real radius) || not (r.finite radius)
      then none
      else some (record {
        vertices = vertices_of path;
        radius = radius;
        next = 0;
        capturing = false;
        min_d = zero_real;
        min_n = zero_real;
        min_e = zero_real;
      })

  -- The vertices that are not settled yet.
  abbrev pub open_vertices : PointJournal R → List (Vertex R)
  open_vertices j = drop j.next j.vertices

  abbrev pub active_point : PointJournal R → Option ℕ
  active_point j = if ltb j.next (length j.vertices) then some (u32 j.next) else none

  -- `complete_current`: the event, and the journal after it.
  abbrev pub completion : PointJournal R → PointEvent R
  completion j = record {
    point_index = u32 j.next;
    outcome = completed;
    north_m = j.min_n;
    east_m = j.min_e;
    error_m = j.min_d;
  }

  abbrev pub completed_current : PointJournal R → PointJournal R
  completed_current j = record j { next = suc j.next; capturing = false }

  -- An event at the planned vertex.
  abbrev pub miss : PointOutcome → ℕ → Vertex R → PointEvent R
  miss outcome i v = record {
    point_index = u32 i;
    outcome = outcome;
    north_m = v.n;
    east_m = v.e;
    error_m = zero_real;
  }

  abbrev pub distance : R → R → Vertex R → R
  distance north east v = r.hypot (r.sub north v.n) (r.sub east v.e)

  -- The next vertex was captured first.
  abbrev pub bypassed : R → R → R → R → List (Vertex R) → Bool
  bypassed radius north east d [] = false
  bypassed radius north east d (w ∷ _) = r.le (distance north east w) radius && r.lt radius d

  abbrev pub closest : PointJournal R → R → R → R → PointJournal R
  closest j d north east = record j { capturing = true; min_d = d; min_n = north; min_e = east }

  -- The loop of `update`, over the vertices that are not settled.
  unfoldable pub follow :
      List (Vertex R) → PointJournal R → R → R → PointJournal R × List (PointEvent R)
  follow [] j north east = (j, [])
  follow (v ∷ rest) j north east =
      let d = distance north east v in
      let (missed, after_miss) = follow rest (record j { next = suc j.next }) north east in
      let (left, after_leave) = follow rest (completed_current j) north east in
      if not j.capturing
      then if bypassed j.radius north east d rest
        then (missed, miss failed j.next v ∷ after_miss)
        else if r.le d j.radius
        then (closest j d north east, [])
        else (j, [])
      else if r.le d j.radius
      then if r.lt d j.min_d then (closest j d north east, []) else (j, [])
      else (left, completion j ∷ after_leave)

  unfoldable pub update : PointJournal R → R → R → PointJournal R × List (PointEvent R)
  unfolding follow
  update j north east =
      if not (r.finite north) || not (r.finite east)
      then (j, [])
      else follow (open_vertices j) j north east

  unfoldable pub skip : PointJournal R → PointJournal R × Option (PointEvent R)
  skip j = elim (open_vertices j) [
    | [] ↦ (j, none)
    | v ∷ _ ↦ (record j { next = suc j.next; capturing = false }, some (miss skipped j.next v))
  ]

  unfoldable pub restore_resolved : PointJournal R → ℕ → PointJournal R × Bool
  restore_resolved j resolved =
      if not (j.next == 0) || j.capturing || ltb (length j.vertices) resolved
      then (j, false)
      else (record j { next = resolved }, true)

  -- The last loop of `finish`.
  unfoldable pub fail_rest : List (Vertex R) → PointJournal R → PointJournal R × List (PointEvent R)
  fail_rest [] j = (j, [])
  fail_rest (v ∷ rest) j =
      let (j', events) = fail_rest rest (record j { next = suc j.next }) in
      (j', miss failed j.next v ∷ events)

  unfoldable pub finish : PointJournal R → PointJournal R × List (PointEvent R)
  unfolding fail_rest
  finish j = elim (open_vertices j) [
    | [] ↦ (j, [])
    | v ∷ rest ↦
        let (j', events) = fail_rest rest (completed_current j) in
        if j.capturing then (j', completion j ∷ events) else fail_rest (v ∷ rest) j
  ]

-- The methods as one step, with the events that it reports.
pub data Call (R : Type 0) : Type 0 where
  updates : R → R → Call R
  skips : Call R
  finishes : Call R

abbrev pub to_list : {R : Type 0} → Option (PointEvent R) → List (PointEvent R)
to_list none = []
to_list (some e) = e ∷ []

unfoldable pub call :
    {R : Type 0} ⦃r : Real R⦄ → PointJournal R → Call R → PointJournal R × List (PointEvent R)
unfolding update skip finish
call j (updates north east) = update j north east
call j skips = let (j', e) = skip j in (j', to_list e)
call j finishes = finish j
