-- ===== src/Examples/Journal.antt =====
-- The point journal on a path of two points, in thousandths of a metre.
use dyx_3wd.Base.{◌≡◌, ◌+◌, refl, false, List, [], ◌∷◌, some, length}
use dyx_3wd.Base.Trace.{after}
use dyx_3wd.Base.Milli.{Milli, milli, milli_real}
use dyx_3wd.Mission.Journal.Ops.{ArtifactPoint, PointJournal, journal, Call, updates, call, follow}
use dyx_3wd.Mission.Journal.Order.{Consecutive, reported, points_in_order}

abbrev path : List (ArtifactPoint Milli)
path =
    record { north_m = milli 0; east_m = milli 0; flags = 1 }
    ∷ record { north_m = milli 30; east_m = milli 0; flags = 3 }
    ∷ record { north_m = milli 90; east_m = milli 0; flags = 2 }
    ∷ []

abbrev start : PointJournal Milli
start = record {
  vertices = record { n = milli 30; e = milli 0 } ∷ record { n = milli 90; e = milli 0 } ∷ [];
  radius = milli 10;
  next = 0;
  capturing = false;
  min_d = milli 0;
  min_n = milli 0;
  min_e = milli 0;
}

-- The constructor keeps the points that must be hit.
constructs : journal path (milli 10) ≡ some start
unfolding journal
constructs = refl

-- The rover passes the first point at 5 and leaves it.
abbrev passing : List (Call Milli)
passing =
    updates (milli 50) (milli 0) ∷ updates (milli 30) (milli 5) ∷ updates (milli 10) (milli 0) ∷ []

abbrev passed : PointJournal Milli
passed = after (λ j c. (call j c).0) start passing

first_reached : (passed.next ≡ 1) × (passed.min_d ≡ milli 5)
unfolding after call follow
first_reached = (refl, refl)

points_in_order_example :
    Consecutive 0 (reported start passing)
    × (passed.next ≡ 0 + length (reported start passing))
    × (passed.vertices ≡ start.vertices)
points_in_order_example = points_in_order start passing

abbrev near : PointJournal Milli
near = (call start (updates (milli 30) (milli 5))).0
