-- ===== src/Gateway/Operator.antt =====
-- operator_link.hpp and telemetry_snapshot.hpp and .cpp: the heartbeat of the operator's client, and
-- the age of a source.
use dyx_3wd.Base.{Bool, true, false, not, ◌&&◌, if◌then◌else◌}
use dyx_3wd.Base.Int.{ℤ, negsuc}
use dyx_3wd.Base.Real.{Real, zero_real}

pub record OperatorLinkState (R : Type 0) : Type 0 where
  pub alive : Bool
  pub age_s : R

pub record OperatorLink (R : Type 0) : Type 0 where
  pub timeout_s : R
  pub have_heartbeat : Bool
  pub last : R
  pub client : ℤ

module _ {R : Type 0} ⦃r : Real R⦄ where
  unfoldable pub operator_link : R → OperatorLink R
  operator_link timeout = record {
    timeout_s = timeout;
    have_heartbeat = false;
    last = zero_real;
    client = negsuc 0;
  }

  unfoldable pub note_heartbeat : OperatorLink R → R → ℤ → OperatorLink R
  note_heartbeat l now client = record l { have_heartbeat = true; last = now; client = client }

  unfoldable pub state : OperatorLink R → R → Bool → OperatorLinkState R
  state l now heartbeat_client_connected =
      let age = if r.lt l.last now then r.sub now l.last else zero_real in
      if not l.have_heartbeat
      then record { alive = false; age_s = zero_real }
      else record { alive = heartbeat_client_connected && r.le age l.timeout_s; age_s = age }
