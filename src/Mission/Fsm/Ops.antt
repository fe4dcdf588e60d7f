-- ===== src/Mission/Fsm/Ops.antt =====
-- mission_fsm.cpp: the methods. Each returns the machine after the call and the `Result`.
use Prim.Native.String.{String}
use dyx_3wd.Base.{
  ℕ, ◌+◌, Bool, true, false, not, ◌&&◌, ◌||◌, List, [], ◌∷◌, ◌++◌, u32, u64, ltb, if◌then◌else◌,
  length,
}
use dyx_3wd.Mission.Fsm.Types.{
  State, loading, ready, running, paused, error, placing, arming, engaging, ◌is◌, Event, Reject,
  Reason, reason_none, reason_operator, reason_path_error, map_guard_reason, Transition, Result,
  MissionFsm, log_capacity, active, awaiting_reengage_gate,
}

-- The loop of `record`: entries leave at the front until the log fits.
unfoldable pub trim : List Transition → List Transition
trim [] = []
trim (t ∷ ts) = elim (ltb log_capacity (length (t ∷ ts))) [ true ↦ trim ts | false ↦ t ∷ ts ]

unfoldable pub record_transition : MissionFsm → Transition → MissionFsm
record_transition m t = record m { log = trim (m.log ++ t ∷ []); observed = t ∷ m.observed }

unfoldable pub go : MissionFsm → State → Event → Reason → String → ℕ → ℕ → MissionFsm × Result
unfolding record_transition
go m to ev reason detail now gate_reason =
    let seq = u64 (m.seq + 1) in
    let stays = to is arming || to is engaging in
    (
      record_transition
          (record m {
            state = to;
            reason = reason;
            gate_reason = gate_reason;
            detail = detail;
            entered_ns = now;
            seq = seq;
            changes = u64 (m.changes + 1);
            reengaging = stays && m.reengaging;
            reengage_confirmed = stays && m.reengage_confirmed;
          })
          (record {
            seq = seq;
            source = m.state;
            target = to;
            event = ev;
            reason = reason;
            refused = false;
            reject = Reject.none;
            detail = detail;
            stamp_ns = now;
          }),
      record { accepted = true; reject = Reject.none; transitioned = true; state = to },
    )

unfoldable pub refuse : MissionFsm → Event → Reject → Bool → String → ℕ → MissionFsm × Result
unfolding record_transition
refuse m ev why is_illegal detail now =
    let seq = u64 (m.seq + 1) in
    let reject = if is_illegal then Reject.illegal else why in
    (
      record_transition (record m { seq = seq })
          (record {
            seq = seq;
            source = m.state;
            target = m.state;
            event = ev;
            reason = m.reason;
            refused = true;
            reject = reject;
            detail = detail;
            stamp_ns = now;
          }),
      record { accepted = false; reject = reject; transitioned = false; state = m.state },
    )

unfoldable pub ok_no_change : MissionFsm → Event → String → ℕ → MissionFsm × Result
unfolding record_transition
ok_no_change m ev detail now =
    let seq = u64 (m.seq + 1) in
    (
      record_transition (record m { seq = seq })
          (record {
            seq = seq;
            source = m.state;
            target = m.state;
            event = ev;
            reason = m.reason;
            refused = false;
            reject = Reject.none;
            detail = detail;
            stamp_ns = now;
          }),
      record { accepted = true; reject = Reject.none; transitioned = false; state = m.state },
    )

-- One pre-RUNNING step: `expected` to `next` on success, to ERROR on failure.
unfoldable pub step :
    MissionFsm → State → State → Event → Bool → Reason → String → ℕ → MissionFsm × Result
step m expected next ev ok reason detail now =
    if not (m.state is expected)
    then refuse m ev Reject.illegal true "not in the step this event completes" now
    else if ok
    then go m next ev reason_none detail now 0
    else go m error ev reason detail now 0

unfoldable pub start : MissionFsm → Bool → ℕ → MissionFsm × Result
start m pre_arm_ok now =
    if active m.state
    then refuse m Event.start Reject.busy false "a mission is already active" now
    else if not pre_arm_ok
    then refuse m Event.start Reject.safety_gate false "pre-arm gate not ok" now
    else go (record m { mission_id = u32 (m.mission_id + 1) }) loading Event.start reason_none
        "start accepted" now 0

unfoldable pub artifact_loaded : MissionFsm → Bool → String → ℕ → MissionFsm × Result
unfolding step
artifact_loaded m valid detail now =
    step m loading placing Event.artifact_loaded valid reason_path_error detail now

unfoldable pub placed : MissionFsm → Bool → Reason → String → ℕ → MissionFsm × Result
unfolding step
placed m ok reason detail now = step m placing arming Event.placed ok reason detail now

unfoldable pub armed : MissionFsm → Bool → Reason → String → ℕ → MissionFsm × Result
unfolding step
armed m ok reason detail now = step m arming engaging Event.armed ok reason detail now

unfoldable pub engaged : MissionFsm → Bool → Reason → String → ℕ → MissionFsm × Result
unfolding step
engaged m ok reason detail now =
    if m.state is engaging && m.reengaging && ok
    then if m.reengage_confirmed
      then ok_no_change m Event.engaged "duplicate" now
      else ok_no_change (record m { reengage_confirmed = true }) Event.engaged
          "re-engage: OFFBOARD confirmed, waiting for the full gate" now
    else step m engaging ready Event.engaged ok reason detail now

unfoldable pub rpp_ack : MissionFsm → Bool → ℕ → MissionFsm × Result
rpp_ack m gate_ok now =
    if m.state is ready
    then if not gate_ok
      then ok_no_change m Event.rpp_ack "ack held: full safety gate not ok yet" now
      else go m running Event.rpp_ack reason_none "rpp acknowledged the execution" now 0
    else if m.state is running || m.state is paused
    then ok_no_change m Event.rpp_ack "duplicate ack ignored" now
    else refuse m Event.rpp_ack Reject.illegal true "no mission awaiting ack" now

unfoldable pub pause : MissionFsm → ℕ → MissionFsm × Result
pause m now =
    if m.state is running
    then go m paused Event.pause reason_operator "operator pause" now 0
    else refuse m Event.pause Reject.not_running false "not running" now

unfoldable pub resume : MissionFsm → Bool → ℕ → MissionFsm × Result
resume m gate_ok now =
    if m.reengaging
    then ok_no_change m Event.resume "re-engage already in progress" now
    else if not (m.state is paused)
    then refuse m Event.resume Reject.not_paused false "not paused" now
    else if not gate_ok
    then refuse m Event.resume Reject.safety_gate false "resume conditions not met" now
    else go m running Event.resume reason_none "operator resume" now 0

unfoldable pub reengage : MissionFsm → ℕ → MissionFsm × Result
reengage m now =
    if not (m.state is paused)
    then if m.reengaging
      then ok_no_change m Event.reengage "re-engage already in progress" now
      else refuse m Event.reengage Reject.not_paused false "not paused" now
    else go (record m { reengaging = true; reengage_confirmed = false }) arming Event.reengage
        reason_none "operator resume: re-engaging (arm, then OFFBOARD)" now 0

unfoldable pub reengage_gate : MissionFsm → Bool → ℕ → MissionFsm × Result
reengage_gate m gate_ok now =
    if not (awaiting_reengage_gate m) || not (m.state is engaging)
    then refuse m Event.reengaged Reject.illegal true "no re-engage awaiting the gate" now
    else if not gate_ok
    then ok_no_change m Event.reengaged "re-engage held: full safety gate not ok yet" now
    else go m running Event.reengaged reason_none "re-engaged: armed and OFFBOARD" now 0

unfoldable pub reengage_timeout : MissionFsm → ℕ → ℕ → MissionFsm × Result
reengage_timeout m guard_reason now =
    if not (awaiting_reengage_gate m) || not (m.state is engaging)
    then ok_no_change m Event.reengage_timeout "no re-engage awaiting the gate" now
    else go m error Event.reengage_timeout (map_guard_reason guard_reason)
        "full safety gate never passed after the re-engage" now guard_reason
