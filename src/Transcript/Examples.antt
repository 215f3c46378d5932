-- ===== src/Transcript/Examples.antt =====
-- internal/transcript/probe.go: the theorems on a probe that is answered, and one that replaces it.
use tatara_claude_code_wrapp.Common.{◌+◌, ◌≡◌, true, List, [], ◌∷◌, some}
use tatara_claude_code_wrapp.Transcript.Probe.{
  ProbeRecord, ProbeTracker, delivered, answered, new_probe_tracker, registered,
}
use tatara_claude_code_wrapp.Transcript.Probe.Laws.{
  Op, register_op, removal_op, assistant_op, enqueue_op, run, zero_tally, live, one_outcome_each,
}

abbrev seen : List Op
seen =
    register_op "p1" "are you alive?" 10
    ∷ enqueue_op " are you alive? " 15
    ∷ removal_op 20
    ∷ assistant_op "TATARA-ALIVE still building" 30
    ∷ []

one_outcome_each_example :
    let (p, t) = run seen new_probe_tracker zero_tally in
    t.registrations ≡ t.outcomes + t.discards + live p
one_outcome_each_example = one_outcome_each seen

abbrev answered_record : ProbeRecord
answered_record = record {
  status = record {
    id = "p1";
    state = answered;
    sent_at = 10;
    enqueued_at = 15;
    delivered_at = 20;
    answered_at = 30;
    answer = "TATARA-ALIVE still building";
  };
  text = "are you alive?";
  finished = true;
}

abbrev sent : ProbeTracker
sent = record { cur = some (registered "p1" "are you alive?" 10) }

abbrev removed : ProbeRecord
removed = record (registered "p1" "are you alive?" 10) {
  status = record ((registered "p1" "are you alive?" 10).status) {
    state = delivered;
    delivered_at = 20;
  };
}
