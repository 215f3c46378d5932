-- ===== src/Turn/Store.antt =====
-- internal/turn/store.go: the store of the turns' records. The map holds pointers, and a record
-- changed in place is written back under its key.
use tatara_claude_code_wrapp.Common.{
  ◌++◌, Bool, true, false, List, [], ◌∷◌, Option, none, some, String, Time, lookup, insert,
  if◌then◌else◌,
}
use tatara_claude_code_wrapp.Turn.Records.{
  State, running, failed, Record, Summary, stop_reason_interrupted, err_interrupted,
}

-- `ErrNotFound`.
pub data Error : Type 0 where
  not_found : Error

pub record Store : Type 0 where
  pub by_id : List (String × Record)
  pub order : List String

abbrev pub new_store : Store
new_store = record { by_id = []; order = [] }

-- The record that `Create` allocates.
abbrev pub fresh : String → String → String → Time → Record
fresh id text callback_url now = record {
  id = id;
  state = running;
  text = text;
  callback_url = callback_url;
  final_text = "";
  result_json = "";
  usage = "";
  stop_reason = "";
  error = "";
  started_at = now;
  last_activity_at = now;
  completed_at = none;
  pushed_repos = [];
  failed_repos = [];
  internal_issues = [];
}

unfoldable pub create : String → String → String → Time → Store → Store
create id text callback_url now s = record {
  by_id = insert id (fresh id text callback_url now) s.by_id;
  order = s.order ++ id ∷ [];
}

-- A copy of the record, or nothing.
unfoldable pub get : String → Store → Option Record
get id s = lookup id s.by_id

abbrev pub summary : Record → Summary
summary r = record {
  id = r.id;
  state = r.state;
  started_at = r.started_at;
  last_activity_at = r.last_activity_at;
  completed_at = r.completed_at;
}

-- The loop of `List`. An id of `order` without a record is a nil dereference: `none`.
unfoldable pub list_from : List String → Store → Option (List Summary)
list_from [] s = some []
list_from (id ∷ ids) s =
    let rest = list_from ids s in
    elim (lookup id s.by_id) [
      | none ↦ none
      | some r ↦ elim rest [ none ↦ none | some out ↦ some (summary r ∷ out) ]
    ]

unfoldable pub list : Store → Option (List Summary)
list s = list_from s.order s

abbrev pub put : String → Record → Store → Store
put id r s = record s { by_id = insert id r s.by_id }

abbrev pub is_running : State → Bool
is_running running = true
is_running _ = false

unfoldable pub touch : String → Time → Store → Store × Bool
touch id now s = elim (lookup id s.by_id) [
  | none ↦ (s, false)
  | some r ↦
      if is_running r.state
      then (put id (record r { last_activity_at = now }) s, true)
      else (s, false)
]

-- The record after `Complete`, `Interrupt` and `Fail`.
abbrev pub completed : String → String → String → String → Time → Record → Record
completed final_text result_json usage stop_reason now r = record r {
  state = State.complete;
  final_text = final_text;
  result_json = result_json;
  usage = usage;
  stop_reason = stop_reason;
  completed_at = some now;
}

abbrev pub interrupted : String → String → Time → Record → Record
interrupted final_text usage now r = record r {
  state = failed;
  final_text = final_text;
  usage = usage;
  stop_reason = stop_reason_interrupted;
  error = err_interrupted;
  completed_at = some now;
}

abbrev pub errored : String → Time → Record → Record
errored msg now r = record r { state = failed; error = msg; completed_at = some now }

unfoldable pub complete :
    String → String → String → String → String → Time → Store → Store × Option Error
complete id final_text result_json usage stop_reason now s = elim (lookup id s.by_id) [
  | none ↦ (s, some not_found)
  | some r ↦ (put id (completed final_text result_json usage stop_reason now r) s, none)
]

unfoldable pub interrupt : String → String → String → Time → Store → Store × Option Error
interrupt id final_text usage now s = elim (lookup id s.by_id) [
  | none ↦ (s, some not_found)
  | some r ↦ (put id (interrupted final_text usage now r) s, none)
]

unfoldable pub fail : String → String → Time → Store → Store × Option Error
fail id msg now s = elim (lookup id s.by_id) [
  | none ↦ (s, some not_found)
  | some r ↦ (put id (errored msg now r) s, none)
]
