-- ===== src/Pushclient/Examples.antt =====
-- internal/pushclient/pushclient.go: a push at the start, one tick that the operator does not answer,
-- and the shutdown.
use tatara_claude_code_wrapp.Common.{◌≡◌, refl, true, List, [], ◌∷◌, some, none, String, length}
use tatara_claude_code_wrapp.Common.Int.{pos}
use tatara_claude_code_wrapp.Pushclient.{Config, enabled, Family, Reads}
use tatara_claude_code_wrapp.Pushclient.Laws.{Sends, life, life-Sends}

abbrev fixed_query : List (String × String) → String
fixed_query values = "job=ccw&run_id=r1"

abbrev to_operator : Config
to_operator = record {
  url = "http://operator";
  run_id = "r1";
  pod = "";
  job = "ccw";
  interval = pos 0;
}

abbrev own_and_process : List Family
own_and_process =
    record { name = "ccw_turns_total"; text = some "ccw_turns_total 1" }
    ∷ record { name = "process_cpu_seconds"; text = some "process_cpu_seconds 2" }
    ∷ []

abbrev answered : Reads
answered = record { gathered = some own_and_process; makes_request = true; answer = some 204 }

abbrev unanswered : Reads
unanswered = record { gathered = some own_and_process; makes_request = true; answer = none }

to_operator-enabled : enabled to_operator ≡ true
unfolding enabled
to_operator-enabled = refl

life-Sends_example :
    Sends fixed_query to_operator true
      (answered ∷ unanswered ∷ [])
      (life fixed_query to_operator true answered (unanswered ∷ []) true).requests
      true
    × (length (life fixed_query to_operator true answered (unanswered ∷ []) true).pushes ≡ 2)
life-Sends_example =
    life-Sends fixed_query to_operator true answered (unanswered ∷ []) true to_operator-enabled
