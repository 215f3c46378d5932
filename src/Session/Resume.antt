-- ===== src/Session/Resume.antt =====
-- internal/session/session.go: the turn that a crash of claude interrupted, once a new process is
-- up: nudged, submitted again, or completed from the transcript.
use tatara_claude_code_wrapp.Common.{
  ℕ, ◌++◌, ◌&&◌, ◌||◌, not, Bool, true, false, [], ◌∷◌, Option, none, some, String, Time, is_empty,
  if◌then◌else◌, str_eq, ◌+++◌,
}
use tatara_claude_code_wrapp.Session.State.{
  State, ready, busy, Manager, ResumeMode, nudge, resubmit, complete_from_transcript,
}
use tatara_claude_code_wrapp.Session.Slot.{stopped, write, fail_turn, fire_done, meter_tokens}
use tatara_claude_code_wrapp.Session.Submit.{install_timer}
use tatara_claude_code_wrapp.Session.Hook.{count_complete}
use tatara_claude_code_wrapp.Session.Control.{Reads, report, read_or}
use tatara_claude_code_wrapp.Turn.Records.{Record}
use tatara_claude_code_wrapp.Turn.Store

abbrev is_ready : State → Bool
is_ready ready = true
is_ready _ = false

abbrev count_resume : Bool → ResumeMode → Manager → Manager
count_resume ok mode m = record m {
  metrics = record (m.metrics) { resumes = m.metrics.resumes ++ (ok, mode) ∷ [] };
}

unfoldable pub install_resume_timer : String → ResumeMode → Time → Manager → Manager
unfolding install_timer
install_resume_timer id mode now m =
    if not (str_eq m.current id)
    then m
    else count_resume true mode (record (install_timer id now m) { state = busy })

-- What a recovery meets: the transcripts, the outcome of its writes, and the clock.
pub record ResumeInput : Type 0 where
  pub reads : Reads
  pub paste_error : Option String
  pub submit_error : Option String
  pub now : Time

unfoldable pub nudge_turn : ℕ → String → ResumeInput → Manager → Manager
unfolding fail_turn install_resume_timer
nudge_turn p id x m =
    let m1 = write p m.cfg.submit_seq.submit x.submit_error m in
    elim x.submit_error [
      | some e ↦ fail_turn id ("resume write submit: " +++ e) x.now (count_resume false nudge m1)
      | none ↦ install_resume_timer id nudge x.now m1
    ]

abbrev text_of : Option Record → String
text_of none = ""
text_of (some r) = r.text

unfoldable pub resubmit_original_prompt : ℕ → String → ResumeInput → Manager → Manager
unfolding nudge_turn fail_turn install_resume_timer
resubmit_original_prompt p id x m =
    let text = text_of (Store.get id m.store) in
    if is_empty text
    then nudge_turn p id x m
    else let seq = m.cfg.submit_seq in
      let m1 = write p (seq.paste_start +++ text +++ seq.paste_end) x.paste_error m in
      elim x.paste_error [
        | some e ↦
            fail_turn id ("resume write paste: " +++ e) x.now (count_resume false resubmit m1)
        | none ↦
            let m2 = write p seq.submit x.submit_error m1 in
            elim x.submit_error [
              | some e ↦
                  fail_turn id ("resume write submit: " +++ e) x.now
                    (count_resume false resubmit m2)
              | none ↦ install_resume_timer id resubmit x.now m2
            ]
      ]

unfoldable pub complete_from :
    Reads → String → String → String → String → String → Time → Manager → Manager
unfolding count_complete meter_tokens fire_done
complete_from reads id path final_text usage stop now m =
    let tokens = read_or [] (reads.sum_turn_tokens path) in
    if not (str_eq m.current id)
    then m
    else let m1 = record m { timer = stopped m.timer } in
      let (store', err) = Store.complete id final_text "" usage stop now m1.store in
      elim err [
        | some e ↦ m1
        | none ↦
            let m2 = count_complete (record m1 { store = store' }) in
            fire_done (Store.get id store')
              (count_resume true complete_from_transcript (meter_tokens (report usage tokens) m2))
      ]

-- A terminal answer of the assistant is the last message of a transcript.
abbrev pub looks_finished : Option (String × String) → Bool
looks_finished none = false
looks_finished (some (role, stop)) =
    str_eq role "assistant" && not (is_empty stop) && not (str_eq stop "tool_use")

-- The answer to complete the turn with, if the turn had ended before the crash.
unfoldable pub finished_answer : Reads → String → Option (String × String × String)
finished_answer reads path =
    if not (is_empty path) && looks_finished (reads.last_message path)
    then reads.last_assistant path
    else none

unfoldable pub resume_turn : String → Bool → ResumeInput → Manager → Manager
unfolding finished_answer complete_from resubmit_original_prompt nudge_turn
resume_turn id resumed x m =
    if not (str_eq m.current id) || not (is_ready m.state) then m else elim m.w [
      | none ↦ m
      | some p ↦
          if not resumed
          then resubmit_original_prompt p id x m
          else elim (finished_answer x.reads m.transcript_path) [
            | some (text, usage, stop) ↦
                complete_from x.reads id m.transcript_path text usage stop x.now m
            | none ↦ nudge_turn p id x m
          ]
    ]
