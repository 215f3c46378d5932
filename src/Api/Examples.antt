-- ===== src/Api/Examples.antt =====
-- internal/httpapi/messages.go: a request for a turn that is taken, and one that finds a turn in flight.
use tatara_claude_code_wrapp.Common.{◌*◌, false, none, some, arith, if◌then◌else◌, str_eq}
use tatara_claude_code_wrapp.Common.Int.{pos}
use tatara_claude_code_wrapp.Session.State.{Config, Manager, ready, busy, new, second}
use tatara_claude_code_wrapp.Session.Submit.{SubmitInput, submit, admit, refuse, reserve}
use tatara_claude_code_wrapp.Turn.Store.{new_store}
use tatara_claude_code_wrapp.Api.{
  Parsers, PostMessageReq, post_message, validate_callback_url, refuse_host,
}
use tatara_claude_code_wrapp.Api.Laws.{
  Screened, Untouched, post_message-Screened, post_message-Untouched,
}

abbrev cfg : Config
cfg = record {
  workspace = "/work";
  home_dir = "/home/node";
  model = "opus";
  repo = "org/repo";
  turn_timeout = 2 * second;
  pod_ttl = pos 0;
  boot_timeout = pos 0;
  submit_delay = pos 0;
  submit_seq = record { paste_start = "["; paste_end = "]"; submit = "!" };
  max_restarts = pos 0;
}

abbrev idle : Manager
idle = record (new cfg new_store 1000) { state = ready; w = some 1; proc = some 1 }

abbrev held : Manager
held = record idle { state = busy; current = "t0" }

-- The one URL is that of a host, which is no literal address.
abbrev parsers : Parsers
parsers = record {
  parse_url = λ s. if str_eq s "http://operator/cb" then some ("http", "operator") else none;
  parse_ip = λ s. none;
}

abbrev request : PostMessageReq
request = record { text = "hello"; callback_url = "http://operator/cb"; handoff = false }

abbrev input : SubmitInput
input = record {
  admit_now = 2000;
  id = "t1";
  now = 2000;
  paste_error = none;
  submit_error = none;
  timer_now = 2500;
}

post_message-Screened_example :
    Screened parsers request input idle (post_message parsers (some request) input idle)
post_message-Screened_example = post_message-Screened parsers request input idle

post_message-Untouched_example : Untouched held (post_message parsers (some request) input held).0
unfolding post_message validate_callback_url refuse_host submit admit refuse reserve new
post_message-Untouched_example =
    post_message-Untouched parsers (some request) input held (λ e. omega (arith, e))
      (λ e. omega (arith, e))
