-- ===== src/Lib.antt =====
-- The session of the Claude Code wrapper: a pod that runs one interactive claude process, accepts
-- turns over HTTP, and reports their results to an operator.
--
-- The parts and how they interact. A boot first makes an inherited checkout safe to use, claims the
-- workspace for its Task, brings the task branch up to date, and installs the agent's skills, all by
-- commands of git. A request is admitted and submitted by the session manager, which keeps the one turn
-- in flight in its slot, records every turn in the turn store, and types into the process's pseudo
-- terminal. A turn ends by a Stop hook's report, which a command of claude posts with retries, by an
-- interrupt that the transcript confirms, by a write that fails, or by a crash of claude. The manager
-- then frees the slot, counts the turn and hands its record on: a goroutine of its own commits and
-- pushes every repository, sends the agent a re-prompt if the turn's outcome was rejected and the
-- budget allows, and else hands a callback to the webhook's sender, which delivers it with retries.
-- While a turn runs, a loop pushes the task branch, and another pushes the metrics. The tailer follows
-- the transcript: it drives the inactivity timer and the liveness probe, and keeps the internal issues
-- that the end of a turn reports. The status line's usage of the account goes into the callbacks.
--
-- Which file models which part:
--   Turn.Records, Turn.Store      internal/turn/turn.go and store.go: State, Record, Summary; Create,
--                                 Get, List, Touch, Complete, Interrupt, Fail
--   Ratelimit                     internal/ratelimit/latest.go: Set, Get
--   Transcript.Probe              internal/transcript/probe.go: the ProbeTracker and its methods
--   Transcript.Scan, .Result      internal/transcript/result.go: LastMessage, WasInterrupted,
--                                 LastAssistant
--   Transcript.Tokens             internal/transcript/result.go: SumTurnTokens
--   Transcript.Outcome, .ToolName FailedCriticalOutcome, jsonContentString; bareToolName
--   Transcript.Status             OutcomeErrorStatus, leadingStatus
--   Transcript.Lines              internal/transcript/tailer.go: Follow, CaughtUpTo
--   Transcript.Queue, .Labels     the queueTracker; clampToolName and the other sets of labels
--   Transcript.Tailer             NewTailer, processLine and all that it calls, DrainInternalIssues
--   Webhook                       internal/webhook/webhook.go: New, the loop of deliver
--   Webhook.Sender                DeliverPayload, post and its signature, Shutdown
--   StopHook                      cmd/cc-stop-hook: buildResult, postWithRetry
--   Account                       cmd/cc-statusline/main.go: parsePayload; the accountUsage of
--                                 internal/httpapi and of cmd/wrapper/app.go
--   Pushclient                    internal/pushclient/pushclient.go: all of it
--   Wrapper.Repos, .Reprompt      cmd/wrapper/app.go: mergeRepoLists and its sets; the re-prompt's text
--                                 and what it takes as retryable
--   Wrapper.Payload, .Turn        cmd/wrapper/callback_payload.go; the commit and push of finalizeTurn
--   Wrapper.Finalize              the rest of finalizeTurn, in sections; Wrapper.Finalize.Pod has the
--                                 interleavings of the turns of a pod
--   Wrapper.Safety                cmd/wrapper/safetypush.go: all of it but the waits
--   Bootstrap.Git, .Reconcile     internal/bootstrap/bootstrap.go: GitRunner, mergeRemoteTaskBranch,
--                                 reconcileWithBase
--   Bootstrap.Branch              internal/bootstrap/bootstrap.go: checkoutTaskBranch
--   Bootstrap.World               internal/bootstrap/resume.go and repo.go: clearStaleLocks, headSHA,
--                                 unstageOversizedBlobs
--   Bootstrap.Resume              internal/bootstrap/resume.go: PrepareWorkspace and its phases
--   Bootstrap.Claim               internal/bootstrap/resume.go: claimWorkspace, diffStrings, and the
--                                 reading and writing of the workspace's identity
--   Bootstrap.Namespace, .Push    internal/bootstrap/namespace.go; repo.go: CommitAndPush and
--                                 CommitAndPushAll, PushOnly, AutoPushEnabled, RepoDir
--   Bootstrap.Skills, .Install    internal/bootstrap/skills.go: parseProfiles, shouldInstall;
--                                 installSkills and its walk
--   Bootstrap.Skills.Clone        cloneSkillsRepo, promoteSkillsClone
--   Bootstrap.Skills.Extra        parseExtraSkillSources, installExtraSkillSources and its clone
--   Api                           internal/httpapi/messages.go: validateCallbackURL, postMessage,
--                                 getMessage; internal.go: turnComplete; interrupt.go: postInterrupt
--   Session.State                 internal/session/session.go: Config, HookResult, Manager, New
--   Session.Slot                  clearCurrentLocked, fireDone, meterTokens, failTurn, failSubmitWrite
--   Session.Submit                podDeadline, admit, Submit, ensureTailerFollowing
--   Session.Hook                  Complete
--   Session.Control               Probe, recordProbeOutcome, Shutdown; internal/session/interrupt.go
--   Session.Resume                resumeTurn, resubmitOriginalPrompt, installResumeTimer,
--                                 completeFromTranscript
--   Session.Recover               Start, the end of bootWait, writeRaw, watch, shouldResume, relaunch
--   Session.Activity              currentTurnID, onTailerActivity, markStallSuspected,
--                                 onSubagentActivity, Snapshot, Alive, StartTailer
--   Session.Ring                  internal/session/ring.go: Write, reset, written
-- Session.Step makes each part that runs under the manager's lock one step of a relation; a run is
-- any list of such steps, so it covers every interleaving of concurrent calls. Wrapper.Finalize.Pod and
-- Webhook.Sender do the same for the goroutines of the turns and for those of the deliveries. The
-- modules not named above, such as those named Laws, hold the proofs, the Examples the instances.
--
-- How the code is read. A state is a record, a method a function from the state to the state and what
-- it returns; an error is a value. An instant is a number of nanoseconds since the zero time, a
-- duration an integer of nanoseconds. A map is an association list. What the code reads of the
-- world is an argument: the clock, new ids, the outcome of a write to the terminal, what the
-- transcript yields, how a line decodes, whether a request succeeds, whether a process was spawned.
-- Git is a function of a command and of all the commands run before it, so that a theorem about any
-- git is one about every course a boot can take.
-- No loop of the modelled code runs on fuel: the loops are over lists and counts of retries, the
-- polling of an interrupt is modelled one round at a time, and the loops of the pushes run once for
-- each tick, whose number is an argument. The sections of finalizeTurn are run seven times, which is
-- enough for every turn.
--
-- What the theorems over interleavings assume of a step: a new turn id is not empty and not in the
-- store, and a timer or a recovery is that of a turn, so its id is not empty.
--
-- Not modelled: the logs, the traces, and the labels of durations; the terminal dialogs that bootWait
-- answers, and the strings of the output ring; the waiting for files and goroutines; the cloning of the
-- Task's repositories and the files that a boot renders, which are generated text; the reading of the
-- configuration, the lifecycle hooks, authentication, HTTP routing and packaging; and the guard of
-- prompts, which a test of the repository runs on its source.
pub mod Common
pub mod Turn
pub mod Ratelimit
pub mod Transcript
pub mod Session
pub mod Webhook
pub mod Bootstrap
pub mod Api
pub mod Wrapper
pub mod Account
pub mod Pushclient
pub mod StopHook
