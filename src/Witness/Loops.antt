-- ===== src/Witness/Loops.antt =====
-- The loop over the controller, with a runner that completes the iteration it is given.
use taint_forge_io_t.Attempt.Store.{absent}
use taint_forge_io_t.Loop.Limits.{IsSound, run-IsSound}
use taint_forge_io_t.Loop.Run.{Collaborators, run}
use taint_forge_io_t.Prelude.{Bool, Result, err, false, ok, true}
use taint_forge_io_t.Session.Calls.{prepare_next}
use taint_forge_io_t.Session.Completion.{complete_iteration}
use taint_forge_io_t.Session.Controller.{Session}
use taint_forge_io_t.Session.Records.{IterationRecord, SessionError}
use taint_forge_io_t.Witness.Sessions.{completion, ext, fresh}

abbrev ran : Result SessionError IterationRecord × Session → Bool × Session
ran (ok r, s) = (true, s)
ran (err e, s) = (false, s)

abbrev controller : Collaborators
controller = record {
  prepare = prepare_next ext;
  verifies = λ s. true;
  claim_of = λ s n. absent;
  run_and_complete = λ n s. ran (complete_iteration ext s completion);
}

run-IsSound_example : IsSound 2 (run controller 2 false fresh)
run-IsSound_example = run-IsSound controller 2 false fresh
