-- ===== src/Lib.antt =====
-- Models and proofs of the environment-synthesis core of TaintForge-IoT, the Python package
-- taintforge_env/. The program runs an unpacked sample in a root file system, observes what the
-- sample lacks, plans repairs, applies the safe ones to a copy, and runs the sample again until a
-- goal, a fixed point or the budget stops the session.
--
-- - Prelude: Boolean tests, lists, texts, results, JSON values, sorting. A text is the list of its
--   code points; an integer of the program is a ℤ over the native numbers, a double its bit pattern.
-- - Attempt (taintforge_env/attempt.py): Stages has the enumerations and the table of transitions,
--   Records the records with the checks of their __post_init__, Store the AttemptStore as a
--   directory whose files are slots. Passage and Store/Append hold the theorems.
-- - Progress (taintforge_env/progress_oracle.py): Events normalises the artifacts, Metrics counts and
--   observes, Compare is ProgressOracle.compare. Verdicts holds the theorems.
-- - Guest: pure POSIX paths as pathlib reads them; Prefixes has the lemmas on trailing slashes.
-- - Repair (taintforge_env/requirements.py, repair_plan.py, repair_planner.py, repair_applier.py): Plan has the
--   records, Planner the whole planner, Applier the applier: Guard the checks of a path and a mode,
--   Rootfs the file system, Preflight the checks before the first change, Apply the transaction.
--   Created, Targets, Success, Touched and Asked are about an application that returns, Rollback
--   about one that raises. Agreement relates the planner and the applier.
--   The rootfs is a list of nodes by path; Faults says which system calls fail.
-- - Session (taintforge_env/iteration_controller.py): Records, Judge (stop reasons, outcomes and the
--   terminal check), Controller (the state with the environment manifests of
--   environment_manifest.py), Calls (prepare_next) and Completion (complete_iteration). It uses the
--   attempt store, the progress oracle and the repair plan of the parts above.
-- - Egress (taintforge_env/network_modes.py, egress_policy.py): Modes, Policy (the decision on a request
--   and on resolved addresses), with the theorems in Decision and Resolved.
-- - Loop (taintforge_env/synthesis_loop.py): Run is EnvironmentSynthesisLoop.run over an interface of the
--   controller and the runner, Limits its theorem.
-- - Target (taintforge_env/target_state_oracle.py): Spec has the specification with its printing, Parse
--   the reading, Equality Python's comparison of JSON scalars, Sequence the count of a repeated
--   sequence, Evidence and Oracle the evaluation on the files of a run. The other files are proofs.
-- - Replay (taintforge_env/replay_store.py): Request has the entries and the checks of their parts, Store
--   the index and the blobs with initialize, add, lookup and validate. The other files are proofs.
-- - Runner (taintforge_env/prebuilt_runner.py): Claim has the execution claim, Site the steps on the
--   outside and how they follow one another, Run the calls run_and_complete and reset_safe_failure,
--   with exceptions that the handler catches and interrupts that it does not. Hoare has the rules by
--   which Once, Started, Reset and Calls reason.
-- - Extraction (taintforge_env/requirement_extractor.py): Table merges requirements, Syscalls extracts
--   them from the system calls of the guest. Merged and Directories hold the theorems.
-- - Dns (taintforge_env/transparent_logger.py): Packet parses queries and builds their
--   responses, Echo and Answer read the response to a query.
-- - Witness: concrete inputs for the theorems.
--
-- An exception is an error value. SHA-256 digests, canonical JSON, the clock, the ISO-8601 parser,
-- urlsplit and ipaddress are parameters. A call of the file system that only the operating system
-- can refuse is modelled where the program handles the refusal: in the applier; writes of session
-- files are taken to succeed, and an exception that synthesis_loop.py does not handle is left out.
-- Stripping and letter case are those of ASCII. Loops are recursions on a list, or on the number of
-- executions that max_steps still allows; only the count of a repeated sequence runs on fuel, one
-- unit for each event, which is enough since its cursor grows at each turn.
--
-- Not modelled: the parsing and printing of the report and plan files, the building of a repaired
-- snapshot (a parameter of prepare_next), initialize and verify of the controller, the
-- configuration of the loop, the other network policies, the parsing of policy files, the trace
-- parsers, ELF analysis, and everything that runs processes.
mod Prelude
pub mod Attempt
pub mod Progress
pub mod Guest
pub mod Repair
pub mod Session
pub mod Runner
pub mod Target
pub mod Extraction
pub mod Dns
pub mod Egress
pub mod Replay
pub mod Loop
mod Witness
