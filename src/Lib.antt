-- ===== src/Lib.antt =====
-- A model of coxswain-graphs: the driver that turns an initiative into phases of tasks, runs the graphs
-- that propose changes, gates their proposals and lands the work, and the store that several hosts share.
--
-- Parts and files, with the paths of the repository:
--   * Invoke: harness/invoke.py (`invoke_graphs`, `_refuse_malformed`, `_bounded`) and harness/phase.py
--     (`run_phase`). The graphs' runs and the order in which the children complete are arguments; an id
--     names its future. Threads, cancellation and signals are left out.
--   * Lease: harness/store_lease.py. The table is a list of rows, a statement a function of it that
--     returns the affected rows; a timestamp is its instant in whole seconds. Lease/Cell is the abstract
--     view, the one cell of a name.
--   * Retry: harness/store_retry.py. The loop runs on fuel, one unit for each attempt, against a list of
--     what each attempt meets; times are milliseconds.
--   * Phases: `phase_parents` and `phase_order` of harness/epic.py. A dictionary is an association list,
--     a KeyError is `none`; the `while` loop has one round of fuel for each phase, and each round that
--     goes on removes a phase.
--   * Landing: `branch_action`, `_task_of`, `unlanded`, `classify_unlanded`, `kept_work_refusal`,
--     `end_of_run_refusal` and `_audit_approved_kept` of harness/epic.py. Git's answers are an argument.
--   * Driver: `task_outcome`, `work_state_of`, `row_should_quarantine`, `_attempt_cap_for`, `_ready_view`,
--     `_phase_status` and `_unapproved` (Driver/Refused) of harness/epic.py.
--   * Queue: harness/store_queue.py. The work items are a list of rows, as in Lease; an instant that is
--     compared is in whole seconds. A null in a column that refuses it makes `upsert` fail; whether a column
--     takes a value, and what it gives back, is an argument, of which the theorems ask that a value of the
--     column's type (Queue/Columns) come back as it was. The parser of arguments, the dispatch and the
--     printing are left out.
--   * Review: `_review_round`, `_reviewer_answer` and `review_is_placeholder` of
--     graphs/delivery/lifecycle_propose.py. A reviewer is its answers, and the adversary's and the
--     arbiter's depend on what they are shown.
--   * FixLoop: the fix loop of `_run` in graphs/delivery/lifecycle_propose.py (FixLoop the loop, FixLoop/Run
--     from the first build to the proposal), with `_resume_build` and `_continue_ok` (FixLoop/Resume), the
--     files of a patch (FixLoop/Paths), what a retry is compared by (FixLoop/Scope) and `_handoff`
--     (FixLoop/Handover). Attempts are counted in halves. The runner is what its calls answer, by the number
--     of the build call; git, the ticket's checks and difflib are arguments. The loop runs on fuel, one unit
--     for a turn, and a resumption on fuel of its own: each turn spends at least half an attempt, and a
--     resumption without a ceiling of the role and without checkpoints stops after two.
--   * Decompose: `_edit_distance`, `_resolve_phase`, `_drop_foreign_needs`, `_ordinal_needs_problems`,
--     `_apply_corrections`, `_apply_challenge`, `_split_cross_repo`, `_stack_repo_count` and `_prefixed` of
--     graphs/delivery/initiative_decompose.py.
--   * PhaseSplit: graphs/delivery/phase_split.py. A level recurs on fuel: where the needs within a phase have
--     no cycle, a task's rank among them, and one more, is enough.
--   * Reuse: `reusable` of harness/resume.py, over the record of FixLoop.
--   * Escalate: harness/escalate.py, over the proposals that the graphs emit (Cartridge).
--   * Contract: graphs/_contract.py, over the resolved cartridge (Cartridge).
--   * Gate: harness/gate.py. The work store, the file system and the runner are arguments over a state of
--     the world, and what the runner raises ends `apply_decisions`; printing and the measured minutes are
--     left out.
--   * Policy: `split_by_policy` of harness/autonomy.py. The policy, which another package provides, is an
--     argument, and so are the ledger's rows.
--   * Cause: harness/cause_rule.py. Checks: harness/checks.py, without the
--     running of commands; Checks/Entries has the entries of the configuration.
--   * Rescue: harness/rescue_select.py, with `with_stored_causes` and `with_stored_rescues` of
--     harness/epic.py.
--   * Checkpoint, Budget, Size: checkpoint.py, budget_estimate.py and decompose_size.py of
--     graphs/delivery. Amounts are whole cents or micro-dollars, and floats are read as rationals.
--   * Prelude: lists, dictionaries, texts, orders and results that the parts share.
--
-- The parts meet as the program's do: a plan is cut into tasks (Decompose, Size), a task is built and reviewed
-- (FixLoop, Review, Checkpoint), a fan-out (Invoke) yields proposals (Contract), which are escalated
-- (Escalate), split (Policy) and decided (Gate); the driver orders phases (Phases), reads a result's
-- checks (Checks, Cause), decides states (Driver) and audits branches (Landing); the hosts that run it
-- share a store (Lease, Queue, Retry).
--
-- Texts that the program walks are lists of code points; `strip`, `lower` and the white space of a
-- pattern are those of the ASCII characters. Not modelled: the graphs' own calls of models, the runners,
-- git and the worktrees, the command line, and the store's tables other
-- than the lease and the queue.
pub mod Budget
pub mod Cartridge
pub mod Cause
pub mod Checkpoint
pub mod Checks
pub mod Contract
pub mod Decompose
pub mod Driver
pub mod Escalate
pub mod FixLoop
pub mod Gate
pub mod Invoke
pub mod Landing
pub mod Lease
pub mod PhaseSplit
pub mod Phases
pub mod Policy
pub mod Prelude
pub mod Queue
pub mod Rescue
pub mod Retry
pub mod Reuse
pub mod Review
pub mod Size
