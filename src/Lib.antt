-- ===== src/Lib.antt =====
-- The remediation controller of SentinelOps AI (services/remediation-controller), its root-cause
-- agent (services/rca-agent), the core of its incident correlator (services/incident-correlator),
-- and the promotion gate of its detection models (ml/mlops). The controller turns the
-- recommendation of a root-cause analysis into a remediation that a policy has allowed, a human
-- has approved, an executor carries out, and a verifier watches recover. The correlator groups
-- anomalies into incidents and rates their severity. The agent investigates an incident: it lets
-- a language model plan the collection of evidence, analyze it and propose a root cause, and
-- checks and bounds whatever the model proposes. The gate decides whether a newly trained
-- detection model becomes the one that is served.
--
-- The parts and how they interact. `RemediationService` maps a recommendation to a proposal of a
-- closed catalogue, lets the policy engine judge it, and stores it; a human's decision moves it
-- on; `execute` claims the approved record in the repository, runs the executor and stores the
-- result; `verify_recovery` claims the executed record, polls a health probe and stores the
-- verdict. The repository's operations re-check the record's status, write the record, its row
-- and its audit events at once, and raise before they write. `InvestigationService` reserves the
-- one active investigation of an incident in its repository, runs the graph of nodes (initialize,
-- plan, collect, analyze, verify, synthesize, validate) under the limits, and stores what the run
-- ends with; the recommendation in its report is what the controller maps to a proposal. Paths
-- are below services/remediation-controller/remediation_controller, for Incident below
-- services/incident-correlator/incident_correlator, for Rca below services/rca-agent/rca_agent,
-- and for Mlops below ml/mlops.
--
--   * Prelude and its children: shared names, tests, lists, text, `Result` for what may raise,
--     integers, and `Dict`, Python's dict as an association list.
--   * Remediation/Enums, Errors, StateMachine: domain/enums.py, domain/errors.py,
--     domain/state_machine.py. StateMachine/Reach: paths of allowed transitions.
--   * Remediation/Target, Catalogue: domain/models.py, domain/catalogue.py. Catalogue/Schema: the
--     bounded schema as a predicate.
--   * Remediation/Proposal: domain/proposal.py. Proposal/Mapping: which recommendations become
--     proposals.
--   * Remediation/Policy, Policy/Codes: policy/. Policy/Eligible is the engine's contract as a
--     predicate; Policy/Reasons and Policy/Lifecycle are about the decision's codes and its
--     application.
--   * Remediation/Executor: executor/base.py as the interface record `Executor`, whose law is
--     that a result that is returned reports success (a failure is raised), and
--     executor/simulation.py as its implementation. Executor/Simulated: what a run does to the
--     simulation.
--   * Remediation/Recovery: recovery/. Recovery/Verdict is about the polling loop for any probe;
--     Recovery/Trajectory about the loop over the simulated probe.
--   * Remediation/Audit, Record, Repository, Authorization: audit/model.py and audit/builders.py,
--     `RemediationRecord`, the in-memory repository of repository.py, authorization.py.
--   * Remediation/Service with Execution, Verification and Calls: service.py; a sequence of calls
--     of its public methods is a list of `Call`. Service/Spacing and Repository/Snapshot:
--     proposals of the same kind.
--   * Remediation/Coherence: the invariant of the store. Its children follow one write (Updates),
--     the repository's operations (Writes and its children), the audit events (Events), each
--     method (Proposing, Deciding, Executing, Verifying), sequences of calls (Calls) and
--     consequences (Safety); Progress, Recovers and EndToEnd are about calls that succeed.
--   * Remediation/Scenario, Runs, Examples and ServiceExamples: the data of one end-to-end run,
--     its computed results, and tests.
--   * Incident/Domain, StateMachine, Severity, Correlation: domain.py, state_machine.py,
--     severity.py, correlation.py. Severity/Monotone is about the rules' order. Prelude/Names is
--     the sorted set of names.
--   * Incident/Absorb: the methods of `AnomalyProcessor` that open, extend and resolve an
--     incident. Incident/Processor: `_process_once` over the in-memory store; Processor/Single
--     counts the active incidents of a key, Processor/Once is about one anomaly.
--     Incident/Topology: topology.py; Topology/Grouped is about the groups of incidents by
--     service, Links about the list of links, Correlated about all links. Incident/Tests: tests.
--   * Mlops/Promotion, Promotion/Gate: the gate of promotion.py and what it asks for.
--     Mlops/Registry: registry.py over the client of the model registry, an interface record with
--     its laws; Mlops/Memory fills it with a registry in memory. Mlops/Promote, Promote/Moves:
--     promote_model and the promote command of __main__.py, and where the aliases point after it.
--     Mlops/Tests: tests.
--   * Rca/Domain, Errors, StateMachine, Schemas, Limits: domain.py, state_machine.py, schemas.py,
--     limits.py; errors and reasons are data types.
--   * Rca/Tools, Tools/Registry: tools/names.py, context.py, results.py, base.py, registry.py.
--     Rca/Reasoner: llm/base.py, the language model as an interface record. Rca/Plan,
--     Plan/Accepted: engine/plan.py.
--   * Rca/Validation: validation.py. Validation/Grounded is what the checks stand for; References
--     and Accepted relate the two. Rca/Synthesis, Synthesis/Valid: engine/synthesis.py.
--   * Rca/Engine: engine/deps.py, steps.py, tooling.py and state.py. Rca/Nodes with Gathering,
--     Reasoning and Report: engine/nodes.py. Rca/Graph: engine/graph.py. Graph/Ready says what
--     holds when a node is entered and how the graph may go on after it; Guarded, Gathered,
--     Reasoned and Reported show it of the nodes, Run of whole runs; Followup is about the
--     follow-up calls.
--   * Rca/Repository, Repository/Single: repository.py and the count of active investigations.
--     Rca/Service, Service/Concludes: engine/service.py.
--   * Rca/Scenario, Tests, Examples: the data of one investigation, its computed runs, and the
--     theorems at concrete inputs.
--
-- Representation. Times are natural numbers of microseconds, all of them aware. Rates are
-- ten-thousandths and latencies tenths of a millisecond, the precision to which the probe rounds
-- them; the rates in between are rounded to the nearest. A replica count is an integer. A poll
-- interval is a positive number of microseconds. Fresh ids and readings of the clock are
-- arguments of the operations that take them, and ids satisfy their patterns. The simulation's
-- `setdefault` adds no entry that a read could tell from a missing one. The polling loop is
-- recursion on the number of polls left, which `max_attempts` gives, so it needs no fuel. The
-- correlator's rates and scores are millionths and its latencies microseconds; the window of a
-- link is microseconds. The metrics of a detection model are millionths or NaN, and their
-- differences are exact. In the agent, the readings of the clock and the questions to the model
-- are counted, and the clock and the model are functions of that count, so that they may answer
-- differently each time; the content of an evidence item has the text of each value that is true
-- in a test; numbered ids of findings and hypotheses are their numbers. A dry run works on a deep
-- copy of the simulation, which is a value of its own here: the copy is dropped. The number of
-- polls divides the timeout by the interval exactly, where the source divides floats, which can
-- come out one lower for an interval that is not a whole number of seconds. Whether a run of the
-- agent's graph raises an exception that no node catches is a parameter of its service; the
-- bounds on the lengths of the agent's texts are taken to hold. A run of the graph has
-- LangGraph's recursion limit as its fuel, and max_repair_attempts is 1, as the service leaves
-- it.
--
-- Not modelled: the clients and prompts of language models, what the evidence tools fetch, rows
-- of evidence and histories of incidents, the stored links of incidents, the training and
-- registration of models, metrics, logs, the best-effort publication on Kafka, free text for
-- human readers (messages, details, metadata), the SQL repository, the HTTP layer and the other
-- services of the repository. One call of the service is one step: calls that interleave between
-- a read and its guarded write are not.
mod Prelude
pub mod Incident
pub mod Mlops
pub mod Rca
pub mod Remediation
