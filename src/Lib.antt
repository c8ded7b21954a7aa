-- ===== src/Lib.antt =====
-- kpcl_hardware: the collector and the analysis engine of the plant historian.
-- A sample is measured at a source, received by the collector, compressed in two stages, numbered,
-- and forwarded to the archive, or kept in a bounded buffer while the archive is away and replayed
-- in order of source time when it is back. The engine reads the archive and recognises events in it.
--
-- Files:
-- - Common: names, Boolean tests, lists measured by native numbers, integers, dicts.
-- - Collector/Model: `Sample` of collector/model.py.
-- - Collector/Compression: collector/compression.py. Filter is `ExceptionFilter`, Door is
--   `SwingingDoor`, TwoStage is `TwoStageCompressor` and `compress`; the other files are proofs.
-- - Collector/Buffer: `Buffer` of collector/buffer.py, an SQLite table as the list of its rows in id
--   order.
-- - Collector/Sink: `ArchiveSink.write` and `write_losses` of collector/sink.py, each table of the
--   archive as the list of its rows.
-- - Collector/Pipeline: `Pipeline` of collector/pipeline.py; Pipeline/Steps has its steps as a
--   relation, Pipeline/Cancel is the stop of the forwarder in collector/main.py, Pipeline/Store the
--   store that the archive and the buffer make together.
-- - Collector/Session: `_SubscriptionHandler` and `PublishSequence` of collector/session.py;
--   Session/Sequence, Session/Handling and Session/Origin are proofs.
-- - Engine/Trigger and Engine/Events: `Trigger` and `_Debouncer`, then `detect` and `_summarise` of
--   engine/events.py.
-- - Engine/Quality: the rules of engine/quality.py; Quality/Evaluate is `evaluate_tag`. The status
--   codes that asyncua names are a parameter.
-- - Engine/Kpi: `safe_eval` and `compute` of engine/kpi.py. Python's floats and their operations are
--   a parameter, and so is the syntax tree that `ast.parse` makes.
-- - Ops/Alerts: `evaluate` and `raise_or_clear` of ops/alerts.py.
-- - Omf: collector/omf.py and archive/omf_receiver.py. Omf/Json has documents, Omf/Message the
--   messages, Omf/Validate `validate`, and Omf/Receiver `Receiver.handle`; the other files are
--   proofs. How Python writes and reads times and numbers is a parameter, and a body is a list of
--   objects.
-- - Ops/Access: ops/access.py, on its three tables. Hashing a token is a parameter.
-- - Archive/Audit: archive/audit.py, on the rows of the configuration. What a column gives back of a
--   value that is written to it is a parameter.
-- - Sim/Ledger: `Ledger` of sim/ledger.py, the simulator's record of its writes; Ledger/Series and
--   Ledger/Window are proofs.
-- - Rig/Registers, Rig/Decoding, Rig/Bridge and Rig/Stub: sim/bridge.py, which polls the bench rig
--   over Modbus and publishes its registers, and firmware/rig_stub.py, which serves them. What
--   pymodbus makes of a reply is a parameter, and so are the random numbers of a scan.
-- - Collector/Tests, Collector/Pipeline/Tests, Collector/Session/Tests, Engine/Tests, Ops/Tests,
--   Ops/Access/Tests, Archive/Audit/Tests, Omf/Tests, Sim/Ledger/Tests and Rig/Tests: runs on small
--   inputs.
--
-- Conventions:
-- - A value is an integer in units of 10⁻¹² and a timestamp is a natural number of microseconds;
--   arithmetic is exact, where the code rounds floating point. A comparison of quotients is
--   multiplied out by the time span, which is positive there. The tolerance 1e-12 is one unit.
-- - `none` as a result of a constructor is the ValueError that the code raises. Dicts keep the order
--   of insertion.
-- - What happens outside (the clock, the samples that arrive during an await, whether a call of the
--   sink commits, fails, or commits without an answer) is an argument of the step.
-- - `drain_rounds` has the length of the segment as its fuel: each round archives at least one
--   point, so that there are never more rounds. The pipeline's drain takes one `Round` for each turn
--   of its loop; a list that ends early is a drain that is still waiting.
-- - A step of Pipeline/Steps names the samples that it loses. A write that is cancelled may have
--   committed or not; the task does not see its answer.
-- - Names that are only compared (attributes, milestones, templates) are numbers. Log lines are left
--   out; what goes to the event stream is kept, without detail texts and elapsed seconds.
--
-- Not modelled: the network, PostgreSQL and SQLite beyond the statements used, HTTP and the user
-- interface, the simulated plant and its server, the acceptance tests, and the parts of the engine
-- and of ops that are queries.
pub mod Common
pub mod Collector
pub mod Engine
pub mod Ops
pub mod Rig
pub mod Sim
pub mod Omf
pub mod Archive
