-- ===== src/Lib.antt =====
-- A verification library for the FireWarning orchestrator (fireviewer_orchestrator).
--
-- The program takes a batch of media items, runs up to four model stages over it on one GPU, merges
-- what the models say into one result for each item, and reports the runs, gates and consensus
-- decisions of every stage; a version 2 batch also gets spatial and fact proposals and a draft
-- report. Around that core stand a deterministic pipeline from evidence to review proposals, a
-- planner of enrichment steps, a merge of evidence records, and the authenticated job queue of a
-- pod. Paths below are those of the repository.
--
-- The files:
--   Common: texts, lists, orders, sets as sorted lists, dictionaries as association lists.
--   Contracts: the records of `fireviewer_contracts` by the fields that the code reads.
--   StageGates, StageGates/Engine (src/fireviewer_orchestrator/stage_gates.py):
--     `derive_capabilities`, `_missing_requirements`, `_is_not_applicable` and `StageGateEngine` with
--     its `preflight` and `postflight`, which decide before and after a stage.
--   SessionRunner (src/fireviewer_orchestrator/session_runner.py): Effects has the runtime (adapters,
--     GPU memory, clock) as functions on a world that may raise, with a log of the calls on adapters;
--     Registry is `__init__`; Patches is `_as_patch`, `_merge`, `_validated_candidates`,
--     `_candidate_payload` and `_maximum_stage_output_items`; Initial is `_initial_result` and
--     `_temporal_sample`; Candidate is `_execute_candidate`; Adjudicator is `_execute_adjudicator`;
--     Stage with Execute and Settle is the body of the loop of `_run_with_trace`; Run is that loop,
--     its end, and `run_with_trace`, and Output the record that it returns.
--   EvidenceMerge (src/fireviewer_orchestrator/mvp/orchestration/evidence_merge.py): the merge of the
--     collections of evidence records.
--   EventPipeline (src/fireviewer_orchestrator/event_pipeline.py): Run is `DeterministicEventPipeline`,
--     Envelope has the checks on activity envelopes.
--   IncidentUpdates (src/fireviewer_orchestrator/incident_updates.py): `plan_incident_enrichment`.
--   PodServer (src/fireviewer_orchestrator/pod_server.py): `PodJobQueue` by critical sections, Steps
--     has the interleavings of request threads and the consumer as a step relation, with its invariant,
--     the life of a job as its specification, and the draining of the queue; Http has the handlers.
--   V2Runner (src/fireviewer_orchestrator/v2_runner.py): Legacy is `to_legacy_input`, Annotations
--     `_source_annotations`, Spatial `_spatial_proposals` with its satellite and hotspot branches,
--     Facts `_fact_proposals`, Report `_report`, Compose with Compose/Items `from_legacy_output`.
--   Handler (src/fireviewer_orchestrator/handler.py): Job is `handle_job` with the choice of the branch;
--     Event, Research and Batch are its branches; the lock on the GPU session is a Boolean of the
--     state, and an exception, or waiting for the lock, is a kind of answer.
--   PointBundles (src/fireviewer_orchestrator/mvp/orchestration/point_bundle_pipeline.py): `build` of
--     `GeographicPointBundlePipeline`, a dossier for each geographic hypothesis.
--   CorpusEvents (src/fireviewer_orchestrator/mvp/orchestration/corpus_event.py): `prepare_corpus_event`
--     and the validation of `CorpusEventRuntimeInput`.
--   Tests: the definitions and theorems at concrete inputs.
--
-- How the parts meet: a session calls the gate engine before and after each stage with the
-- capabilities of the batch and the results; a candidate's patches are merged and validated before
-- they count; the handler runs a session under the lock and, for version 2, hands its result with
-- those of the later stages to `from_legacy_output`; the pod's consumer calls the handler, whose
-- outcome is an argument of the step that ends a job.
--
-- Bounds and fuel: every loop is structural recursion on its list, so there is no fuel. Durations are
-- numbers of milliseconds, of which the code takes differences and bounds; texts stand for values
-- that the code only hands on. Capabilities are any ordered type.
--
-- Exceptions: the calls of other packages, their validators among them, may raise wherever the code
-- calls them; an exception is an outcome of the function that it leaves. Where a theorem needs such a
-- call to return, it says so in a hypothesis.
--
-- Not modelled: bootstrap and its status files, the choice of the runtime's adapters, managed
-- costs, the hosted model services, the probes, the settings and the repository's
-- tools; also the printing of diagnostics, sockets and the encoding of JSON. The packages
-- `fireviewer_contracts`, `fireviewer_vision_runtime` and the like are parameters: validation of
-- items, consensus, GeoJSON, SHA-256, the adapters and the memory manager. Identifiers of jobs come
-- from `uuid4` and are taken to be new.
pub mod Common
pub mod Contracts
pub mod StageGates
pub mod SessionRunner
pub mod EvidenceMerge
pub mod EventPipeline
pub mod PodServer
pub mod V2Runner
pub mod Handler
pub mod IncidentUpdates
pub mod PointBundles
pub mod CorpusEvents
pub mod Tests
