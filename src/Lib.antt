-- ===== src/Lib.antt =====
-- The decision logic of the model control plane of SentinelAegisForge, the Python package
-- model-control-plane/src/sentinelaegisforge_control_plane (paths below are relative to it).
--
-- Parts and files. Common is what the parts share: tests on numbers, Python's lists, sets, dicts
-- and stable sort, the order of strings and of tuples, exceptions as values, and JSON values.
-- Datasets models datasets/labels.py: Time is require_utc, Timestamp is parse_utc_timestamp and
-- its Text utc_text, Labels the label contract, _validate_revisions and resolve_labels; and the
-- row rules of datasets/dataset_contract.py (Rows: feature_rows and _validate_statistics).
-- Candidates models candidates/contract.py (Contract: _decimal and validate_input), which checks a
-- scoring request again after the table was checked by Rows. Feedback models feedback/contract.py
-- (Contract: the envelope and parse_record, Printed: as_dict), feedback/ingestion.py (Ingestion:
-- _validate), feedback/resolution.py (Resolution: resolve_feedback, its loops one definition each)
-- and the counts of feedback/monitoring.py (Monitoring: _derive). Training models
-- training/temporal.py (Temporal: TemporalConfig and partition_rows). Availability models
-- availability/discovery.py (Discovery: discover_versions) and availability/outbox.py (Outbox:
-- _segment and _outbox) and _expected of availability/kafka_export.py (KafkaExport). Incremental
-- models incremental_shadow/progress.py and _fence and records of
-- incremental_shadow/operations.py: Stream is the directory of a stream and its offsets, Fence is
-- _fence, Records records, Acceptance is inspect_acceptance, Outcomes _results, Progress progress,
-- Publication authorize_publication and Reconciliation reconcile. KafkaShadow models
-- kafka_shadow/inbox.py (Inbox), kafka_shadow/results.py (Results: inspect_result, claim_result,
-- durable_results and counts) and evaluate_one and process_resolved of kafka_shadow/worker.py
-- (Worker), which claims the results. Monitoring models monitoring/distributions.py
-- (Distributions: _finite; Ks, Psi, Categories and Numeric its comparisons of two cohorts).
-- Reliability models kafka_range of reliability/retention.py (Retention) and backlog_snapshot of
-- reliability/outage.py (Backlog). Validation models validation/policy.py (Policy: evaluate).
-- Feedback and training rest on the labels' time and contract; the outbox is made of the
-- differences that discovery returns, and the stream's batches hold the ready events of an outbox;
-- the backlog counts rest on its progress.
--
-- How state is modelled. The program is functional at this level: a loop is a recursion on its
-- list with the loop's variables as arguments or as a record (Loop, Index), a raise is `err`, and
-- a chain of calls that may raise is a do block of Result. An instant is a natural number of
-- microseconds, a naive datetime has no offset, and a signed int is ℤ where the code refuses
-- negative values. A UUID is its canonical text. A dict is an association list in insertion order,
-- a set a list without repetition. A directory that the code only reads is a record of what its
-- files hold. The directory of results is a dict from a file's stem to its object: claim_result
-- takes it and returns it. Results/Durable has the same call as two steps, the look whether the
-- file exists and the link that fails if it does, so that the calls of several processes
-- interleave.
--
-- Parameters. The Delta table is read by the deltalake library: DeltaSource has what it answers
-- for each version. The names of the files of one directory differ. SHA-256 is a function `digest` on the JSON value whose canonical bytes are
-- hashed. The text that `str` gives a JSON value and the scoring model are functions, which the
-- worker takes together as a record (Setup). The arithmetic of finite floats is a record of
-- functions on a type (Floats and Scores); what is assumed of it is that `<=` is a total order
-- (IsOrdered), where a theorem needs it. statistics.fmean is a function.
--
-- Recursion. Every loop runs over a finite list. There are two uses of fuel: the printing of a
-- number (Common.Decimal), which has at most as many digits as its value and one, and the search
-- for the year of a day (Datasets.Timestamp.Text), where each year takes at least one of the days
-- left; Datasets.Timestamp.RoundTrip.Calendar has the lemma that the days are enough.
--
-- Not modelled: the publication and the inspection of directories, Kafka and MLflow and pyarrow
-- calls, command lines, the metrics and the fitting of models, the ages in hours of the feedback
-- monitor, the snapshots of drift and of investigations, the shadow plan and its parity, and the
-- Scala streaming engine (streaming-engine).
pub mod Availability
pub mod Candidates
pub mod Common
pub mod Datasets
pub mod Feedback
pub mod Incremental
pub mod KafkaShadow
pub mod Monitoring
pub mod Reliability
pub mod Training
pub mod Validation
