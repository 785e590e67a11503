-- ===== src/Lib.antt =====
-- ocr: the OCR engine service (Kontrak B). A gRPC service takes documents, a worker runs each one
-- through download, inspection, OCR, extraction and validation, and an outbox publisher hands the
-- outcome to Kafka. This library models the program's own logic and proves how it behaves.
--
-- Parts, and how they interact.
--   Store (src/ocr_engine/repo/store.py, migrations/versions): `Store.Rows` has the rows of
--   `documents` and `outbox_events` and the JSON values in them, `Db` both tables in the order of
--   insertion. `Store.Documents` and `Store.Outbox` have one function for each method of `Store`
--   (submit_document, get_document, mark_processing, finish_document, claim_pending_outbox, ...)
--   and for the DELETE of the servicer's `_rollback`; the time of a statement and the ids that the
--   database generates are arguments. `Store.Steps` is the relation of all writes, with what is
--   reached by them; `Store.Finish`, `Store.Submit` with `Store.Submit.Again`, `Store.Retention`,
--   `Store.Outbox.Claims`, `Store.Outbox.Handover`, `Store.Outbox.Settled` and `Store.Atomicity`
--   have the proofs, `Store.Table` the SQL on lists of rows.
--   Events (src/ocr_engine/events): `Events.Envelope` is build_envelope, `Events.Publisher` the
--   OutboxPublisher (poll_once, run, _headers, _on_delivery) over a Kafka that is an argument.
--   Extraction (src/ocr_engine/extraction, ocr/base.py): `Extraction.Schema` the loaded values,
--   `Extraction.Loader` Matcher with its validators, `Extraction.Loader.Files` load_schemas,
--   `Extraction.Layout` the order and the geometry of lines, `Extraction.Extract` the matchers of
--   extract_fields, `Extraction.Money` parse_money and format_money, `Extraction.Validate`
--   build_result and to_dict.
--   Pipeline (src/ocr_engine/pipeline): `Pipeline.Inspect` (inspect_file.py), `Pipeline.Download`
--   (download.py), `Pipeline.Analysis` the stages of process_document that touch no table and
--   `Pipeline.Process` process_document with its handlers, _fail and the `finally`, as a function
--   from a world (database, temporary files on disk, counters) to a world and how the call ended.
--   Api (src/ocr_engine/api/servicer.py): `Api.Validation` is _validate_submit, `Api.Response`
--   _response_for and _fill_result, `Api.Servicer` SubmitDocument and GetDocument, and
--   `Api.Servicer.Calls` ProcessDocument and _mark_cancelled. The calls write the same tables, and
--   ProcessDocument runs the pipeline inline; a `Call` holds what a call draws from outside: its
--   ids and times, the faults of queue and database, what other processes write between its
--   transactions, and the point at which it is cancelled.
--   Ocr (src/ocr_engine/ocr): `Ocr.Json` has the values of a JSON body, `Ocr.Baidu` what
--   _extract_sync makes of a response, and normalize_layout_parsing; `Ocr.Baidu.Requests` the
--   requests of BaiduProvider, `Ocr.Baidu.Jobs` _submit_async_job, _poll_async_job and
--   _extract_async, `Ocr.Baidu.Provider` extract_lines and build_provider (registry.py). How each
--   request ends and the readings of the loop's clock are the argument `Client`.
--   Worker (src/ocr_engine/worker/settings.py): `Worker` has the job with its attempts, and
--   cleanup_expired_results.
--   Settings (src/ocr_engine/settings.py): the fields, the validator and ocr_semaphore.
--   Obs (src/ocr_engine/obs): `Obs.Logging` is configure_logging and _inject_trace, `Obs.Exporters`
--   setup_tracing and setup_metrics, `Obs.Instruments` the instruments.
--   Startup (src/ocr_engine/api/server.py, worker/settings.py, cli): `Startup` is serve with its
--   stop, _startup and _shutdown, as functions on what a process holds; `Startup.Main` the `main`
--   of each of the three. They load the schemas and build the provider.
--   Base has what the parts share: Boolean tests, lists over native numbers, Python's integers,
--   texts as code points, the regular expressions of `re`, and the components of a path.
--   `Events.Publisher.Committed` joins the store with the publisher, and `Api.Servicer.Delivered`
--   a submission with its job. Examples runs the definitions on a small receipt.
--
-- Choices.
--   A UUID is the number that it is, and its text form is not told apart from it, but for the
--   idempotency key of a row: a `Key` is a `uuid.UUID`, which asyncpg gives for the UUID column, or
--   a `str`, which DocumentRow declares, and `json.dumps` raises a `TypeError` at the former. What
--   the column makes of the text of a request's key is the argument `key_column`. A time is in
--   microseconds. A float is its 64 bits, and arithmetic on floats is the argument `FloatOps`. A
--   JSON column gives back the value that was written. Each query or transaction is one step; ORDER
--   BY keeps the order of insertion among equals. Exceptions are the values of
--   `Pipeline.Outcome.Exception`, with one constructor for any that the code does not name.
--   Outside code is an argument: the S3 client, Kafka, PyMuPDF, Pillow, rapidfuzz, dateparser,
--   the OCR provider, SAQ's Worker, `str.lower`, `repr` and `str` of an int. The storage's answer
--   says where a read of the body fails, and whether the exit of its client and `unlink` fail.
--   The matcher of regular expressions runs a repetition on fuel, one more than the characters
--   left; each round must consume a character, so the fuel never ends first. The polling loop of
--   `Ocr.Baidu.Jobs` has as many rounds as the timeout has intervals, and two: a clock that each
--   sleep moves by an interval is past the deadline in the last of them. All other loops are
--   structural recursion. The publisher's `run` is a list of ticks.
--
-- Not modelled: the lines that are logged, spans and histograms; the semaphore, which changes no
-- result; the queue, of which a job's attempts are a list; pydantic's and protobuf's type
-- checks, and the lengths of text columns; a cancellation of SubmitDocument while it
-- queues, and a job that is queued although the queue raised; a read of the temporary file that
-- fails, and its suffix; the lines of `stop` behind `server.grace`, which are never reached.
pub mod Base
pub mod Settings
pub mod Store
pub mod Events
pub mod Extraction
pub mod Pipeline
pub mod Ocr
pub mod Api
pub mod Worker
pub mod Obs
pub mod Startup
mod Examples
