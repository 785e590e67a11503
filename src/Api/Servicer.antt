-- ===== src/Api/Servicer.antt =====
-- `DocumentServiceServicer` (src/ocr_engine/api/servicer.py), as functions of what the service
-- keeps.
pub mod Calls
pub mod Submit
pub mod Replay
pub mod Delivered
use ocr.Base.{ℕ, String, ◌<>◌, Bool, true, false, Option, none, some, List, [], ◌∷◌, ◌++◌}
use ocr.Base.Tests.{if◌then◌else◌}
use ocr.Base.Int.{ℤ, ltb_ℤ}
use ocr.Store.Rows.{Uuid, Key, Time, failed, Document, Db}
use ocr.Store.Documents.{
  Submission, submit_document, get_idempotent_document, get_document, mark_processing, Finish,
  finish_document, delete_document,
}
use ocr.Events.Envelope.{build_envelope}
use ocr.Settings.{Settings}
use ocr.Extraction.Schema.{Schemas}
use ocr.Pipeline.Outcome.{Exception, Outcome, ok, raise}
use ocr.Pipeline.Download.{Storage}
use ocr.Pipeline.Analysis.{PipelineCtx}
use ocr.Pipeline.Process.{Moment, World}
use ocr.Api.Request.{
  SubmitDocumentRequest, SubmitDocumentResponse, GetDocumentResponse, document_status_queued,
}
use ocr.Api.Validation.{validate_submit}
use ocr.Api.Response.{response_for}

-- The `grpc.StatusCode`s that the service aborts with, by their names.
pub data StatusCode : Type 0 where
  invalid_argument : StatusCode
  already_exists : StatusCode
  resource_exhausted : StatusCode
  failed_precondition : StatusCode
  unavailable : StatusCode
  not_found : StatusCode
  internal : StatusCode

-- How a call ends: with a response, with `context.abort`, with another exception, or cancelled.
pub data Reply (R : Type 0) : Type 0 where
  response : R → Reply R
  aborted : StatusCode → String → Reply R
  escaped : Exception → Reply R
  cancelled : Reply R

-- The `rpc_grpc_status` of a count in `RPC_REQUESTS`.
pub data RpcStatus : Type 0 where
  ok_status : RpcStatus
  cancelled_status : RpcStatus
  error_status : StatusCode → RpcStatus

-- What the calls read and write: the pipeline's world, the jobs in the queue and the counts of the
-- calls.
pub record Api : Type 0 where
  pub world : World
  pub queue : List Uuid
  pub rpc_requests : List (String × RpcStatus)

-- The servicer's attributes, with `str` of a UUID, `uuid.UUID` of a text, and what the UUID column
-- makes of the text of a key.
pub record Servicer : Type 0 where
  pub settings : Settings
  pub schemas : Schemas
  pub storage : Storage
  pub pipeline_ctx : Option PipelineCtx
  pub uuid_text : Uuid → String
  pub read_uuid : String → Option Uuid
  pub key_column : String → Outcome Key

-- Where the caller gives up during the inline run; in the download, once its file is there.
pub data CancelPoint : Type 0 where
  before_start during_download during_stages after_commit : CancelPoint

-- What a call draws from outside: its method name, generated id, trace and times, the faults of the
-- queue and of the database, what other processes write between its transactions, and when it is
-- cancelled, if at all.
pub record Call : Type 0 where
  pub method : String
  pub document_id : Uuid
  pub trace_id : Option String
  pub now : Time
  pub enqueue_fault : Bool
  pub rollback_fault : Bool
  pub between : Db → Db
  pub moment : Moment
  pub cancel : Option CancelPoint
  pub cancel_fault : Bool
  pub cancel_event_id : Uuid
  pub cancel_event_row : Uuid
  pub cancelled_at : Time

abbrev pub with_db : (Db → Db) → Api → Api
with_db f a = record a { world = record a.world { db = f a.world.db } }

module _ (c : Call) where
  -- `_rpc_done`, without the histogram.
  abbrev pub rpc_done : RpcStatus → Api → Api
  rpc_done status a = record a { rpc_requests = a.rpc_requests ++ ((c.method, status) ∷ []) }

  -- `_abort`
  abbrev pub abort : {R : Type 0} → StatusCode → String → Api → Reply R × Api
  abort code message a = (aborted code message, rpc_done (error_status code) a)

module _ (s : Servicer) (c : Call) where
  abbrev pub submission : SubmitDocumentRequest → Key → Submission
  submission request key = record {
    document_id = c.document_id;
    idempotency_key = key;
    external_ref = request.external_ref;
    schema_id = request.schema_id;
    caller_id = request.caller_id;
    source_bucket = request.source.bucket;
    source_path = request.source.storage_path;
    declared_mime = request.source.declared_mime;
    size_bytes = request.source.size_bytes;
    trace_id = c.trace_id;
  }

  abbrev pub validate : SubmitDocumentRequest → Option String
  validate = validate_submit s.storage s.settings s.schemas

  abbrev reply_of : Outcome GetDocumentResponse → Reply GetDocumentResponse
  reply_of (ok message) = response message
  reply_of (raise e) = escaped e

  -- `_response_for`, or what it raises.
  abbrev pub reply_for : Document → Reply GetDocumentResponse
  reply_for doc = reply_of (response_for (s.uuid_text doc.id) doc)

  abbrev pub respond : Document → Api → Reply GetDocumentResponse × Api
  respond doc a = (reply_for doc, rpc_done c ok_status a)

  -- `_rollback`, which swallows a fault of the database.
  abbrev pub rollback : Api → Api
  rollback a = if c.rollback_fault then a else with_db (delete_document c.document_id) a

  abbrev already : Option Document → Api → Reply SubmitDocumentResponse × Api
  already none a = abort c already_exists "document_id=unknown" a
  already (some doc) a = abort c already_exists ("document_id=" <> s.uuid_text doc.id) a

  abbrev enqueue : Bool → Api → Reply SubmitDocumentResponse × Api
  enqueue true a = abort c resource_exhausted "queue unavailable" (rollback a)
  enqueue false a = (
    response (record { document_id = s.uuid_text c.document_id; status = document_status_queued }),
    rpc_done c ok_status (record a { queue = a.queue ++ (c.document_id ∷ []) }),
  )

  after_submit : Key → Bool × Db → Api → Reply SubmitDocumentResponse × Api
  after_submit key (false, db) a =
      let a' = with_db (λ _. c.between db) a in
      already (get_idempotent_document key (c.between db)) a'
  after_submit key (true, db) a = enqueue c.enqueue_fault (with_db (λ _. db) a)

  submit_key : SubmitDocumentRequest → Outcome Key → Api → Reply SubmitDocumentResponse × Api
  unfolding after_submit
  submit_key request (raise e) a = (escaped e, a)
  submit_key request (ok key) a =
      after_submit key (submit_document (submission request key) c.now a.world.db) a

  submit_valid : SubmitDocumentRequest → Option String → Api → Reply SubmitDocumentResponse × Api
  unfolding submit_key
  submit_valid request (some message) a = abort c invalid_argument message a
  submit_valid request none a = submit_key request (s.key_column request.idempotency_key) a

  -- `SubmitDocument`
  unfoldable pub handle_submit : SubmitDocumentRequest → Api → Reply SubmitDocumentResponse × Api
  unfolding submit_valid
  handle_submit request a = submit_valid request (validate request) a

  respond_found : StatusCode → String → Option Document → Api → Reply GetDocumentResponse × Api
  respond_found code message none a = abort c code message a
  respond_found code message (some doc) a = respond doc a

  get_by : Option Uuid → Api → Reply GetDocumentResponse × Api
  unfolding respond_found
  get_by none a = abort c invalid_argument "document_id is not a UUID" a
  get_by (some i) a = respond_found not_found "document not found" (get_document i a.world.db) a

  -- `GetDocument`, of a request's `document_id`.
  unfoldable pub handle_get : String → Api → Reply GetDocumentResponse × Api
  unfolding get_by
  handle_get text a = get_by (s.read_uuid text) a
