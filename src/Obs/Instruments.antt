-- ===== src/Obs/Instruments.antt =====
-- The instruments of src/ocr_engine/obs/metrics.py, by the names that the dashboards rely on.
use ocr.Base.{String, Option, none, some, List, [], ◌∷◌}

pub data InstrumentKind : Type 0 where
  counter histogram gauge observable_gauge : InstrumentKind

-- Its kind, name, unit and description.
pub record Instrument : Type 0 where
  pub kind : InstrumentKind
  pub name : String
  pub unit : Option String
  pub description : String

abbrev pub rpc_requests : Instrument
rpc_requests = record {
  kind = counter;
  name = "ocr.rpc.requests";
  unit = some "{request}";
  description = "gRPC requests by method and terminal status";
}

abbrev pub rpc_duration : Instrument
rpc_duration = record {
  kind = histogram;
  name = "ocr.rpc.duration";
  unit = some "s";
  description = "gRPC handler duration by method";
}

abbrev pub documents_processed : Instrument
documents_processed = record {
  kind = counter;
  name = "ocr.documents.processed";
  unit = some "{document}";
  description = "Documents reaching a terminal status (completed/needs_review/failed)";
}

abbrev pub documents_failed : Instrument
documents_failed = record {
  kind = counter;
  name = "ocr.documents.failed";
  unit = some "{document}";
  description = "Failed documents by error code";
}

abbrev pub pipeline_duration : Instrument
pipeline_duration = record {
  kind = histogram;
  name = "ocr.pipeline.duration";
  unit = some "s";
  description = "End-to-end processing duration per document";
}

abbrev pub ocr_lines : Instrument
ocr_lines = record {
  kind = histogram;
  name = "ocr.document.lines";
  unit = some "{line}";
  description = "OCR lines read per document";
}

abbrev pub ocr_pages : Instrument
ocr_pages = record {
  kind = counter;
  name = "ocr.provider.pages";
  unit = some "{page}";
  description = "Pages sent to the OCR provider - the daily Baidu quota budget";
}

abbrev pub ocr_provider_duration : Instrument
ocr_provider_duration = record {
  kind = histogram;
  name = "ocr.provider.duration";
  unit = some "s";
  description = "OCR-stage (provider call) duration per document";
}

abbrev pub document_confidence : Instrument
document_confidence = record {
  kind = histogram;
  name = "ocr.document.confidence";
  unit = none;
  description = "Average result confidence per document (0-1)";
}

abbrev pub document_fields : Instrument
document_fields = record {
  kind = counter;
  name = "ocr.document.fields";
  unit = some "{field}";
  description = "Field outcomes per extraction schema field (merchant/date/total/...)";
}

abbrev pub document_size : Instrument
document_size = record {
  kind = histogram;
  name = "ocr.document.size";
  unit = some "By";
  description = "Downloaded document size";
}

abbrev pub queue_wait : Instrument
queue_wait = record {
  kind = histogram;
  name = "ocr.pipeline.queue_wait";
  unit = some "s";
  description = "Time from submit (created_at) to processing start";
}

abbrev pub transient_errors : Instrument
transient_errors = record {
  kind = counter;
  name = "ocr.pipeline.transient_errors";
  unit = some "{error}";
  description = "Transient provider failures - SAQ retries the job";
}

abbrev pub provider_errors : Instrument
provider_errors = record {
  kind = counter;
  name = "ocr.provider.errors";
  unit = some "{error}";
  description = "Provider failures by class (transient/permanent)";
}

abbrev pub outbox_claimed : Instrument
outbox_claimed = record {
  kind = gauge;
  name = "ocr.outbox.claimed";
  unit = some "{event}";
  description = "Outbox rows claimed per publisher poll (saturated at the batch size)";
}

abbrev pub outbox_published : Instrument
outbox_published = record {
  kind = counter;
  name = "ocr.outbox.published";
  unit = some "{event}";
  description = "Outbox events acknowledged by Kafka";
}

abbrev pub outbox_failed : Instrument
outbox_failed = record {
  kind = counter;
  name = "ocr.outbox.publish_failed";
  unit = some "{event}";
  description = "Outbox events whose Kafka delivery failed";
}

abbrev pub process_running : Instrument
process_running = record {
  kind = observable_gauge;
  name = "ocr.process.running";
  unit = none;
  description = "Always 1 while the process lives; absence = process gone";
}

abbrev pub instruments : List Instrument
instruments =
    rpc_requests ∷ rpc_duration ∷ documents_processed ∷ documents_failed ∷ pipeline_duration
    ∷ ocr_lines ∷ ocr_pages ∷ ocr_provider_duration ∷ document_confidence ∷ document_fields
    ∷ document_size ∷ queue_wait ∷ transient_errors ∷ provider_errors ∷ outbox_claimed
    ∷ outbox_published ∷ outbox_failed ∷ process_running ∷ []
