-- ===== src/Pipeline/Process/Verdict.antt =====
-- What a run of `process_document` (src/ocr_engine/pipeline/pipeline.py) comes to, and what each
-- end means for the call, the row and the outbox.
use ocr.Base.{◌≡◌, String, Option, none, some, [], ◌∷◌, ◌++◌}
use ocr.Base.Tests.{nat_eq}
use ocr.Store.Rows.{
  Uuid, Key, uuid_key, text_key, Time, Status, processing, failed, Document, DocumentResult,
  ErrorDict, OutboxEvent, Db,
}
use ocr.Store.Documents.{get_document, type_error}
use ocr.Extraction.Validate.{to_dict}
use ocr.Pipeline.Outcome.{
  Exception, Outcome, ok, raise, document_failed, unsupported_file_type, resource_limit,
  provider_permanent, provider_transient, transient_job,
}
use ocr.Pipeline.Download.{download_to_temp}
use ocr.Pipeline.Analysis.{PipelineCtx, run_stages}
use ocr.Pipeline.Process.{Moment, World, Ended, returned, raised}

-- The error and the data that an event about a row of these columns carries.
abbrev pub error_of : Option String → Option String → Option ErrorDict
error_of (some code) (some message) = some (record { code = code; message = message })
error_of _ _ = none

abbrev pub data_of : Status → Option DocumentResult → Option (Option DocumentResult)
data_of failed result = none
data_of _ result = some result

-- The row carries the outcome, and the outbox one more event, about it, that says the same.
abbrev pub IsConcluded :
    Uuid → Status → Option DocumentResult → Option String → Time → Db → Db → Type 0
IsConcluded i status result error_code now before after =
    (d : Document) × (e : OutboxEvent) × (get_document i after ≡ some d)
    × (after.outbox ≡ before.outbox ++ (e ∷ []))
    × ((d.status ≡ status)
        × (d.result ≡ result)
        × (d.error_code ≡ error_code)
        × (d.processed_at ≡ some now))
    × ((e.aggregate_id ≡ i)
        × (e.published_at ≡ none)
        × (e.next_attempt_at ≡ none)
        × (e.locked_at ≡ none)
        × (e.payload.document_id ≡ i)
        × (e.payload.payload ≡ data_of d.status d.result)
        × (e.payload.error ≡ error_of d.error_code d.error_message))

-- The row waits in `processing`, and no event is written.
abbrev pub IsWaiting : Uuid → Db → Db → Type 0
IsWaiting i before after =
    (d : Document) × (get_document i after ≡ some d)
    × (d.status ≡ processing)
    × (after.outbox ≡ before.outbox)

-- What a run comes to: it ends after an outcome is written, or by an exception and without one.
pub data Verdict : Type 0 where
  concluded : Ended → Status → Option DocumentResult → Option String → Verdict
  left : Exception → Verdict

-- The code that an exception is reported under, and whether it then leaves the run.
abbrev pub verdict_on : Exception → Verdict
verdict_on (provider_transient m) = left (transient_job m)
verdict_on (document_failed code m) = concluded returned failed none (some code)
verdict_on (provider_permanent m) = concluded returned failed none (some "INTERNAL")
verdict_on (unsupported_file_type m) = concluded returned failed none (some "UNSUPPORTED_FILE_TYPE")
verdict_on (resource_limit m) = concluded returned failed none (some "RESOURCE_LIMIT")
verdict_on e = concluded (raised e) failed none (some "INTERNAL")

-- An outcome, a failure as well as a result, cannot be written for a key that is a `uuid.UUID`: the
-- text of its event cannot be made.
abbrev pub settled : Verdict → Key → Verdict
settled (left e) key = left e
settled (concluded end status result error_code) (text_key t) =
    concluded end status result error_code
settled (concluded end status result error_code) (uuid_key i) = left type_error

module _ (ctx : PipelineCtx) where
  abbrev pub verdict : Outcome (DocumentResult × Status) → Verdict
  verdict (ok (result, status)) =
      concluded returned status (some (to_dict ctx.tools.floats result)) none
  verdict (raise e) = verdict_on e

  abbrev pub stages : Document → Outcome (DocumentResult × Status)
  stages doc =
      run_stages ctx doc
        (download_to_temp ctx.storage ctx.settings doc.source_bucket doc.source_path)

module _ (at : Moment) where
  -- What a verdict means for the call, the row and the outbox.
  abbrev pub Ends : Uuid → Verdict → Db → Ended × World → Type 0
  Ends i (concluded end status result error_code) before (ended, after) =
      (ended ≡ end) × IsConcluded i status result error_code at.ended before after.db
  Ends i (left e) before (ended, after) = (ended ≡ raised e) × IsWaiting i before after.db
