-- ===== src/Api/Servicer/Delivered.antt =====
-- From `SubmitDocument` (src/ocr_engine/api/servicer.py) to the attempts of its job
-- (worker/settings.py).
use ocr.Base.{◌≡◌, ap, ◌∙◌, true, some, List, [], ◌∷◌}
use ocr.Store.Rows.{Uuid, uuid_key, is_processable, Document, Db}
use ocr.Store.Documents.{get_document, mark_processing}
use ocr.Pipeline.Outcome.{Exception}
use ocr.Pipeline.Analysis.{PipelineCtx}
use ocr.Pipeline.Process.{Moment, World, Ended, raised, process_document}
use ocr.Pipeline.Process.Verdict.{IsWaiting}
use ocr.Pipeline.Process.Stuck.{process_document-IsRaised}
use ocr.Pipeline.Process.Transient.{started, started_status, get_document-started}
use ocr.Worker.{process_document_job, run_job}
use ocr.Worker.Retries.{after_attempt-raised}
use ocr.Api.Servicer.{Api, Servicer}

-- The job was raised, its document waits, and no event has been written.
abbrev pub IsStuck : Uuid → Db → Ended × World → Type 0
IsStuck i before ending = ((e : Exception) × (ending.0 ≡ raised e)) × IsWaiting i before ending.1.db

module _ (ctx : PipelineCtx) where
  one_attempt-IsStuck :
      (at : Moment) (doc : Document) (k : Uuid) (w : World)
      → doc.idempotency_key ≡ uuid_key k
      → get_document doc.id w.db ≡ some doc
      → is_processable doc.status ≡ true
      → IsStuck doc.id w.db (process_document ctx at doc.id w)
  unfolding mark_processing
  one_attempt-IsStuck at doc k w key found p =
      let (e, ended, writes) = process_document-IsRaised ctx at doc k key w found p in
      (
        (e, ended),
        (
          started at.started doc,
          ap (get_document doc.id) writes ∙ get_document-started at.started doc w.db found,
          started_status at.started doc p,
          ap (λ db. db.outbox) writes,
        ),
      )

  -- However many attempts the job of such a document has.
  pub run_job-IsStuck :
      (at : Moment) (more : List Moment) (doc : Document) (k : Uuid) (w : World)
      → doc.idempotency_key ≡ uuid_key k
      → get_document doc.id w.db ≡ some doc
      → is_processable doc.status ≡ true
      → IsStuck doc.id w.db (run_job ctx at more doc.id w)
  unfolding run_job process_document_job mark_processing
  run_job-IsStuck at [] doc k w key found p = one_attempt-IsStuck at doc k w key found p
  run_job-IsStuck at (next ∷ more) doc k w key found p =
      let first = process_document ctx at doc.id w in
      let (e, ended, writes) = process_document-IsRaised ctx at doc k key w found p in
      let (stuck, (d, found', waits, same)) =
        run_job-IsStuck next more (started at.started doc) k first.1 key
          (ap (get_document doc.id) writes ∙ get_document-started at.started doc w.db found)
          (ap is_processable (started_status at.started doc p)) in
      rw (after_attempt-raised (run_job ctx next more doc.id) first e ended)
        (stuck, (d, found', waits, same ∙ ap (λ db. db.outbox) writes))
