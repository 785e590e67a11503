-- ===== src/Worker/Retries.antt =====
-- The attempts of a job whose provider stays down (src/ocr_engine/worker/settings.py).
use ocr.Base.{◌≡◌, refl, ap, ◌∙◌, String, true, some, List, [], ◌∷◌, arith}
use ocr.Store.Rows.{is_processable, Document, Db}
use ocr.Store.Documents.{get_document, mark_processing}
use ocr.Pipeline.Outcome.{Exception, raise, provider_transient, transient_job}
use ocr.Pipeline.Analysis.{PipelineCtx}
use ocr.Pipeline.Process.{Moment, World, Ended, returned, raised, process_document}
use ocr.Pipeline.Process.Verdict.{IsWaiting, stages}
use ocr.Pipeline.Process.Transient.{
  started, started_status, get_document-started, process_document-raised, stages-started,
}
use ocr.Worker.{process_document_job, after_attempt, run_job}

pub after_attempt-raised :
    (again : World → Ended × World) (p : Ended × World) (e : Exception)
    → p.0 ≡ raised e
    → after_attempt again p ≡ again p.1
unfolding after_attempt
after_attempt-raised again (returned, w) e h = ground arith
after_attempt-raised again (raised e', w) e h = refl

module _ (ctx : PipelineCtx) where
  -- The job was raised for a retry, and its document waits.
  abbrev pub IsLeft : String → Document → Db → Ended × World → Type 0
  IsLeft m d before ending =
      (ending.0 ≡ raised (transient_job m)) × IsWaiting d.id before ending.1.db

  one_attempt :
      (at : Moment) (d : Document) (w : World) (m : String)
      → get_document d.id w.db ≡ some d
      → is_processable d.status ≡ true
      → stages ctx d ≡ raise (provider_transient m)
      → IsLeft m d w.db (process_document ctx at d.id w)
  unfolding mark_processing
  one_attempt at d w m found p down =
      let (ended, writes) = process_document-raised ctx at d w m found p down in
      (
        ended,
        (
          started at.started d,
          ap (get_document d.id) writes ∙ get_document-started at.started d w.db found,
          started_status at.started d p,
          ap (λ db. db.outbox) writes,
        ),
      )

  -- However many attempts a job has, on a queued or processing document whose stages end in a
  -- transient provider error: it ends raised for a retry, the document is in `processing`, and the
  -- outbox is as it was.
  pub run_job-IsLeft :
      (at : Moment) (more : List Moment) (d : Document) (w : World) (m : String)
      → get_document d.id w.db ≡ some d
      → is_processable d.status ≡ true
      → stages ctx d ≡ raise (provider_transient m)
      → IsLeft m d w.db (run_job ctx at more d.id w)
  unfolding run_job process_document_job mark_processing
  run_job-IsLeft at [] d w m found p down = one_attempt at d w m found p down
  run_job-IsLeft at (next ∷ more) d w m found p down =
      let attempt = process_document ctx at d.id w in
      let (ended, writes) = process_document-raised ctx at d w m found p down in
      let found' = ap (get_document d.id) writes ∙ get_document-started at.started d w.db found in
      let (last, (d', row, waits, out)) =
        run_job-IsLeft next more (started at.started d) attempt.1 m found'
          (ap is_processable (started_status at.started d p)) (stages-started ctx at d ∙ down) in
      rw (after_attempt-raised (run_job ctx next more d.id) attempt (transient_job m) ended)
        (last, (d', row, waits, out ∙ ap (λ db. db.outbox) writes))
