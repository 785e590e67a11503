-- ===== src/Pipeline/Process/Transient.antt =====
-- One run of `process_document` (src/ocr_engine/pipeline/pipeline.py) whose provider is down.
use ocr.Base.{◌≡◌, refl, ◌∙◌, true, ◌&&◌, String, some, arith, inl, inr}
use ocr.Base.Tests.{nat_eq, Bool-cases, if◌then◌else◌}
use ocr.Store.Table.Lemmas.{find_row-update_where}
use ocr.Store.Rows.{Time, processing, is_processable, Document, Db}
use ocr.Store.Documents.{has_id, is_queued, get_document, mark_processing}
use ocr.Pipeline.Outcome.{raise, provider_transient, transient_job}
use ocr.Pipeline.Analysis.{PipelineCtx}
use ocr.Pipeline.Analysis.Statuses.{run_stages-started}
use ocr.Pipeline.Process.{
  Moment, World, raised, handle, conclude, process_row, process_found, process_document,
}
use ocr.Pipeline.Process.Verdict.{stages}
use ocr.Pipeline.Process.Terminal.{has_id_refl}

-- The row as the run leaves it.
abbrev pub started : Time → Document → Document
started now d = record d {
  status = if is_queued d.status then processing else d.status;
  updated_at = if is_queued d.status then now else d.updated_at;
}

-- A row that is in `processing` once the run is over.
pub started_status :
    (now : Time) (d : Document)
    → is_processable d.status ≡ true
    → (started now d).status ≡ processing
started_status now d p = ground arith

pub get_document-started :
    (now : Time) (d : Document) (db : Db)
    → get_document d.id db ≡ some d
    → get_document d.id (mark_processing d.id now db) ≡ some (started now d)
unfolding get_document mark_processing
get_document-started now d db found =
    find_row-update_where (has_id d.id) (λ e. has_id d.id e && is_queued e.status)
      (λ e. record e { status = processing; updated_at = now }) (λ e. refl) db.documents d found
    ∙ rw (has_id_refl d)
        (elim (Bool-cases (is_queued d.status)) [ inl e ↦ rw e refl | inr e ↦ rw e refl ])

module _ (ctx : PipelineCtx) (at : Moment) where
  -- Such a run raises for a retry and writes nothing but `mark_processing`.
  pub process_document-raised :
      (d : Document) (w : World) (m : String)
      → get_document d.id w.db ≡ some d
      → is_processable d.status ≡ true
      → stages ctx d ≡ raise (provider_transient m)
      → ((process_document ctx at d.id w).0 ≡ raised (transient_job m))
        × ((process_document ctx at d.id w).1.db ≡ mark_processing d.id at.started w.db)
  unfolding process_document process_found process_row conclude handle
  process_document-raised d w m found p down = rw (found, p, down) (refl, refl)

  pub stages-started : (d : Document) → stages ctx (started at.started d) ≡ stages ctx d
  stages-started d = run_stages-started ctx d _ _ _
