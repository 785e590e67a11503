-- ===== src/Pipeline/Analysis/Statuses.antt =====
-- The stages of `process_document` (src/ocr_engine/pipeline/pipeline.py) end with a status of
-- `build_result` or with an exception.
use ocr.Base.{◌≡◌, refl, ◌⊎◌, Option, none, some, List}
use ocr.Extraction.Schema.{Line}
use ocr.Store.Rows.{Time, Status, completed, needs_review, Document, DocumentResult}
use ocr.Extraction.Extract.{extract_fields}
use ocr.Extraction.Validate.{build_result}
use ocr.Extraction.Validate.Statuses.{HasResultStatus, build_result-status}
use ocr.Pipeline.Outcome.{Outcome, ok, raise, ◌>>=◌, on_raise}
use ocr.Pipeline.Inspect.{Bytes, Inspected, inspect, digitalborn_lines}
use ocr.Pipeline.Download.{Downloaded}
use ocr.Pipeline.Analysis.{
  PipelineCtx, or_value_error, lines_or_ocr, find_schema, extract_and_validate, with_lines,
  with_text_layer, inspected, download_failure, inspect_failure, analyse, run_stages,
}

abbrev pub IsFinal : Outcome (DocumentResult × Status) → Type 0
IsFinal (ok (result, status)) = (status ≡ completed) ⊎ (status ≡ needs_review)
IsFinal (raise e) = Unit {0}

IsFinal-bind :
    {A : Type 0} (m : Outcome A) (f : A → Outcome (DocumentResult × Status))
    → ((a : A) → IsFinal (f a))
    → IsFinal (m >>= f)
IsFinal-bind (ok a) f h = h a
IsFinal-bind (raise e) f h = tt

module _ (ctx : PipelineCtx) where
  IsFinal-or_value_error :
      (o : Option (DocumentResult × Status)) → HasResultStatus o → IsFinal (or_value_error ctx o)
  unfolding or_value_error
  IsFinal-or_value_error none h = tt
  IsFinal-or_value_error (some r) h = h

  with_lines-IsFinal : (doc : Document) (lines : List Line) → IsFinal (with_lines ctx doc lines)
  unfolding with_lines extract_and_validate
  with_lines-IsFinal doc lines =
      IsFinal-bind (find_schema ctx doc) (extract_and_validate ctx doc lines) (λ schema.
        IsFinal-or_value_error
          (build_result ctx.tools.floats schema (extract_fields ctx.tools schema lines))
          (build_result-status ctx.tools.floats schema (extract_fields ctx.tools schema lines)))

  with_text_layer-IsFinal :
      (doc : Document) (content : Bytes) (meta : Inspected) (digital : Option (List Line))
      → IsFinal (with_text_layer ctx doc content meta digital)
  unfolding with_text_layer
  with_text_layer-IsFinal doc content meta digital =
      IsFinal-bind (lines_or_ocr ctx content meta.mime digital) (with_lines ctx doc)
        (with_lines-IsFinal doc)

  inspected-IsFinal :
      (doc : Document) (content : Bytes) (meta : Inspected)
      → IsFinal (inspected ctx doc content meta)
  unfolding inspected
  inspected-IsFinal doc content meta =
      IsFinal-bind (digitalborn_lines ctx.media ctx.settings content)
        (with_text_layer ctx doc content meta) (with_text_layer-IsFinal doc content meta)

  analyse-IsFinal : (doc : Document) (content : Bytes) → IsFinal (analyse ctx doc content)
  unfolding analyse
  analyse-IsFinal doc content =
      IsFinal-bind (on_raise (inspect ctx.media ctx.settings content) inspect_failure)
        (inspected ctx doc content) (inspected-IsFinal doc content)

  pub run_stages-IsFinal : (doc : Document) (file : Downloaded) → IsFinal (run_stages ctx doc file)
  unfolding run_stages
  run_stages-IsFinal doc file =
      IsFinal-bind (on_raise file.result download_failure) (analyse ctx doc) (analyse-IsFinal doc)

  -- The stages read neither the status nor the times of the row.
  pub run_stages-started :
      (doc : Document) (status : Status) (now : Time) (file : Downloaded)
      → run_stages ctx (record doc { status = status; updated_at = now }) file
        ≡ run_stages ctx doc file
  unfolding run_stages analyse inspected with_text_layer with_lines find_schema extract_and_validate
  run_stages-started doc status now file = refl
