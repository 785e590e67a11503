-- ===== src/Pipeline/Analysis.antt =====
-- The stages of `process_document` (src/ocr_engine/pipeline/pipeline.py) that touch no table:
-- download, inspection, text layer or OCR, extraction and validation.
pub mod Statuses
use ocr.Base.{String, ◌<>◌, Bool, true, false, Option, none, some, List, [], ◌∷◌, ◌++◌}
use ocr.Base.Tests.{if◌then◌else◌}
use ocr.Store.Rows.{Status, Document, DocumentResult}
use ocr.Settings.{Settings}
use ocr.Extraction.Schema.{Line, Schema, Schemas, get_schema}
use ocr.Extraction.Extract.{Tools, ExtractedField, extract_fields}
use ocr.Extraction.Validate.{build_result}
use ocr.Pipeline.Outcome.{
  Exception, Outcome, ok, raise, ◌>>=◌, on_raise, document_failed, storage_object_missing,
  value_error, unsupported_file_type, resource_limit,
}
use ocr.Pipeline.Inspect.{
  Bytes, Mime, pdf, jpeg, is_pdf, Media, Inspected, inspect, digitalborn_lines, downscale_if_needed,
  pdf_page_images,
}
use ocr.Pipeline.Download.{Storage, Downloaded, download_to_temp}

-- `OcrProvider.extract_lines`
abbrev pub OcrProvider : Type 0
OcrProvider = Bytes → Mime → Outcome (List Line)

-- The `ctx` of a job. The semaphore orders calls and changes no result.
pub record PipelineCtx : Type 0 where
  pub settings : Settings
  pub schemas : Schemas
  pub provider : OcrProvider
  pub tools : Tools
  pub media : Media
  pub storage : Storage

-- The two handlers of the download.
abbrev pub download_failure : Exception → Exception
download_failure (storage_object_missing m) = document_failed "STORAGE_OBJECT_MISSING" m
download_failure (value_error m) = document_failed "RESOURCE_LIMIT" m
download_failure e = e

-- `_inspect`
abbrev pub inspect_failure : Exception → Exception
inspect_failure (unsupported_file_type m) = document_failed "UNSUPPORTED_FILE_TYPE" m
inspect_failure (resource_limit m) = document_failed "RESOURCE_LIMIT" m
inspect_failure e = e

module _ (ctx : PipelineCtx) where
  -- The loop over the page images.
  unfoldable pub lines_of_images : List Bytes → Outcome (List Line)
  lines_of_images [] = ok []
  lines_of_images (image ∷ images) =
      ctx.provider image jpeg >>= λ lines. lines_of_images images >>= λ more. ok (lines ++ more)

  -- `_ocr_lines`, without the count of pages.
  unfoldable pub ocr_lines : Bytes → Mime → Outcome (List Line)
  unfolding lines_of_images
  ocr_lines content mime =
      if is_pdf mime
      then (pdf_page_images ctx.media ctx.settings content >>= lines_of_images)
      else (downscale_if_needed ctx.media ctx.settings content >>= λ image. ctx.provider image mime)

  lines_or_ocr : Bytes → Mime → Option (List Line) → Outcome (List Line)
  unfolding ocr_lines
  lines_or_ocr content mime (some lines) = ok lines
  lines_or_ocr content mime none = ocr_lines content mime

  find_schema : Document → Outcome Schema
  find_schema doc = elim (get_schema ctx.schemas doc.doc_type) [
    | some schema ↦ ok schema
    | none ↦
        raise (
          document_failed "INTERNAL"
            ("schema " <> (ctx.storage.repr doc.doc_type <> " not loaded")))
  ]

  -- `zip(…, strict=True)` of lists that differ in length is a `ValueError`.
  or_value_error : Option (DocumentResult × Status) → Outcome (DocumentResult × Status)
  or_value_error (some r) = ok r
  or_value_error none = raise (value_error "zip() arguments differ in length")

  extract_and_validate : Document → List Line → Schema → Outcome (DocumentResult × Status)
  unfolding or_value_error
  extract_and_validate doc lines schema =
      or_value_error (build_result ctx.tools.floats schema (extract_fields ctx.tools schema lines))

  with_lines : Document → List Line → Outcome (DocumentResult × Status)
  unfolding find_schema extract_and_validate
  with_lines doc lines = find_schema doc >>= extract_and_validate doc lines

  with_text_layer :
      Document → Bytes → Inspected → Option (List Line) → Outcome (DocumentResult × Status)
  unfolding lines_or_ocr with_lines
  with_text_layer doc content meta digital =
      lines_or_ocr content meta.mime digital >>= with_lines doc

  inspected : Document → Bytes → Inspected → Outcome (DocumentResult × Status)
  unfolding with_text_layer
  inspected doc content meta =
      digitalborn_lines ctx.media ctx.settings content >>= with_text_layer doc content meta

  -- What follows the download.
  unfoldable pub analyse : Document → Bytes → Outcome (DocumentResult × Status)
  unfolding inspected
  analyse doc content =
      on_raise (inspect ctx.media ctx.settings content) inspect_failure >>= inspected doc content

  -- The `try` block up to `finish_document`.
  unfoldable pub run_stages : Document → Downloaded → Outcome (DocumentResult × Status)
  unfolding analyse
  run_stages doc file = on_raise file.result download_failure >>= analyse doc
