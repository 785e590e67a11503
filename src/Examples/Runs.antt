-- ===== src/Examples/Runs.antt =====
-- The theorems on extraction and on the pipeline, on a small receipt.
use ocr.Base.{◌≡◌, refl, ◌↔◌, String, Bool, true, false, inr, none, some, [], ◌∷◌, map, arith}
use ocr.Base.Tests.{nat_eq, string_eq, if◌then◌else◌}
use ocr.Base.Int.{pos, ltb_ℤ}
use ocr.Base.Lists.{Pairs, length}
use ocr.Base.Text.{codes, strip}
use ocr.Base.Regex.{search_re}
use ocr.Extraction.Money.{parse_money}
use ocr.Store.Rows.{completed, needs_review, DocumentResult}
use ocr.Store.Documents.{get_document}
use ocr.Extraction.Extract.{ExtractedField, extract_fields}
use ocr.Extraction.Extract.Provenance.{Occurs, Outcome as FieldOutcome, extract_fields-Pairs}
use ocr.Extraction.Validate.{build_result}
use ocr.Extraction.Validate.Outcome.{
  all_pass, dict_key, issue_key, verdicts, complaints, build_result_lem,
}
use ocr.Pipeline.Outcome.{ok, raise, value_error, transient_job}
use ocr.Pipeline.Inspect.{png, sniff, inspect, digitalborn_lines, downscale_if_needed}
use ocr.Pipeline.Inspect.Signatures.{signatures, fits_any}
use ocr.Pipeline.Inspect.Sniff.{sniff_iff}
use ocr.Pipeline.Download.{no_such_key, too_large, validate_ref, download_to_temp}
use ocr.Pipeline.Download.Limit.{contents, download_to_temp_lem, download_to_temp_refuses}
use ocr.Pipeline.Analysis.{run_stages}
use ocr.Pipeline.Process.{returned, process_document}
use ocr.Pipeline.Process.Verdict.{Verdict, concluded, left, settled, verdict, Ends, stages}
use ocr.Pipeline.Process.Terminal.{process_document-Ends}
use ocr.Examples.Installation.{
  floats, percent, settings, storage, png_image, total_line, reading, down, receipt, tools,
  ctx_with, quiet,
}
use ocr.Examples.Data.{column_key, document, world_of, queued_db, declared, declared_db}

extract_fields-Pairs_example :
    Pairs
      (FieldOutcome tools (λ l. Occurs l (total_line ∷ [])))
      receipt.fields
      (extract_fields tools receipt (total_line ∷ []))
extract_fields-Pairs_example = extract_fields-Pairs tools receipt (total_line ∷ [])

abbrev total_read : ExtractedField
total_read = record {
  name = "total";
  value = some (codes "27800");
  amount = some (pos 27800);
  currency = some "IDR";
  confidence = percent 80;
  source_line = some total_line;
}

build_result_lem_example :
    (r : DocumentResult) × (build_result floats receipt (total_read ∷ [])
      ≡ some
          (r, if all_pass floats receipt.fields (total_read ∷ []) then completed else needs_review))
    × (map (dict_key floats) r.fields ≡ verdicts floats receipt.fields (total_read ∷ []))
    × (map (issue_key floats) r.issues ≡ complaints floats receipt.fields (total_read ∷ []))
build_result_lem_example = build_result_lem floats receipt (total_read ∷ []) refl

sniff_iff_example : (sniff png_image ≡ some png) ↔ (fits_any (signatures png) png_image ≡ true)
sniff_iff_example = sniff_iff png_image png

download_to_temp_lem_example : download_to_temp storage settings "receipts" "a.png" ≡ (
    if ltb_ℤ settings.max_file_bytes (pos (length (contents (png_image ∷ []))))
    then record { result = raise (too_large storage settings); left_files = 0 }
    else record { result = ok (contents (png_image ∷ [])); left_files = 1 })
unfolding validate_ref
download_to_temp_lem_example =
    download_to_temp_lem storage settings "receipts" "a.png" (png_image ∷ []) (omega arith) refl
      refl

download_to_temp_refuses_example :
    (message : String) × (download_to_temp
        (record storage { get_object = λ kwargs b p. no_such_key })
        settings
        "receipts"
        "x/../y"
      ≡ record { result = raise (value_error message); left_files = 0 })
download_to_temp_refuses_example =
    download_to_temp_refuses storage settings "receipts" "x/../y" (λ kwargs b p. no_such_key)
      (inr refl)

process_document-Ends_example :
    Ends quiet 1
      (settled (verdict (ctx_with reading) (stages (ctx_with reading) document)) column_key)
      queued_db
      (process_document (ctx_with reading) quiet 1 (world_of queued_db))
unfolding get_document
process_document-Ends_example =
    process_document-Ends (ctx_with reading) quiet document (world_of queued_db) refl refl refl refl

-- The same on a row whose key is a text.
declared_outcome :
    Ends quiet 1
      (verdict (ctx_with reading) (stages (ctx_with reading) declared))
      declared_db
      (process_document (ctx_with reading) quiet 1 (world_of declared_db))
unfolding get_document run_stages download_to_temp inspect digitalborn_lines downscale_if_needed
    build_result extract_fields search_re strip parse_money
declared_outcome =
    process_document-Ends (ctx_with reading) quiet declared (world_of declared_db) refl refl refl
      refl

-- What the stages make of the image: the total, which passes its threshold.
reading_result : Verdict → Bool
reading_result (concluded returned completed (some r) none) = true
reading_result _ = false

receipt_completed :
    reading_result (verdict (ctx_with reading) (stages (ctx_with reading) document)) ≡ true
unfolding reading_result run_stages download_to_temp inspect digitalborn_lines downscale_if_needed
    build_result extract_fields search_re strip parse_money
receipt_completed = refl

down_retried :
    verdict (ctx_with down) (stages (ctx_with down) document) ≡ left (transient_job "503")
unfolding run_stages download_to_temp inspect digitalborn_lines downscale_if_needed
down_retried = refl
