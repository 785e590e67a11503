-- ===== src/Api/Request.antt =====
-- The messages of proto/document/v1/document.proto, as src/ocr_engine/api/servicer.py reads and
-- fills them. A field that is not set has its default.
use ocr.Base.{String, Option, List}
use ocr.Base.Int.{ℤ}
use ocr.Base.Float.{Float}
use ocr.Base.Text.{Text}
use ocr.Store.Rows.{Bbox, ErrorDict, Issue}

pub record FileSource : Type 0 where
  pub bucket : String
  pub storage_path : String
  pub size_bytes : ℤ
  pub declared_mime : String

pub record SubmitDocumentRequest : Type 0 where
  pub idempotency_key : String
  pub external_ref : String
  pub schema_id : String
  pub caller_id : String
  pub source : FileSource

pub data DocumentStatus : Type 0 where
  document_status_queued : DocumentStatus
  document_status_processing : DocumentStatus
  document_status_completed : DocumentStatus
  document_status_needs_review : DocumentStatus
  document_status_failed : DocumentStatus

pub data FieldStatusCode : Type 0 where
  field_status_extracted : FieldStatusCode
  field_status_low_confidence : FieldStatusCode
  field_status_missing : FieldStatusCode
  field_status_invalid : FieldStatusCode

pub record FieldMessage : Type 0 where
  pub name : String
  pub status : FieldStatusCode
  pub confidence : Float
  pub value : Text
  pub amount : ℤ
  pub currency : String
  pub bbox : Option Bbox
  pub page : ℤ

pub record ResultMessage : Type 0 where
  pub schema_version : String
  pub avg_confidence : Float
  pub fields : List FieldMessage
  pub issues : List Issue

pub record SubmitDocumentResponse : Type 0 where
  pub document_id : String
  pub status : DocumentStatus

pub record GetDocumentResponse : Type 0 where
  pub document_id : String
  pub status : DocumentStatus
  pub result : Option ResultMessage
  pub error : Option ErrorDict
