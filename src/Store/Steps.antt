-- ===== src/Store/Steps.antt =====
-- Every way in which the processes change the database: one constructor for each operation of
-- `Store` that writes, and for the DELETE of the servicer's `_rollback`.
use ocr.Base.{ℕ, ◌≡◌, String, Bool, true, false, List}
use ocr.Base.Tests.{◌==◌, nat_eq}
use ocr.Store.Table.{any_row}
use ocr.Store.Rows.{Uuid, Time, is_terminal, OutboxEvent, Db}
use ocr.Store.Documents.{
  Submission, submit_document, mark_processing, Finish, finish_document, committed, delete_document,
  purge_document_results,
}
use ocr.Store.Outbox.{
  claim_pending_outbox, mark_published, defer_outbox_event, reclaim_abandoned_outbox,
}

-- The event is about the document.
abbrev pub is_about : Uuid → OutboxEvent → Bool
is_about i e = e.aggregate_id == i

-- A submitted id is a fresh `uuid4`, so no event carries it; and `finish_document` is called with
-- an outcome, by pipeline.py and servicer.py alike.
pub data StoreStep (db : Db) : Db → Type 0 where
  submit :
      (s : Submission) (now : Time)
      → any_row (is_about s.document_id) db.outbox ≡ false
      → StoreStep db (submit_document s now db).1
  start : (i : Uuid) (now : Time) → StoreStep db (mark_processing i now db)
  finish :
      (i : Uuid) (f : Finish) (event_row : Uuid) (now : Time)
      → is_terminal f.status ≡ true
      → StoreStep db (committed (finish_document i f event_row now db) db)
  roll_back : (i : Uuid) → StoreStep db (delete_document i db)
  purge : (ids : List Uuid) (now : Time) → StoreStep db (purge_document_results ids now db)
  claim :
      (worker : String) (batch : ℕ) (now : Time)
      → StoreStep db (claim_pending_outbox worker batch now db).1
  publish : (i : Uuid) (now : Time) → StoreStep db (mark_published i now db)
  defer :
      (i : Uuid) (error : String) (now : Time) → StoreStep db (defer_outbox_event i error now db)
  reclaim : (older_than : Time) → StoreStep db (reclaim_abandoned_outbox older_than db).1

pub data StoreReach (db : Db) : Db → Type 0 where
  here : StoreReach db db
  next : {t u : Db} → StoreReach db t → StoreStep t u → StoreReach db u
