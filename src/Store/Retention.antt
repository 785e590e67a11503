-- ===== src/Store/Retention.antt =====
-- The retention sweep reads only `processed_at` (`list_expired_documents` and
-- `purge_document_results` of src/ocr_engine/repo/store.py).
use ocr.Base.{◌≤◌, ◌≡◌, refl, ap, ◌∙◌, ◌&&◌, List, map, arith}
use ocr.Base.Tests.{ltb, nat_eq}
use ocr.Base.Lists.{length, keep, contains}
use ocr.Store.Table.{sort_by}
use ocr.Store.Table.Lemmas.{length-sort_by}
use ocr.Store.Table.Sorting.{take-append_of_le, selection-update_where, sort_by-split}
use ocr.Store.Rows.{Uuid, Time, Document, Db}
use ocr.Store.Documents.{
  is_expired, processed_key, expiry_limit, document_id, list_expired_documents, purge_row,
  purge_document_results,
}

-- Purging leaves what the sweep selects as it was.
list_expired_documents-purge :
    (older_than now : Time) (ids : List Uuid) (db : Db)
    → list_expired_documents older_than (purge_document_results ids now db)
      ≡ list_expired_documents older_than db
unfolding list_expired_documents purge_document_results
list_expired_documents-purge older_than now ids db =
    selection-update_where processed_key (is_expired older_than) (λ d. contains ids d.id)
      (purge_row now) document_id (λ d. refl) (λ d. refl) (λ d. refl) expiry_limit db.documents

is_expired-split :
    (first later : Time)
    → first ≤ later
    → (d : Document) → is_expired first d ≡ (is_expired later d && ltb (processed_key d) first)
is_expired-split first later h d = ground arith

-- A later cutoff selects the same rows when the earlier one fills the limit.
list_expired_documents-later :
    (first later : Time) (db : Db)
    → first ≤ later
    → expiry_limit ≤ length (keep (is_expired first) db.documents)
    → list_expired_documents later db ≡ list_expired_documents first db
unfolding list_expired_documents
list_expired_documents-later first later db h full =
    rw
      (sort_by-split processed_key (is_expired first) (is_expired later) first
        (is_expired-split first later h) db.documents)
      (ap (map document_id) (
        take-append_of_le expiry_limit
          (sort_by processed_key (keep (is_expired first) db.documents)) _
          (omega (arith, length-sort_by processed_key (keep (is_expired first) db.documents)))))

-- If 100 documents have expired at a sweep, then a later sweep, over the rows that the first has
-- purged, selects exactly the documents that the first selected.
pub list_expired_documents-starved :
    (first later now : Time) (db : Db)
    → first ≤ later
    → expiry_limit ≤ length (keep (is_expired first) db.documents)
    → list_expired_documents later (purge_document_results (list_expired_documents first db) now db)
      ≡ list_expired_documents first db
list_expired_documents-starved first later now db h full =
    list_expired_documents-purge later now (list_expired_documents first db) db
    ∙ list_expired_documents-later first later db h full
