-- ===== src/Store/Lookup.antt =====
-- Lookups of `documents` by the id (src/ocr_engine/repo/store.py).
use ocr.Base.{◌≡◌, some}
use ocr.Base.Tests.{nat_eq, nat_beq_iff}
use ocr.Store.Table.Lemmas.{find_row_sound}
use ocr.Store.Rows.{Uuid, Document, Db}
use ocr.Store.Documents.{has_id, get_document}

-- A row that is found has the id that it was looked up by.
pub get_document-id :
    (i : Uuid) (db : Db) (doc : Document) → get_document i db ≡ some doc → doc.id ≡ i
unfolding get_document
get_document-id i db doc found =
    (nat_beq_iff doc.id i).0 (find_row_sound (has_id i) db.documents doc found)
