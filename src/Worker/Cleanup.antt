-- ===== src/Worker/Cleanup.antt =====
-- Which results `cleanup_expired_results` (src/ocr_engine/worker/settings.py) purges.
use ocr.Base.{
  ℕ, zero, suc, ◌-◌, ◌≤◌, ◌≡◌, refl, ap, ◌∙◌, Bool, ◌&&◌, none, some, List, [], ◌∷◌, map, arith,
}
use ocr.Base.Tests.{nat_eq, if◌then◌else◌}
use ocr.Base.Lists.{length, take, keep, contains}
use ocr.Store.Table.{any_row, sort_by}
use ocr.Store.Table.Lemmas.{any_row-sort_by, length-sort_by, find_row-update_where}
use ocr.Store.Lookup.{get_document-id}
use ocr.Store.Rows.{Uuid, Time, Document, Db}
use ocr.Store.Documents.{
  has_id, get_document, is_expired, processed_key, expiry_limit, document_id,
  list_expired_documents, purge_row, purge_document_results,
}
use ocr.Worker.{result_retention, purge_some, cleanup_expired_results}

-- An expired document has this id.
abbrev pub is_expired_with : Time → Uuid → Document → Bool
is_expired_with older_than i d = has_id i d && is_expired older_than d

contains-document_id :
    (i : Uuid) (docs : List Document) → contains (map document_id docs) i ≡ any_row (has_id i) docs
contains-document_id i [] = refl
contains-document_id i (d ∷ docs) = ground (arith, contains-document_id i docs)

any_row-keep :
    (older_than : Time) (i : Uuid) (docs : List Document)
    → any_row (has_id i) (keep (is_expired older_than) docs)
      ≡ any_row (is_expired_with older_than i) docs
any_row-keep older_than i [] = refl
any_row-keep older_than i (d ∷ docs) = ground (arith, any_row-keep older_than i docs)

take_all : (n : ℕ) (docs : List Document) → length docs ≤ n → take n docs ≡ docs
take_all zero [] h = refl
take_all zero (d ∷ docs) h = absurd (omega arith)
take_all (suc n) [] h = refl
take_all (suc n) (d ∷ docs) h = ap (λ l. d ∷ l) (take_all n docs (omega arith))

-- Within the limit of a sweep, the ids that it lists are those of the expired documents.
contains-list_expired_documents :
    (older_than : Time) (i : Uuid) (db : Db)
    → length (keep (is_expired older_than) db.documents) ≤ expiry_limit
    → contains (list_expired_documents older_than db) i
      ≡ any_row (is_expired_with older_than i) db.documents
unfolding list_expired_documents
contains-list_expired_documents older_than i db h =
    contains-document_id i _
    ∙ ap (any_row (has_id i)) (
        take_all expiry_limit (sort_by processed_key (keep (is_expired older_than) db.documents))
          (omega (arith, length-sort_by processed_key (keep (is_expired older_than) db.documents))))
    ∙ any_row-sort_by (has_id i) processed_key (keep (is_expired older_than) db.documents)
    ∙ any_row-keep older_than i db.documents

-- Purging nothing is no exception to what purging does.
get_document-purge_some :
    (ids : List Uuid) (now : Time) (i : Uuid) (d : Document) (db : Db)
    → get_document i db ≡ some d
    → get_document i (purge_some ids now db)
      ≡ some (if contains ids d.id then purge_row now d else d)
unfolding get_document purge_document_results
get_document-purge_some [] now i d db found = found
get_document-purge_some (j ∷ ids) now i d db found =
    find_row-update_where (has_id i) (λ e. contains (j ∷ ids) e.id) (purge_row now) (λ e. refl)
      db.documents d found

-- When at most 100 documents have expired, the clean-up drops the result and the error message of a
-- document exactly if an expired one, processed more than a day ago, has its id, and changes
-- nothing else of it than its `updated_at`.
pub cleanup_expired_results_lem :
    (now : Time) (i : Uuid) (d : Document) (db : Db)
    → length (keep (is_expired (now - result_retention)) db.documents) ≤ expiry_limit
    → get_document i db ≡ some d
    → get_document i (cleanup_expired_results now db)
      ≡ some (
          if any_row (is_expired_with (now - result_retention) i) db.documents
          then record d { result = none; error_message = none; updated_at = now }
          else d)
unfolding cleanup_expired_results
cleanup_expired_results_lem now i d db few found =
    let older_than = now - result_retention in
    let ids = list_expired_documents older_than db in
    get_document-purge_some ids now i d db found
    ∙ ap (λ b. some (if b then purge_row now d else d))
        (ap (contains ids) (get_document-id i db d found)
          ∙ contains-list_expired_documents older_than i db few)
