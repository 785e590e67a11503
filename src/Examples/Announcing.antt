-- ===== src/Examples/Announcing.antt =====
-- A submission with its job, and a committed outcome with the tick of the publisher that follows it.
use ocr.Base.{refl, arith}
use ocr.Base.Tests.{nat_eq}
use ocr.Store.Rows.{Db}
use ocr.Store.Documents.{finish_document}
use ocr.Store.Finish.{finished}
use ocr.Store.Outbox.{claim_pending_outbox, select_pending}
use ocr.Events.Publisher.{poll_once}
use ocr.Events.Publisher.Committed.{IsAnnounced, finish_document-poll_once}
use ocr.Examples.Stores.{outcome}
use ocr.Examples.Data.{queued_db, losing}

abbrev committed_db : Db
committed_db = finished 1 outcome 71 20 queued_db

finish_document-poll_once_example :
    IsAnnounced 1 outcome
      (poll_once losing "document.processed" (λ i. 90) "w" 100 80 committed_db).sent
unfolding finish_document poll_once claim_pending_outbox select_pending
finish_document-poll_once_example =
    finish_document-poll_once losing "document.processed" (λ i. 90) "w" 100 80 1 outcome 71 20 1
      queued_db committed_db refl (omega arith) refl
