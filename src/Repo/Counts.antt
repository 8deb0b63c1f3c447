-- ===== src/Repo/Counts.antt =====
-- app/db/repo.py: the counts of a set and the status derived from them.
use rag_ingestion_service.Models.{
  DocumentStatus, Document, Db, pending, processing, success, failed,
}
use rag_ingestion_service.Prelude.{
  ◌∙◌, All, Bool, List, [], arith, contains, contains-append, false, if_ind, if◌then◌else◌,
  is_empty, length, ltb, map, nat_eq, not, option_eq, refl, sym, text_eq, true, ℕ, ◌&&◌, ◌++◌, ◌+◌,
  ◌==◌, ◌∷◌, ◌≡◌,
}
use rag_ingestion_service.Prelude.Filter.{filter, any, count, sum_of}
use mathlib.Core.List.{append_assoc}
use rag_ingestion_service.Repo.{
  DocumentCounts, RagStatus, no_counts, status_of, is_success, is_failed, is_pending, documents_of,
  aggregate, counts_for, distinct_ids, grouped, get_counts, counts_for_many, empty, ready,
  ingesting, all_failed,
}

status_split :
    (rows : List Document)
    → count (λ d. is_success d.status) rows
        + count (λ d. is_failed d.status) rows
        + count (λ d. is_pending d.status) rows
      ≡ length rows
unfolding count filter
status_split [] = refl
status_split (d ∷ rows) = ground (arith, status_split rows)

-- Every document of a set is counted as ready, failed or pending, and as one of them only.
pub counts_for_total :
    (db : Db) (rag_id : ℕ)
    → let c = counts_for db rag_id in c.ready + c.failed + c.pending ≡ c.total
unfolding counts_for aggregate
counts_for_total db rag_id = status_split (documents_of rag_id db.documents)

count-pos : (p : Document → Bool) (rows : List Document) → ltb 0 (count p rows) ≡ any p rows
unfolding count filter any
count-pos p [] = refl
count-pos p (d ∷ rows) = ground (arith, count-pos p rows)

abbrev pub is_done : DocumentStatus → Bool
is_done pending = false
is_done processing = false
is_done success = true
is_done failed = false

abbrev pub gave_up : DocumentStatus → Bool
gave_up pending = false
gave_up processing = false
gave_up success = false
gave_up failed = true

-- The status in terms of the documents.
abbrev pub status_by_documents : List Document → RagStatus
status_by_documents rows =
    if is_empty rows
    then empty
    else if any (λ d. is_done d.status) rows
    then ready
    else if any (λ d. not (gave_up d.status)) rows
    then ingesting
    else all_failed

rest_failed :
    (rows : List Document)
    → any (λ d. not (gave_up d.status)) rows ≡ false
    → All (λ d. d.status ≡ failed) rows
unfolding any
rest_failed [] h = tt
rest_failed (d ∷ rows) h = (ground arith, rest_failed rows (ground arith))

any-is_done :
    (rows : List Document) → any (λ d. is_success d.status) rows ≡ any (λ d. is_done d.status) rows
unfolding any
any-is_done [] = refl
any-is_done (d ∷ rows) = ground (arith, any-is_done rows)

any-is_pending :
    (rows : List Document)
    → any (λ d. is_done d.status) rows ≡ false
    → any (λ d. is_pending d.status) rows ≡ any (λ d. not (gave_up d.status)) rows
unfolding any
any-is_pending [] h = refl
any-is_pending (d ∷ rows) h = ground (arith, any-is_pending rows)

status_of-aggregate : (rows : List Document) → status_of (aggregate rows) ≡ status_by_documents rows
unfolding status_of aggregate
status_of-aggregate [] = ground arith
status_of-aggregate (d ∷ rows) = ground (
  arith,
  count-pos (λ d. is_success d.status) (d ∷ rows),
  count-pos (λ d. is_pending d.status) (d ∷ rows),
  any-is_done (d ∷ rows),
  any-is_pending (d ∷ rows),
)

all_failed_rows :
    (rows : List Document)
    → status_by_documents rows ≡ all_failed
    → All (λ d. d.status ≡ failed) rows
all_failed_rows rows h = rest_failed rows (ground arith)

-- A set without documents is `empty`; otherwise it is `ready` as soon as one document is
-- processed, `ingesting` while none is and some document has not failed, and `failed` where all
-- have failed.
pub status-counts_for :
    (db : Db) (rag_id : ℕ)
    → status_of (counts_for db rag_id) ≡ status_by_documents (documents_of rag_id db.documents)
unfolding counts_for
status-counts_for db rag_id = status_of-aggregate (documents_of rag_id db.documents)

-- A set is shown as failed only if every document of it has failed.
pub all_failed-counts_for :
    (db : Db) (rag_id : ℕ)
    → status_of (counts_for db rag_id) ≡ all_failed
    → All (λ d. d.status ≡ failed) (documents_of rag_id db.documents)
all_failed-counts_for db rag_id h =
    all_failed_rows (documents_of rag_id db.documents) (sym (status-counts_for db rag_id) ∙ h)

contains-filter :
    (p : ℕ → Bool) (xs : List ℕ) (a : ℕ) → contains (filter p xs) a ≡ (contains xs a && p a)
unfolding filter
contains-filter p [] a = refl
contains-filter p (x ∷ xs) a = ground (arith, contains-filter p xs a)

contains-distinct_ids : (xs : List ℕ) (a : ℕ) → contains (distinct_ids xs) a ≡ contains xs a
unfolding distinct_ids
contains-distinct_ids [] a = refl
contains-distinct_ids (x ∷ xs) a =
    ground
      (arith, contains-distinct_ids xs a, contains-filter (λ y. not (y == x)) (distinct_ids xs) a)

pub get_counts-map :
    (f : ℕ → DocumentCounts) (xs : List ℕ) (a : ℕ)
    → get_counts a (map (λ (x : ℕ). (x, f x)) xs) ≡ (if contains xs a then f a else no_counts)
unfolding get_counts
get_counts-map f [] a = refl
get_counts-map f (x ∷ xs) a = ground (arith, get_counts-map f xs a)

no_documents :
    (rows : List Document) (a : ℕ)
    → contains (map (λ d. d.rag_id) rows) a ≡ false
    → documents_of a rows ≡ []
unfolding filter
no_documents [] a h = refl
no_documents (d ∷ rows) a h = ground (arith, no_documents rows a)

documents_of_selected :
    (ids : List ℕ) (rows : List Document) (a : ℕ)
    → contains ids a ≡ true
    → documents_of a (filter (λ d. contains ids d.rag_id) rows) ≡ documents_of a rows
unfolding filter
documents_of_selected ids [] a h = refl
documents_of_selected ids (d ∷ rows) a h = ground (arith, documents_of_selected ids rows a)

aggregate_nil : aggregate [] ≡ no_counts
unfolding aggregate count sum_of filter
aggregate_nil = refl

get_counts-grouped :
    (rows : List Document) (a : ℕ) → get_counts a (grouped rows) ≡ aggregate (documents_of a rows)
unfolding grouped
get_counts-grouped rows a =
    rw (get_counts-map (λ r. aggregate (documents_of r rows)), contains-distinct_ids)
      (if_ind (λ c. c ≡ aggregate (documents_of a rows)) (contains (map (λ d. d.rag_id) rows) a)
        (λ _. refl) (λ absent. rw (no_documents rows a absent) (sym aggregate_nil)))

many_loop :
    (db : Db) (ids rest : List ℕ)
    → All (λ r. contains ids r ≡ true) rest
    → map {B = ℕ × DocumentCounts}
        (λ rid. (rid, get_counts rid (grouped (filter (λ d. contains ids d.rag_id) db.documents))))
        rest
      ≡ map {B = ℕ × DocumentCounts} (λ rid. (rid, counts_for db rid)) rest
unfolding counts_for
many_loop db ids [] h = refl
many_loop db ids (r ∷ rest) (m, h) =
    rw (get_counts-grouped, documents_of_selected ids db.documents r m, many_loop db ids rest h)

pub All-contains : (front ids : List ℕ) → All (λ r. contains (front ++ ids) r ≡ true) ids
All-contains front [] = tt
All-contains front (r ∷ ids) = (
  ground (arith, contains-append front (r ∷ ids) r),
  rw append_assoc at (All-contains (front ++ r ∷ []) ids),
)

-- The one grouped query for a list of sets gives for each of them what the query for that set
-- alone gives, sets without documents included.
pub counts_for_many_lem :
    (db : Db) (rag_ids : List ℕ)
    → counts_for_many db rag_ids
      ≡ map {B = ℕ × DocumentCounts} (λ rid. (rid, counts_for db rid)) rag_ids
unfolding counts_for_many
counts_for_many_lem db [] = refl
counts_for_many_lem db (r ∷ ids) = many_loop db (r ∷ ids) (r ∷ ids) (All-contains [] (r ∷ ids))
