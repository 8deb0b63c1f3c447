-- ===== src/BucketImport/Samples.antt =====
-- app/bucket_import.py: the theorems on a listing with an empty object and a repeated content.
use rag_ingestion_service.Prelude.{
  true, All, Distinct, List, Text, [], codes, contains, length, map, nat_eq, not, option_eq,
  text_eq, ℕ, ◌∷◌, ◌≡◌, ◌≤◌,
}
use rag_ingestion_service.Storage.{suffix, RemoteObject}
use mathlib.Core.List.{Perm}
use rag_ingestion_service.Prelude.Filter.{filter}
use rag_ingestion_service.Settings.{default_settings}
use rag_ingestion_service.BucketImport.{
  select, drop_known, normalize_extensions, content_hash_for, Selection,
}
use rag_ingestion_service.BucketImport.Accepted.{select-accepted, IsWanted}
use rag_ingestion_service.BucketImport.Partition.{select-perm, drop_known_lem, all_keys}

abbrev remote : Text → ℕ → Text → RemoteObject
remote key size etag = record { key = key; size = size; etag = etag }

abbrev objects : List RemoteObject
objects =
    remote (codes "in/a.pdf") 30 (codes "e1")
    ∷ remote (codes "in/b.pdf") 0 (codes "e2")
    ∷ remote (codes "in/a.pdf") 30 (codes "e1")
    ∷ remote (codes "in/c.exe") 5 (codes "e3")
    ∷ []

abbrev selection : Selection
selection = record { accepted = remote (codes "in/a.pdf") 30 (codes "e1") ∷ []; rejected = [] }

select-accepted_example :
    let taken = (select (λ t. t) default_settings (codes "b") objects []).accepted in
    All (λ obj. contains default_settings.allowed_suffixes (suffix obj) ≡ true) taken
    × All
        (IsWanted (λ t. t) default_settings (codes "b") (normalize_extensions default_settings []))
        taken
    × (length taken ≤ 500)
    × Distinct (map (content_hash_for (λ t. t) (codes "b")) taken)
select-accepted_example = select-accepted (λ t. t) default_settings (codes "b") objects []

select-perm_example :
    let sel = select (λ t. t) default_settings (codes "b") objects [] in
    Perm (all_keys sel.accepted sel.rejected) (map (λ o. o.key) objects)
select-perm_example = select-perm (λ t. t) default_settings (codes "b") objects []

drop_known_lem_example :
    let kept = drop_known (λ t. t) (codes "b") selection [] in
    (kept.accepted
      ≡ filter
          (λ o. not (contains [] (content_hash_for (λ t. t) (codes "b") o)))
          selection.accepted)
    × Perm (all_keys kept.accepted kept.rejected) (all_keys selection.accepted selection.rejected)
drop_known_lem_example = drop_known_lem (λ t. t) (codes "b") [] selection
