-- ===== src/Steps/Samples.antt =====
-- Examples for the steps of the service: a set is created and deleted, and the worker takes the job
-- that purges it from the queue.
use rag_ingestion_service.Steps.Limits.{begun, admitted, inserted, Racing-IsWithin}
use rag_ingestion_service.Prelude.{
  ◌≤◌, ◌+◌, codes, Option, Text, [], lower, nat_eq, none, option_eq, refl, text_eq, ℕ, ◌∷◌, ◌≡◌,
  arith, true, ◌≢◌,
}
use rag_ingestion_service.Api.Sets.{
  RagCreate, add_rag, has_room, RagFromBucketIn, create_rag, create_from_bucket,
}
use rag_ingestion_service.Steps.Changes.{purging, user, caller}
use rag_ingestion_service.Models.{empty_db}
use rag_ingestion_service.Models.Integrity.{IsConsistent}
use rag_ingestion_service.World
use rag_ingestion_service.World.{World}
use rag_ingestion_service.Storage.Memory.{Memory}
use rag_ingestion_service.Api.Samples.{env, world, second}
use rag_ingestion_service.Steps.{
  post_rag, remove_rag, handle, run_task, start, and_then, request, maintain, Reachable,
}
use rag_ingestion_service.Models.Names.{HasUniqueNames}
use rag_ingestion_service.Steps.Invariant.{reachable-HasUniqueNames, reachable-IsConsistent}
use rag_ingestion_service.Prelude.Filter.{count, filter}
use rag_ingestion_service.Settings.{default_settings}
use rag_ingestion_service.Repo.{count_rags}
use rag_ingestion_service.Steps.Moves.{
  Move, Others, none_yet, one_more, actor, reachable-Move, view-Others,
}
use rag_ingestion_service.Repo.Views.{view}

abbrev no_icon : Text → Option Text
no_icon payload = none

abbrev nothing_yet : World Memory ℕ
nothing_yet = record world { db = empty_db }

abbrev with_set : World Memory ℕ
with_set = handle env lower no_icon (post_rag second 7) nothing_yet

abbrev deleted : World Memory ℕ
deleted = handle env lower no_icon (remove_rag 20 7) with_set

waiting : deleted.maintenance_queue ≡ World.purge_rag 20 ∷ []
unfolding handle rag_ingestion_service.Api.delete_rag rag_ingestion_service.Api.owned
    rag_ingestion_service.Repo.get_rag rag_ingestion_service.Prelude.Filter.filter
    rag_ingestion_service.Api.Sets.create_rag rag_ingestion_service.Repo.count_rags
    rag_ingestion_service.Prelude.Filter.count rag_ingestion_service.Models.insert_rag
    rag_ingestion_service.Prelude.Filter.any nat_eq
waiting = refl

abbrev purged : World Memory ℕ
purged =
    (run_task env lower no_icon (World.purge_rag 20) (record deleted { maintenance_queue = [] })).1

purged-Reachable : Reachable env lower no_icon purged
purged-Reachable =
    and_then
      (and_then (and_then (start nothing_yet refl) (request (post_rag second 7) nothing_yet))
        (request (remove_rag 20 7) with_set))
      (maintain (World.purge_rag 20) [] deleted waiting)

reachable-IsConsistent_example : IsConsistent purged.db
reachable-IsConsistent_example = reachable-IsConsistent env lower no_icon purged-Reachable

abbrev first : RagCreate
first = record second { name = codes "first" }

-- Two creations of one owner count before either of them inserts.
abbrev two_sets : World Memory ℕ
two_sets = (add_rag env lower first 7 (add_rag env lower second 7 nothing_yet).1).1

Racing-IsWithin_example : count_rags two_sets.db 7 + 0 ≤ default_settings.rag_max_sets_per_owner + 1
unfolding has_room count_rags count filter nat_eq
Racing-IsWithin_example =
    Racing-IsWithin env lower no_icon 1 {w = two_sets} {pending = λ _. 0}
      (inserted first 7 (
        inserted second 7
          (admitted 7 refl (omega arith) (admitted 7 refl (omega arith) (begun nothing_yet refl)))))
      7

with_set-Reachable : Reachable env lower no_icon with_set
with_set-Reachable = and_then (start nothing_yet refl) (request (post_rag second 7) nothing_yet)

reachable-Move_example :
    Move
      (actor env lower no_icon (request (remove_rag 20 7) with_set))
      (view with_set.db)
      (view deleted.db)
reachable-Move_example =
    reachable-Move env lower no_icon with_set-Reachable (request (remove_rag 20 7) with_set)

abbrev by_another : World Memory ℕ
by_another = handle env lower no_icon (remove_rag 20 8) with_set

another : user 8 ≢ user 7
another = ground arith

no_purge : user 8 ≢ purging 20
no_purge = ground arith

attempt : Others env lower no_icon 7 20 with_set by_another
unfolding actor caller
attempt = one_more none_yet (request (remove_rag 20 8) with_set) another no_purge

view-Others_example : view by_another.db 7 20 ≡ view with_set.db 7 20
view-Others_example = view-Others env lower no_icon 7 20 with_set-Reachable attempt

reachable-HasUniqueNames_example : HasUniqueNames lower with_set.db
reachable-HasUniqueNames_example = reachable-HasUniqueNames env lower no_icon with_set-Reachable
