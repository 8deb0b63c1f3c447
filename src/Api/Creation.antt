-- ===== src/Api/Creation.antt =====
-- app/api/rags.py: what `create_rag`, `update_rag` and `list_rags` answer.
use rag_ingestion_service.Repo.Order.{list_rags-IsListing, IsListing}
use rag_ingestion_service.Prelude.{
  ◌||◌, Bool, Option, All, All-imp, Bool-cases, List, Text, [], ap, arith, contains, false,
  if◌then◌else◌, inl, inr, leb, map, nat_eq, none, option_eq, refl, some, text_eq, true, ℕ, ◌++◌,
  ◌+◌, ◌==◌, ◌∙◌, ◌∷◌, ◌≡◌, ◌≤◌,
}
use rag_ingestion_service.Api.Schemas.{update_passes, create_passes}
use rag_ingestion_service.Repo.Counts.{get_counts-map, All-contains, counts_for_many_lem}
use rag_ingestion_service.Errors.{
  integrity_error, Exception, http_exception, too_many_sets, name_taken,
}
use rag_ingestion_service.Prelude.Filter.{any}
use rag_ingestion_service.Prelude.Result.{Result, ok, err}
use rag_ingestion_service.Models.{Db, RagSet, rag_checks, same_name, insert_rag}
use rag_ingestion_service.Repo
use rag_ingestion_service.Repo.{no_counts, count_rags, counts_for, counts_for_many, get_counts}
use rag_ingestion_service.World.{World}
use rag_ingestion_service.Settings.{Settings}
use rag_ingestion_service.Jobs.{Worker}
use rag_ingestion_service.Api.{owned}
use rag_ingestion_service.Api.Sets.{
  RagCreate, RagOut, to_out, new_rag, has_room, add_rag, create_rag, list_rags,
}
use rag_ingestion_service.Api.Updates.{RagUpdate, change_rag, update_rag, apply_update}

-- A field of a change that is given as null.
abbrev pub is_cleared : {A : Type 0} → Option (Option A) → Bool
is_cleared none = false
is_cleared (some none) = true
is_cleared (some (some v)) = false

-- A payload that pydantic lets through passes the checks of the table.
passes-checks :
    (settings : Settings) (payload : RagCreate) (now id user_id : ℕ)
    → settings.rag_top_k_max ≤ 10
    → create_passes settings payload ≡ true
    → rag_checks (new_rag now id user_id payload) ≡ true
unfolding create_passes
passes-checks settings payload now id user_id h e = ground arith

inserted :
    (fold : Text → Text) (rag : RagSet) (db : Db)
    → rag_checks rag ≡ true
    → any (λ r. r.id == rag.id) db.rag_sets ≡ false
    → insert_rag fold rag db ≡ (
        if any (same_name fold rag) db.rag_sets
        then err integrity_error
        else ok (record db { rag_sets = db.rag_sets ++ rag ∷ [] }))
unfolding insert_rag
inserted fold rag db checked fresh = rw (checked, fresh)

map-All : {A B : Type 0} (f g : A → B) (xs : List A) → All (λ x. f x ≡ g x) xs → map f xs ≡ map g xs
map-All f g [] h = refl
map-All f g (x ∷ xs) (p, h) = rw (p, map-All f g xs h)

All-of_map :
    {A B : Type 0} (P : B → Type 0) (f : A → B) (xs : List A)
    → All P (map f xs)
    → All (λ x. P (f x)) xs
All-of_map P f [] h = tt
All-of_map P f (x ∷ xs) (p, h) = (p, All-of_map P f xs h)

module _ {S I : Type 0} (env : Worker S I) (fold : Text → Text) where
  -- The answer of `create_rag`, and the state it leaves.
  abbrev pub creation : RagCreate → ℕ → World S I → Result Exception RagOut × World S I
  creation payload user_id w =
      let rag = new_rag w.now w.next_id user_id payload in
      let w' = record w { next_id = w.next_id + 1 } in
      if leb env.settings.rag_max_sets_per_owner (count_rags w.db user_id)
      then (err (http_exception 409 (too_many_sets env.settings.rag_max_sets_per_owner)), w)
      else if any (same_name fold rag) w.db.rag_sets
      then (err (http_exception 409 name_taken), w')
      else (
        ok (to_out rag no_counts),
        record w' { db = record w.db { rag_sets = w.db.rag_sets ++ rag ∷ [] } },
      )

  -- A payload that the schema lets through, under a limit of `top_k` that is the database's, gives
  -- one of three answers: 409 at the quota, with nothing changed; 409 for a name that an alive set
  -- of the owner has; or the new set, which stands behind the others.
  pub create_rag_lem :
      (payload : RagCreate) (user_id : ℕ) (w : World S I)
      → env.settings.rag_top_k_max ≤ 10
      → create_passes env.settings payload ≡ true
      → any (λ r. r.id == w.next_id) w.db.rag_sets ≡ false
      → create_rag env fold payload user_id w ≡ creation payload user_id w
  unfolding create_rag has_room add_rag
  create_rag_lem payload user_id w small valid fresh =
      let checked = passes-checks env.settings payload w.now w.next_id user_id small valid in
      let made = inserted fold (new_rag w.now w.next_id user_id payload) w.db checked fresh in
      elim (Bool-cases (leb env.settings.rag_max_sets_per_owner (count_rags w.db user_id))) [
        | inl full ↦ rw full
        | inr room ↦
            elim (Bool-cases
              (any (same_name fold (new_rag w.now w.next_id user_id payload)) w.db.rag_sets)) [
                | inl clash ↦ rw (room, made, clash)
                | inr free ↦ rw (room, made, free)
              ]
      ]

  -- The list of sets has the rows that are the owner's and not deleted, each once, the newest change
  -- first, and gives each of them the counts of its own documents; nothing is changed.
  pub list_rags_lem :
      (user_id : ℕ) (w : World S I)
      → (rags : List RagSet) × IsListing w.db user_id rags
        × (list_rags env fold user_id w
            ≡ (ok (map (λ (r : RagSet). to_out r (counts_for w.db r.id)) rags), w))
  unfolding list_rags
  list_rags_lem user_id w =
      let rags = Repo.list_rags w.db user_id in
      let ids = map (λ (r : RagSet). r.id) rags in
      let there =
        All-of_map (λ i. contains ids i ≡ true) (λ (r : RagSet). r.id) rags (All-contains [] ids) in
      let same =
        map-All (λ r. to_out r (get_counts r.id (counts_for_many w.db ids)))
          (λ r. to_out r (counts_for w.db r.id)) rags
          (All-imp _ _ rags
            (λ r e. ap (to_out r) (
              ap (get_counts r.id) (counts_for_many_lem w.db ids)
              ∙ get_counts-map (counts_for w.db) ids r.id
              ∙ ap (λ b. if b then counts_for w.db r.id else no_counts) e))
            there) in
      (rags, list_rags-IsListing w.db user_id, ap (λ outs. (ok outs, w)) same)

  -- The columns of the table that `RagUpdate` may set to null and that are `NOT NULL`.
  abbrev pub has_null : RagUpdate → Bool
  has_null payload =
      is_cleared payload.name
      || is_cleared payload.temperature
      || is_cleared payload.top_k
      || is_cleared payload.score_threshold

  apply_update_null :
      (payload : RagUpdate) (rag : RagSet) (w : World S I)
      → has_null payload ≡ true
      → apply_update env fold payload rag w ≡ (err integrity_error, w)
  unfolding apply_update
  apply_update_null payload rag w h = ground arith

  -- A change that the schema lets through and that sets the name, the temperature, the number of
  -- results or the threshold to null, whatever else it sets, is answered to the owner with 409: the
  -- name is reported as taken, and nothing is changed.
  pub update_rag_null :
      (rag_id user_id : ℕ) (rag : RagSet) (payload : RagUpdate) (w : World S I)
      → Repo.get_rag w.db rag_id user_id ≡ some rag
      → update_passes env.settings payload ≡ true
      → has_null payload ≡ true
      → update_rag env fold rag_id payload user_id w ≡ (err (http_exception 409 name_taken), w)
  unfolding update_rag change_rag owned
  update_rag_null rag_id user_id rag payload w h let_through null =
      rw (h, apply_update_null payload rag w null)
