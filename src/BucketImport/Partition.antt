-- ===== src/BucketImport/Partition.antt =====
-- app/bucket_import.py: nothing that was listed is lost, and what is known is not taken again.
use mathlib.Core.List.{
  map-append, append-nil, Perm, append_assoc, perm_middle, perm_append_singleton, perm_append_comm,
}
use mathlib.Core.List.Perm
use rag_ingestion_service.Prelude.{
  Bool, List, Text, [], arith, contains, false, foldl, if_ind, is_empty, map, nat_eq, not,
  option_eq, refl, sym, text_eq, true, ◌++◌, ◌∙◌, ◌∷◌, ◌≡◌,
}
use rag_ingestion_service.Prelude.Filter.{filter}
use rag_ingestion_service.Settings.{Settings}
use rag_ingestion_service.Storage.{RemoteObject}
use rag_ingestion_service.BucketImport.{
  Reason, Rejected, Selection, Sorting, reject, normalize_extensions, content_hash_for, sort_object,
  select, drop_object, drop_known, already_in_set,
}
use rag_ingestion_service.BucketImport.Accepted.{Verdict, refused, admitted, sort_object-Verdict}

-- The keys on both sides of a selection.
abbrev pub all_keys : List RemoteObject → List Rejected → List Text
all_keys accepted rejected = map (λ o. o.key) accepted ++ map (λ r. r.source_key) rejected

-- One more key on either side is one more key.
all_keys-accept :
    (acc : List RemoteObject) (rej : List Rejected) (obj : RemoteObject)
    → Perm (all_keys (acc ++ obj ∷ []) rej) (obj.key ∷ all_keys acc rej)
all_keys-accept acc rej obj = rw (map-append, append_assoc) (perm_middle _ _)

all_keys-reject :
    (acc : List RemoteObject) (rej : List Rejected) (obj : RemoteObject) (reason : Reason)
    → Perm
        (all_keys acc (rej ++ record { source_key = obj.key; reason = reason } ∷ []))
        (obj.key ∷ all_keys acc rej)
all_keys-reject acc rej obj reason =
    rw (map-append, ← append_assoc) (perm_append_singleton obj.key _)

-- A loop each round of which puts the key of its object on one side puts all keys there.
fold_perm :
    {S : Type 0} (keys_of : S → List Text) (step : S → RemoteObject → S)
    → ((w : S) (o : RemoteObject) → Perm (keys_of (step w o)) (o.key ∷ keys_of w))
    → (w : S) (objects : List RemoteObject)
    → Perm (keys_of (foldl step w objects)) (keys_of w ++ map (λ o. o.key) objects)
fold_perm keys_of step one w [] = rw append-nil (Perm.refl _)
fold_perm keys_of step one w (o ∷ os) =
    Perm.trans (fold_perm keys_of step one (step w o) os)
      (Perm.trans (Perm.append (one w o) (Perm.refl _)) (Perm.symm (perm_middle _ _)))

module _ (digest : Text → Text) (s : Settings) (bucket : Text) where
  Verdict-perm :
      (suffixes : List Text) (w : Sorting) (o : RemoteObject) (q : Sorting)
      → Verdict digest s bucket suffixes w o q
      → Perm (all_keys q.accepted q.rejected) (o.key ∷ all_keys w.accepted w.rejected)
  unfolding reject
  Verdict-perm suffixes w o q (refused reason e) =
      rw e (all_keys-reject w.accepted w.rejected o reason)
  Verdict-perm suffixes w o q (admitted _ _ _ _ _ e) =
      rw e (all_keys-accept w.accepted w.rejected o)

  -- `select` neither loses nor repeats an object: the accepted and the rejected keys together
  -- are the keys of the listing, up to order.
  pub select-perm :
      (objects : List RemoteObject) (extensions : List Text)
      → let sel = select digest s bucket objects extensions in
        Perm (all_keys sel.accepted sel.rejected) (map (λ o. o.key) objects)
  unfolding select
  select-perm objects extensions =
      let suffixes = normalize_extensions s extensions in
      fold_perm (λ (w : Sorting). all_keys w.accepted w.rejected)
        (sort_object digest s bucket suffixes)
        (λ w o. Verdict-perm suffixes w o _ (sort_object-Verdict digest s bucket suffixes w o))
        (record { accepted = []; rejected = []; seen = [] }) objects

not_contains : (l : List Text) (t : Text) → is_empty l ≡ true → contains l t ≡ false
not_contains [] t h = refl
not_contains (x ∷ xs) t h = cc

module _ (digest : Text → Text) (bucket : Text) (known_hashes : List Text) where
  abbrev is_new : RemoteObject → Bool
  is_new o = not (contains known_hashes (content_hash_for digest bucket o))

  drop_object-perm :
      (sel : Selection) (o : RemoteObject)
      → let sel' = drop_object digest bucket known_hashes sel o in
        Perm (all_keys sel'.accepted sel'.rejected) (o.key ∷ all_keys sel.accepted sel.rejected)
  unfolding drop_object
  drop_object-perm sel o =
      if_ind
        (λ (q : Selection).
          Perm (all_keys q.accepted q.rejected) (o.key ∷ all_keys sel.accepted sel.rejected))
        (contains known_hashes (content_hash_for digest bucket o))
        (λ _. all_keys-reject sel.accepted sel.rejected o already_in_set)
        (λ _. all_keys-accept sel.accepted sel.rejected o)

  drop_loop :
      (sel : Selection) (objects : List RemoteObject)
      → (foldl (drop_object digest bucket known_hashes) sel objects).accepted
        ≡ sel.accepted ++ filter is_new objects
  unfolding drop_object filter
  drop_loop sel [] = rw append-nil
  drop_loop sel (o ∷ os) = ground (
    arith,
    drop_loop (drop_object digest bucket known_hashes sel o) os,
    append_assoc sel.accepted (o ∷ []) (filter is_new os),
  )

  all_new :
      (objects : List RemoteObject) → is_empty known_hashes ≡ true → filter is_new objects ≡ objects
  unfolding filter
  all_new [] h = refl
  all_new (o ∷ os) h =
      ground (arith, all_new os h, not_contains known_hashes (content_hash_for digest bucket o))

  -- Of a selection `drop_known` keeps, in their order, exactly the objects whose key is not known
  -- in the set; every other one is among the rejected, and no key is lost or repeated.
  pub drop_known_lem :
      (sel : Selection)
      → let kept = drop_known digest bucket sel known_hashes in
        (kept.accepted ≡ filter is_new sel.accepted)
        × Perm (all_keys kept.accepted kept.rejected) (all_keys sel.accepted sel.rejected)
  unfolding drop_known
  drop_known_lem sel =
      let goal = λ (kept : Selection).
        (kept.accepted ≡ filter is_new sel.accepted)
        × Perm (all_keys kept.accepted kept.rejected) (all_keys sel.accepted sel.rejected) in
      if_ind goal (is_empty known_hashes)
        (λ none_known. (sym (all_new sel.accepted none_known), Perm.refl _))
        (λ _. (
          drop_loop (record { accepted = []; rejected = sel.rejected }) sel.accepted,
          Perm.trans
              (fold_perm (λ (q : Selection). all_keys q.accepted q.rejected)
                (drop_object digest bucket known_hashes) drop_object-perm
                (record { accepted = []; rejected = sel.rejected }) sel.accepted)
              (perm_append_comm (map (λ r. r.source_key) sel.rejected)
                (map (λ o. o.key) sel.accepted)),
        ))

none_new :
    (digest : Text → Text) (bucket : Text) (known : List Text) (objects : List RemoteObject)
    → ((o : Text)
        → contains (map (content_hash_for digest bucket) objects) o ≡ true
        → contains known o ≡ true)
    → filter (is_new digest bucket known) objects ≡ []
unfolding filter
none_new digest bucket known [] h = refl
none_new digest bucket known (o ∷ os) h =
    rw (h (content_hash_for digest bucket o) (ground arith))
      (none_new digest bucket known os (λ t m. h t (ground arith)))

-- A second import of the same objects takes nothing: once the set holds the keys of everything
-- that was accepted, `drop_known` accepts none of it.
pub drop_known_again :
    (digest : Text → Text) (bucket : Text) (known : List Text) (sel : Selection)
    → ((t : Text)
        → contains (map (content_hash_for digest bucket) sel.accepted) t ≡ true
        → contains known t ≡ true)
    → (drop_known digest bucket sel known).accepted ≡ []
drop_known_again digest bucket known sel h =
    (drop_known_lem digest bucket known sel).0 ∙ none_new digest bucket known sel.accepted h
