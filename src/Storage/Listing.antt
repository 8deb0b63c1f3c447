-- ===== src/Storage/Listing.antt =====
-- app/storage/seaweed.py: what `list_objects` returns, whatever the pages.
use mathlib.Core.List.{append-nil, append_assoc, flatten}
use rag_ingestion_service.Prelude.Filter.{filter}
use rag_ingestion_service.Prelude.{
  Bool-cases, List, [], ap, arith, ends_with, inl, inr, leb, length, length-append, map, nat_eq,
  not, option_eq, refl, slash, suc, sym, take, text_eq, zero, ℕ, ◌++◌, ◌<◌, ◌∷◌, ◌≡◌, ◌≤◌,
}
use rag_ingestion_service.Prelude.Result.{Result, ok, err}
use rag_ingestion_service.Storage.{
  Item, RemoteObject, to_remote, scan_page, scan_pages, collect_pages,
}

-- The objects of a listing: all but the keys that stand for directories.
unfoldable pub objects_of : List Item → List RemoteObject
unfolding filter
objects_of items = map to_remote (filter (λ i. not (ends_with i.item_key (slash ∷ []))) items)

objects_of-nil : objects_of [] ≡ []
unfolding objects_of
objects_of-nil = refl

objects_of-append : (xs ys : List Item) → objects_of (xs ++ ys) ≡ objects_of xs ++ objects_of ys
unfolding objects_of
objects_of-append [] ys = refl
objects_of-append (x ∷ xs) ys = ground (arith, objects_of-append xs ys)

take_exact : (xs ys : List RemoteObject) → take (length xs) (xs ++ ys) ≡ xs
take_exact [] ys = refl
take_exact (x ∷ xs) ys = ap (◌∷◌ x) (take_exact xs ys)

take_short : (n : ℕ) (xs : List RemoteObject) → length xs ≤ n → take n xs ≡ xs
take_short zero [] h = refl
take_short zero (x ∷ xs) h = absurd (omega arith)
take_short (suc n) [] h = refl
take_short (suc n) (x ∷ xs) h = ap (◌∷◌ x) (take_short n xs (omega arith))

-- How one page ends: at the limit, or with all its objects and room left.
data Scanned (limit : ℕ) (all : List RemoteObject)
    (r : Result (List RemoteObject) (List RemoteObject)) : Type 0 where
  full :
      (front rest : List RemoteObject)
      → r ≡ err front
      → all ≡ front ++ rest
      → length front ≡ limit
      → Scanned limit all r
  partial : r ≡ ok all → length all < limit → Scanned limit all r

scan_page-Scanned :
    (limit : ℕ) (items : List Item) (objects : List RemoteObject)
    → length objects < limit
    → Scanned limit (objects ++ objects_of items) (scan_page limit items objects)
unfolding scan_page objects_of
scan_page-Scanned limit [] objects h = rw append-nil (partial refl h)
scan_page-Scanned limit (item ∷ items) objects h =
    elim (Bool-cases (ends_with item.item_key (slash ∷ []))) [
      | inl folder ↦ rw folder (scan_page-Scanned limit items objects h)
      | inr object ↦ elim (Bool-cases (leb limit (length (objects ++ to_remote item ∷ [])))) [
        | inl reached ↦
            rw (object, reached)
              (full (objects ++ to_remote item ∷ []) (objects_of items) refl (rw append_assoc)
                (ground (arith, length-append objects (to_remote item ∷ []))))
        | inr room ↦
            rw (object, room)
              (rw append_assoc at
                (scan_page-Scanned limit items (objects ++ to_remote item ∷ []) (ground arith)))
      ]
    ]

scan_pages-take :
    (limit : ℕ) (pages : List (List Item)) (objects : List RemoteObject)
    → length objects < limit
    → scan_pages limit pages objects ≡ take limit (objects ++ objects_of (flatten pages))
unfolding scan_pages flatten
scan_pages-take limit [] objects h =
    rw (objects_of-nil, append-nil) (sym (take_short limit objects (omega arith)))
scan_pages-take limit (page ∷ pages) objects h =
    go (scan_page-Scanned limit page objects h) (scan_pages-take limit pages)
  where
    go :
        Scanned limit (objects ++ objects_of page) (scan_page limit page objects)
        → ((o : List RemoteObject)
            → length o < limit
            → scan_pages limit pages o ≡ take limit (o ++ objects_of (flatten pages)))
        → scan_pages limit (page ∷ pages) objects
          ≡ take limit (objects ++ objects_of (flatten (page ∷ pages)))
    go (full front rest e split n) later =
        rw (e, scan_pages, objects_of-append, ← append_assoc, split, append_assoc, ← n)
          (sym (take_exact front (rest ++ objects_of (flatten pages))))
    go (partial e room) later =
        rw (e, scan_pages, objects_of-append, ← append_assoc)
          (later (objects ++ objects_of page) room)

-- For a positive limit the listing is the first `limit` objects of all pages in order, keys that
-- end in a slash left out, wherever the pages are cut.
pub collect_pages-take :
    (limit : ℕ) (pages : List (List Item))
    → 0 < limit
    → collect_pages limit pages ≡ take limit (objects_of (flatten pages))
unfolding collect_pages
collect_pages-take limit pages h = scan_pages-take limit pages [] h
