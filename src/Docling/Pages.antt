-- ===== src/Docling/Pages.antt =====
-- app/docling/client.py: the page numbers of a chunk.
use rag_ingestion_service.Prelude.{
  List, Option, [], arith, codes, foldl_inv, if◌then◌else◌, nat_eq, none, option_eq, some, suc,
  text_eq, ℕ, ◌∷◌, ◌≡◌, ◌≤◌,
}
use rag_ingestion_service.Prelude.Json.{
  Json, Fields, str, int, bool, obj, null, float, arr, iterate, as_dict, get_field,
}
use rag_ingestion_service.Prelude.Result.{ok, >>=-eq-ok, ok_injective}
use rag_ingestion_service.Docling.{
  add_page, add_if_int, add_int, add_provs, add_items, extract_pages,
}

-- Each page is larger than `lo` and than the one before it.
abbrev pub Above : ℕ → List ℕ → Type 0
Above lo [] = Unit
Above lo (n ∷ ns) = (lo ≤ n) × Above (suc n) ns

add_page-Above : (lo n : ℕ) (ns : List ℕ) → lo ≤ n → Above lo ns → Above lo (add_page n ns)
unfolding add_page
add_page-Above lo n [] h a = (h, tt)
add_page-Above lo n (m ∷ ms) h (le, a) = ground (arith, add_page-Above (suc m) n ms)

add_if_int-Above : (ns : List ℕ) (v : Option Json) → Above 0 ns → Above 0 (add_if_int ns v)
unfolding add_if_int
add_if_int-Above ns none a = a
add_if_int-Above ns (some (int n)) a = add_page-Above 0 n ns (omega arith) a
add_if_int-Above ns (some (bool b)) a = add_page-Above 0 (if b then 1 else 0) ns (omega arith) a
add_if_int-Above ns (some _) a = a

add_provs-Above :
    (provs : List Json) (ns ns' : List ℕ) → add_provs provs ns ≡ ok ns' → Above 0 ns → Above 0 ns'
unfolding add_provs
add_provs-Above [] ns ns' e a = rw (← ok_injective e) a
add_provs-Above (prov ∷ provs) ns ns' e a =
    let (fields, _, rest) = >>=-eq-ok (as_dict (some prov)) _ e in
    add_provs-Above provs _ ns' rest (add_if_int-Above ns _ a)

add_items-Above :
    (items : List Json) (ns ns' : List ℕ) → add_items items ns ≡ ok ns' → Above 0 ns → Above 0 ns'
unfolding add_items
add_items-Above [] ns ns' e a = rw (← ok_injective e) a
add_items-Above (obj fields ∷ rest) ns ns' e a =
    let (provs, _, e₁) = >>=-eq-ok (iterate (get_field (codes "prov") fields)) _ e in
    let (pages, e₂, e₃) = >>=-eq-ok (add_provs provs ns) _ e₁ in
    add_items-Above rest pages ns' e₃ (add_provs-Above provs ns pages e₂ a)
add_items-Above (null ∷ rest) ns ns' e a = add_items-Above rest ns ns' e a
add_items-Above (bool b ∷ rest) ns ns' e a = add_items-Above rest ns ns' e a
add_items-Above (int n ∷ rest) ns ns' e a = add_items-Above rest ns ns' e a
add_items-Above (float ∷ rest) ns ns' e a = add_items-Above rest ns ns' e a
add_items-Above (str t ∷ rest) ns ns' e a = add_items-Above rest ns ns' e a
add_items-Above (arr xs ∷ rest) ns ns' e a = add_items-Above rest ns ns' e a

-- The pages of a chunk are strictly increasing, so none stands there twice, wherever the
-- service put them.
pub extract_pages-Above :
    (raw meta : Fields) (pages : List ℕ) → extract_pages raw meta ≡ ok pages → Above 0 pages
unfolding extract_pages
extract_pages-Above raw meta pages e =
    let (numbers, _, e₁) = >>=-eq-ok (iterate (get_field (codes "page_numbers") raw)) _ e in
    let (doc_items, _, e₂) = >>=-eq-ok (iterate (get_field (codes "doc_items") meta)) _ e₁ in
    add_items-Above doc_items _ pages e₂
      (foldl_inv (Above 0) add_int (λ ns v a. add_if_int-Above ns (some v) a) [] numbers tt)
