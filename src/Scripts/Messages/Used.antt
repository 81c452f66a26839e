-- ===== src/Scripts/Messages/Used.antt =====
-- The catalogs that scripts/lint-i18n-messages.ts lets through.
use Prim.Native.String.{String}
use es_ts_example.Common.{
  ◌≡◌, ◌↔◌, Bool, not, false, leb, ◌==◌, List, [], ◌∷◌, map, filter, length, All,
}
use es_ts_example.Application.Counter.Listing.{ids_in, group_by-eq-table}
use es_ts_example.Scripts.CoveragePolicy.Clean.{none_reported, both_clean}
use es_ts_example.Scripts.Messages.{
  CatalogEntry, duplicate_violations, referenced_somewhere, orphan_violations, message_violations,
}

-- The entries of an id.
abbrev pub entries_of : List CatalogEntry → String → List CatalogEntry
entries_of entries i = filter (λ entry. entry.id == i) entries

All-map :
    {A B : Type 0} (f : A → B) (P : B → Type 0) (xs : List A)
    → All P (map f xs) ↔ All (λ x. P (f x)) xs
All-map f P [] = (λ _. tt, λ _. tt)
All-map f P (x ∷ xs) =
    (λ (p, ps). (p, (All-map f P xs).0 ps), λ (p, ps). (p, (All-map f P xs).1 ps))

-- Nothing is reported of a list that a map gives.
none_reported_of :
    {A B C : Type 0} (f : C → A) (report : A → B) (p : A → Bool) (xs : List C)
    → (map report (filter p (map f xs)) ≡ []) ↔ All (λ x. p (f x) ≡ false) xs
none_reported_of f report p xs =
    let reported = none_reported report p (map f xs) in
    let mapped = All-map f (λ a. p a ≡ false) xs in
    (λ h. mapped.0 (reported.0 h), λ h. reported.1 (mapped.1 h))

module _ (includes : String → String → Bool) (reference_texts : List String) where
  -- The catalogs pass exactly if no id that they define has two entries, and every entry is referred to.
  pub message_violations_lem :
      (entries : List CatalogEntry)
      → (message_violations includes reference_texts entries ≡ []) ↔ (
          All
            (λ i. leb 2 (length (entries_of entries i)) ≡ false)
            (ids_in (map (λ entry. entry.id) entries))
          × All
              (λ entry. not (referenced_somewhere includes reference_texts entry.id) ≡ false)
              entries)
  unfolding message_violations duplicate_violations orphan_violations
  message_violations_lem entries =
      both_clean _ _
        (rw (group_by-eq-table (λ entry. entry.id) entries) (
          none_reported_of (λ i. (i, entries_of entries i)) _ (λ group. leb 2 (length group.1))
            (ids_in (map (λ entry. entry.id) entries))))
        (none_reported _ (λ entry. not (referenced_somewhere includes reference_texts entry.id))
          entries)
