-- ===== src/Scripts/LiteralUnions/Owners.antt =====
-- Which uses of a literal scripts/lint-literal-unions.ts reports as leaked.
use es_ts_example.Common.{
  ◌≡◌, refl, ap, ◌∙◌, ◌||◌, ◌&&◌, not, Bool, Bool-cases, inl, inr, ◌==◌, eq_iff, none, some, String,
  List, [], ◌∷◌, map, contains, rec_get, arith, if◌then◌else◌,
}
use es_ts_example.Application.Counter.{group_by}
use es_ts_example.Application.Counter.Listing.{ids_in, contains-ids_in, group_of, group_by-eq-table}
use es_ts_example.Scripts.Policy.{some_of}
use mathlib.Core.List
use es_ts_example.Scripts.MutationReports.{flat_map}
use es_ts_example.Scripts.LiteralUnions.{
  all_elsewhere, LiteralSite, MemberUse, definitions, defining_files_by_member, every, leaked_use,
}

rec_get-table :
    {A : Type 0} (f : String → A) (ids : List String) (k : String)
    → rec_get (map (λ i. (i, f i)) ids) k ≡ (if contains ids k then some (f k) else none)
unfolding rec_get contains
rec_get-table f [] k = refl
rec_get-table f (i ∷ ids) k = elim (Bool-cases (i == k)) [
  | inl e ↦ rw e (ap (λ x. some (f x)) ((eq_iff i k).0 e))
  | inr e ↦ rw e (rec_get-table f ids k)
]

-- A definition of the member of a use; and one in the file of the use.
abbrev pub defines : MemberUse → String × String → Bool
defines found definition = definition.0 == found.member

abbrev pub at_home : MemberUse → String × String → Bool
at_home found definition = definition.0 == found.member && definition.1 == found.file

contains-map :
    (found : MemberUse) (list : List (String × String))
    → contains (map (λ d. d.0) list) found.member ≡ some_of (defines found) list
unfolding contains some_of
contains-map found [] = refl
contains-map found (d ∷ list) = ap (λ b. d.0 == found.member || b) (contains-map found list)

every-group :
    (found : MemberUse) (list : List (String × String))
    → every (λ d. not (d.1 == found.file)) (group_of (λ d. d.0) list found.member)
      ≡ not (some_of (at_home found) list)
unfolding every some_of
every-group found [] = refl
every-group found (d ∷ list) = elim (Bool-cases (d.0 == found.member)) [
  | inl e ↦ rw e (ground (arith, every-group found list))
  | inr e ↦ rw e (every-group found list)
]

groups :
    (found : MemberUse) (list : List (String × String))
    → rec_get (group_by (λ d. d.0) list) found.member ≡ (
        if some_of (defines found) list then some (group_of (λ d. d.0) list found.member) else none)
groups found list =
    rw
      (
        group_by-eq-table (λ d. d.0) list,
        rec_get-table (group_of (λ d. d.0) list) (ids_in (map (λ d. d.0) list)) found.member,
        contains-ids_in (map (λ d. d.0) list) found.member,
        contains-map found list,
      )
      refl

elsewhere :
    (found : MemberUse) (list : List (String × String))
    → all_elsewhere found (rec_get (group_by (λ d. d.0) list) found.member)
      ≡ (some_of (defines found) list && not (some_of (at_home found) list))
elsewhere found list = rw (groups found list) (elim (Bool-cases (some_of (defines found) list)) [
  | inl e ↦ rw e (every-group found list)
  | inr e ↦ rw e refl
])

-- A site of a union that has the member of a use; and one in the file of the use.
abbrev pub has_member : MemberUse → LiteralSite → Bool
has_member found site = some_of (λ member. member == found.member) site.members

abbrev pub has_member_at_home : MemberUse → LiteralSite → Bool
has_member_at_home found site = has_member found site && site.file == found.file

some_of-append :
    {A : Type 0} (p : A → Bool) (xs ys : List A)
    → some_of p (List.◌++◌ xs ys) ≡ (some_of p xs || some_of p ys)
unfolding some_of
some_of-append p [] ys = refl
some_of-append p (x ∷ xs) ys = ground (arith, some_of-append p xs ys)

some_of-own :
    (found : MemberUse) (file : String) (members : List String)
    → some_of (defines found) (map (λ member. (member, file)) members)
      ≡ some_of (λ member. member == found.member) members
unfolding some_of
some_of-own found file [] = refl
some_of-own found file (m ∷ members) =
    ap (λ b. m == found.member || b) (some_of-own found file members)

some_of-home :
    (found : MemberUse) (file : String) (members : List String)
    → some_of (at_home found) (map (λ member. (member, file)) members)
      ≡ (some_of (λ member. member == found.member) members && file == found.file)
unfolding some_of
some_of-home found file [] = refl
some_of-home found file (m ∷ members) = ground (arith, some_of-home found file members)

defines-sites :
    (found : MemberUse) (sites : List LiteralSite)
    → some_of (defines found) (definitions sites) ≡ some_of (has_member found) sites
unfolding some_of flat_map
defines-sites found [] = refl
defines-sites found (site ∷ sites) = rw (
  some_of-append (defines found) (map (λ member. (member, site.file)) site.members) _,
  some_of-own found site.file site.members,
  defines-sites found sites,
)

at_home-sites :
    (found : MemberUse) (sites : List LiteralSite)
    → some_of (at_home found) (definitions sites) ≡ some_of (has_member_at_home found) sites
unfolding some_of flat_map
at_home-sites found [] = refl
at_home-sites found (site ∷ sites) = rw (
  some_of-append (at_home found) (map (λ member. (member, site.file)) site.members) _,
  some_of-home found site.file site.members,
  at_home-sites found sites,
)

-- A use is reported exactly if some site has its member, and no site in its own file has it.
pub leaked_use_lem :
    (sites : List LiteralSite) (found : MemberUse)
    → leaked_use sites found
      ≡ (some_of (has_member found) sites && not (some_of (has_member_at_home found) sites))
unfolding leaked_use defining_files_by_member
leaked_use_lem sites found =
    elsewhere found (definitions sites) ∙ rw (defines-sites found sites, at_home-sites found sites)
