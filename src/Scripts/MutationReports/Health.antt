-- ===== src/Scripts/MutationReports/Health.antt =====
-- When scripts/lint-mutation-report-health.ts reports nothing.
use Prim.Native.String.{String}
use es_ts_example.Common.{
  ℕ, ◌≡◌, ◌≢◌, ◌↔◌, refl, ap, ◌++◌, zero, suc, inl, inr, Bool-cases, Option, none, some, List, [],
  ◌∷◌, All, filter_map, arith, eq_iff, nat_beq, nat_beq_ne, if◌then◌else◌, ◌==◌,
}
use mathlib.Core.Option.{get_or}
use es_ts_example.Scripts.MutationReports.{
  MutantJson, mutant, no_object, MutationFile, object_status, health_violations, report_summary,
  MutationReport, flat_map, mutants_from_report, count_status, report_violations,
}

-- A mutant that was killed, timed out or did not compile: any but one that survived or was not covered.
abbrev pub IsCaught : Option String → Type 0
IsCaught status = (status ≢ some "Survived") × (status ≢ some "NoCoverage")

some_inj : {a b : String} → some a ≡ some b → a ≡ b
some_inj e = cc

none_counted :
    (status : String) (mutants : List (Option String))
    → (count_status mutants status ≡ 0) ↔ All (λ found. found ≢ some status) mutants
unfolding count_status
none_counted status [] = (λ _. tt, λ _. refl)
none_counted status (none ∷ rest) =
    (λ h. (λ e. cc, (none_counted status rest).0 h), λ (_, h). (none_counted status rest).1 h)
none_counted status (some found ∷ rest) = elim (Bool-cases (found == status)) [
  | inl same ↦ (
    λ h. absurd (omega (arith, rw same at h)),
    λ (ne, _). absurd (ne (ap some ((eq_iff found status).0 same))),
  )
  | inr other ↦ (
    λ h. (
      λ e. ground (arith, eq_iff found status, some_inj e),
      (none_counted status rest).0 (rw other at h),
    ),
    λ (_, h). rw other ((none_counted status rest).1 h),
  )
]

pub both_empty : {A : Type 0} (xs ys : List A) → (xs ++ ys ≡ []) ↔ ((xs ≡ []) × (ys ≡ []))
both_empty [] ys = (λ h. (refl, h), λ (_, h). h)
both_empty (x ∷ xs) ys = (λ h. cc, λ (h, _). cc)

reported : (n : ℕ) (message : String) → ((if nat_beq n 0 then [] else message ∷ []) ≡ []) ↔ (n ≡ 0)
reported zero message = (λ _. refl, λ _. refl)
reported (suc n) message = (
  λ h.
      let listed : message ∷ [] ≡ [] = rw (nat_beq_ne (suc n) 0 (λ e. omega (arith, e))) at h in cc,
  λ h. absurd (omega (arith, h)),
)

All-both :
    {A : Type 0} (P Q : A → Type 0) (xs : List A) → (All P xs × All Q xs) ↔ All (λ x. P x × Q x) xs
All-both P Q [] = (λ _. tt, λ _. (tt, tt))
All-both P Q (x ∷ xs) = (
  λ ((p, ps), (q, qs)). ((p, q), (All-both P Q xs).0 (ps, qs)),
  λ ((p, q), rest). let (ps, qs) = (All-both P Q xs).1 rest in ((p, ps), (q, qs)),
)

healthy :
    (path : String) (report : MutationReport)
    → (health_violations (report_summary path report) ≡ [])
      ↔ All IsCaught (mutants_from_report report)
unfolding health_violations report_summary
healthy path report =
    let mutants = mutants_from_report report in
    (
      λ h.
          let (survived, uncovered) = (both_empty _ _).0 h in
          (All-both _ _ mutants).0 (
            (none_counted "Survived" mutants).0 ((reported _ _).0 survived),
            (none_counted "NoCoverage" mutants).0 ((reported _ _).0 uncovered),
          ),
      λ h.
          let (survived, uncovered) = (All-both _ _ mutants).1 h in
          (both_empty _ _).1 (
            (reported _ _).1 ((none_counted "Survived" mutants).1 survived),
            (reported _ _).1 ((none_counted "NoCoverage" mutants).1 uncovered),
          ),
    )

-- A mutant as a report has it: what is no object counts for none.
abbrev pub IsCaughtMutant : MutantJson → Type 0
IsCaughtMutant (mutant status) = IsCaught status
IsCaughtMutant no_object = Unit

-- A file of a report: mutants that are no array count for none.
abbrev pub IsCaughtFile : MutationFile → Type 0
IsCaughtFile file = elim file.mutants [ none ↦ Unit | some mutants ↦ All IsCaughtMutant mutants ]

-- A report: files that are no object count for none.
abbrev pub IsCaughtReport : MutationReport → Type 0
IsCaughtReport report = elim report.files [
  | none ↦ Unit
  | some files ↦ All (λ file. IsCaughtFile file.1) files
]

statuses : List MutantJson → List (Option String)
statuses = filter_map object_status

statuses-IsCaught :
    (mutants : List MutantJson) → All IsCaught (statuses mutants) ↔ All IsCaughtMutant mutants
unfolding statuses filter_map
statuses-IsCaught [] = (λ _. tt, λ _. tt)
statuses-IsCaught (mutant status ∷ rest) =
    (λ (h, hs). (h, (statuses-IsCaught rest).0 hs), λ (h, hs). (h, (statuses-IsCaught rest).1 hs))
statuses-IsCaught (no_object ∷ rest) =
    (λ hs. (tt, (statuses-IsCaught rest).0 hs), λ (_, hs). (statuses-IsCaught rest).1 hs)

All-split :
    {A : Type 0} (P : A → Type 0) (xs ys : List A) → All P (xs ++ ys) ↔ (All P xs × All P ys)
All-split P [] ys = (λ h. (tt, h), λ (_, h). h)
All-split P (x ∷ xs) ys = (
  λ (h, hs). let (l, r) = (All-split P xs ys).0 hs in ((h, l), r),
  λ ((h, l), r). (h, (All-split P xs ys).1 (l, r)),
)

file-IsCaught :
    (mutants : Option (List MutantJson))
    → All IsCaughtMutant (get_or mutants []) ↔ IsCaughtFile (record { mutants = mutants })
file-IsCaught none = (λ _. tt, λ _. tt)
file-IsCaught (some mutants) = (λ h. h, λ h. h)

files-IsCaught :
    (files : List (String × MutationFile))
    → All IsCaughtMutant (flat_map (λ file. get_or file.1.mutants []) files)
      ↔ All (λ file. IsCaughtFile file.1) files
unfolding flat_map
files-IsCaught [] = (λ _. tt, λ _. tt)
files-IsCaught (file ∷ rest) =
    let own = file-IsCaught file.1.mutants in
    let split = All-split IsCaughtMutant (get_or file.1.mutants []) _ in
    (
      λ h. let (l, r) = split.0 h in (own.0 l, (files-IsCaught rest).0 r),
      λ (l, r). split.1 (own.1 l, (files-IsCaught rest).1 r),
    )

read-IsCaught :
    (files : Option (List (String × MutationFile)))
    → All IsCaught (mutants_from_report (record { files = files }))
      ↔ IsCaughtReport (record { files = files })
unfolding mutants_from_report flat_map statuses
read-IsCaught none = (λ _. tt, λ _. tt)
read-IsCaught (some files) =
    let read = statuses-IsCaught (flat_map (λ file. get_or file.1.mutants []) files) in
    (λ h. (files-IsCaught files).0 (read.0 h), λ h. read.1 ((files-IsCaught files).1 h))

report-IsCaught :
    (report : MutationReport) → All IsCaught (mutants_from_report report) ↔ IsCaughtReport report
report-IsCaught report = read-IsCaught report.files

-- The check reports nothing exactly if no mutant in any file of any report survived or was left uncovered.
pub report_violations_lem :
    (reports : List (String × MutationReport))
    → (report_violations reports ≡ []) ↔ All (λ report. IsCaughtReport report.1) reports
unfolding report_violations flat_map
report_violations_lem [] = (λ _. tt, λ _. refl)
report_violations_lem (report ∷ reports) =
    let own = healthy report.0 report.1 in
    let caught = report-IsCaught report.1 in
    (
      λ h.
          let (first, rest) = (both_empty _ _).0 h in
          (caught.0 (own.0 first), (report_violations_lem reports).0 rest),
      λ (first, rest).
          (both_empty _ _).1 (own.1 (caught.1 first), (report_violations_lem reports).1 rest),
    )
