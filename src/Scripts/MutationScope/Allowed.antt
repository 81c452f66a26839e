-- ===== src/Scripts/MutationScope/Allowed.antt =====
-- Which entries scripts/lint-mutation-scope.ts lets a package keep out of mutation.
use Prim.Native.String.{String, [], ◌∷◌, ◌++◌}
use package.text.Mathlib.Text.{starts_with}
use es_ts_example.Common.{
  ◌≡◌, ◌≢◌, inl, inr, refl, sym, ap, false, ◌||◌, ◌&&◌, not, ◌==◌, eq_iff, str_ne, none, List, [],
  ◌∷◌, contains, rec_get, arith, Bool-cases, Bool-ext,
}
use es_ts_example.Common.Utf16.{utf16_length, suffix_of_length}
use es_ts_example.Scripts.Policy.{named_exception_allows_path}
use es_ts_example.Scripts.MutationScope.{
  web_i18n_mutation_entry_allowed, fixed_mutation_entry_allowed, mutation_entry_allowed,
  without_bang, fixed_mutation_exception_scopes,
}

-- The entries that the exceptions name, each for packages/web.
abbrev pub excepted : List String
excepted = "!src/mvc/jsx-runtime.ts" ∷ "!src/server.ts" ∷ "!src/index.ts" ∷ "!src/i18n/**/*.ts" ∷ []

-- A path in a directory is an allowed path exactly if the directory is that of the allowed path, where
-- both paths go on with the same text; and none, where they go on with another of the same length.
same_path : (d p s : String) → (p ++ s == d ++ s) ≡ (d == p)
same_path d p s =
    Bool-ext _ _
      (λ h.
        let same = suffix_of_length p d s s refl ((eq_iff (p ++ s) (d ++ s)).0 h) in
        (eq_iff d p).1 (sym same.0))
      (λ h. (eq_iff (p ++ s) (d ++ s)).1 (ap (λ x. x ++ s) (sym ((eq_iff d p).0 h))))

other_path :
    (d p s t : String) → utf16_length s ≡ utf16_length t → s ≢ t → (p ++ s == d ++ t) ≡ false
other_path d p s t h ne = str_ne (p ++ s) (d ++ t) (λ e. ne (suffix_of_length p d s t h e).1)

differ : (s t : String) → (s == t) ≡ false → s ≢ t
differ s t h e = ground (arith, eq_iff s t)

jsx_entry :
    (d : String)
    → named_exception_allows_path "mutation-runtime-boundaries" (d ++ "/src/mvc/jsx-runtime.ts")
      ≡ (d == "packages/web")
unfolding named_exception_allows_path utf16_length
jsx_entry d =
    rw
      (
        same_path d "packages/web" "/src/mvc/jsx-runtime.ts",
        other_path d "pac" "kages/web/src/server.ts" "/src/mvc/jsx-runtime.ts" refl
            (differ _ _ refl),
      )
      (ground arith)

server_entry :
    (d : String)
    → named_exception_allows_path "mutation-runtime-boundaries" (d ++ "/src/server.ts")
      ≡ (d == "packages/web")
unfolding named_exception_allows_path utf16_length
server_entry d =
    rw
      (
        same_path d "packages/web" "/src/server.ts",
        other_path d "packages/web/src/mvc/" "jsx-runtime.ts" "/src/server.ts" refl
            (differ _ _ refl),
      )
      (ground arith)

index_entry :
    (d : String)
    → named_exception_allows_path "mutation-public-barrel-boundaries" (d ++ "/src/index.ts")
      ≡ (d == "packages/web")
unfolding named_exception_allows_path
index_entry d = rw (same_path d "packages/web" "/src/index.ts") (ground arith)

i18n_entry :
    (d : String)
    → named_exception_allows_path "mutation-web-i18n-adapter-surface" (d ++ "/!src/i18n/**/*.ts")
      ≡ (d == "packages/web")
unfolding named_exception_allows_path
i18n_entry d = rw (same_path d "packages/web" "/!src/i18n/**/*.ts") (ground arith)

scope_of_none :
    (entry : String)
    → ("!src/mvc/jsx-runtime.ts" == entry) ≡ false
    → ("!src/server.ts" == entry) ≡ false
    → ("!src/index.ts" == entry) ≡ false
    → rec_get fixed_mutation_exception_scopes entry ≡ none
unfolding rec_get
scope_of_none entry n₁ n₂ n₃ = rw (n₁, n₂, n₃) refl

no_scope :
    (d entry : String)
    → rec_get fixed_mutation_exception_scopes entry ≡ none
    → fixed_mutation_entry_allowed d entry ≡ false
unfolding fixed_mutation_entry_allowed
no_scope d entry h = rw (fixed_mutation_entry_allowed, h) refl

-- What is allowed of an entry that keeps files out.
excluded_allowed :
    (d entry : String)
    → (fixed_mutation_entry_allowed d entry || web_i18n_mutation_entry_allowed d entry)
      ≡ (contains excepted entry && d == "packages/web")
unfolding fixed_mutation_entry_allowed web_i18n_mutation_entry_allowed rec_get contains without_bang
excluded_allowed d entry = elim (Bool-cases ("!src/mvc/jsx-runtime.ts" == entry)) [
  | inl e ↦ rw (← (eq_iff "!src/mvc/jsx-runtime.ts" entry).0 e) (rw (jsx_entry d) (ground arith))
  | inr n₁ ↦ elim (Bool-cases ("!src/server.ts" == entry)) [
    | inl e ↦ rw (← (eq_iff "!src/server.ts" entry).0 e) (rw (server_entry d) (ground arith))
    | inr n₂ ↦ elim (Bool-cases ("!src/index.ts" == entry)) [
      | inl e ↦ rw (← (eq_iff "!src/index.ts" entry).0 e) (rw (index_entry d) (ground arith))
      | inr n₃ ↦ elim (Bool-cases ("!src/i18n/**/*.ts" == entry)) [
        | inl e ↦ rw (← (eq_iff "!src/i18n/**/*.ts" entry).0 e) (rw (i18n_entry d) (ground arith))
        | inr n₄ ↦ rw (no_scope d entry (scope_of_none entry n₁ n₂ n₃), n₁, n₂, n₃, n₄) refl
      ]
    ]
  ]
]

-- An entry of a package is allowed exactly if it keeps nothing out, or the package is packages/web and
-- the entry is one of the four that the exceptions name.
pub mutation_entry_allowed_lem :
    (directory entry : String)
    → mutation_entry_allowed directory entry
      ≡ (not (starts_with entry "!") || contains excepted entry && directory == "packages/web")
unfolding mutation_entry_allowed
mutation_entry_allowed_lem directory entry = rw (excluded_allowed directory entry) (ground arith)
