-- ===== src/Web/Html/Escape.antt =====
-- Escaping in packages/web/src/mvc/html.ts: five replacements, one after the other.
use Prim.Native.Char.{Char, code}
use Prim.Native.String.{String, [], ◌∷◌, ◌++◌}
use text.Mathlib.TextLemmas.{nil-append, cons-append, append_assoc}
use es_ts_example.Common.{
  ◌≡◌, refl, ap, ◌∙◌, Bool, false, ◌||◌, Bool-cases, inl, inr, arith, nat_beq, if◌then◌else◌,
}
use es_ts_example.Web.Html.{replace_all, escape_html}

-- What a reader of the page sees in place of a character.
abbrev pub entity : Char → String
entity c =
    if nat_beq (code c) 38
    then "&amp;"
    else if nat_beq (code c) 60
    then "&lt;"
    else if nat_beq (code c) 62
    then "&gt;"
    else if nat_beq (code c) 34
    then "&quot;"
    else if nat_beq (code c) 39
    then "&#39;"
    else c ∷ []

-- Each character by itself, in one pass.
pub entities : String → String
entities [] = []
entities (c ∷ s) = entity c ++ entities s

module _ (target : Char) (replacement : String) where
  replace_all-append :
      (s t : String)
      → replace_all target replacement (s ++ t)
        ≡ replace_all target replacement s ++ replace_all target replacement t
  unfolding replace_all
  replace_all-append [] t = rw (nil-append, nil-append)
  replace_all-append (c ∷ s) t = elim (Bool-cases (nat_beq (code c) (code target))) [
    | inl hit ↦ rw (cons-append c s t, hit, replace_all-append s t, append_assoc)
    | inr miss ↦ rw (cons-append c s t, miss, replace_all-append s t, cons-append)
  ]

escape_html-append : (s t : String) → escape_html (s ++ t) ≡ escape_html s ++ escape_html t
unfolding escape_html
escape_html-append s t = rw (
  replace_all-append "&" "&amp;" s t,
  replace_all-append "<" "&lt;" _ _,
  replace_all-append ">" "&gt;" _ _,
  replace_all-append "\"" "&quot;" _ _,
  replace_all-append "'" "&#39;" _ _,
)

cons_as_append : (c : Char) (s : String) → c ∷ s ≡ (c ∷ []) ++ s
cons_as_append c s = rw (cons-append c [] s, nil-append s)

escape_html-entity : (c : Char) → escape_html (c ∷ []) ≡ entity c
unfolding escape_html replace_all
escape_html-entity c = elim (Bool-cases (nat_beq (code c) 38)) [
  | inl amp ↦ rw (amp)
  | inr not_amp ↦ elim (Bool-cases (nat_beq (code c) 60)) [
    | inl lt ↦ rw (not_amp, lt)
    | inr not_lt ↦ elim (Bool-cases (nat_beq (code c) 62)) [
      | inl gt ↦ rw (not_amp, not_lt, gt)
      | inr not_gt ↦ elim (Bool-cases (nat_beq (code c) 34)) [
        | inl quot ↦ rw (not_amp, not_lt, not_gt, quot)
        | inr not_quot ↦ elim (Bool-cases (nat_beq (code c) 39)) [
          | inl apos ↦ rw (not_amp, not_lt, not_gt, not_quot, apos)
          | inr not_apos ↦ rw (not_amp, not_lt, not_gt, not_quot, not_apos)
        ]
      ]
    ]
  ]
]

-- The five replacements in sequence replace each character of the text by its own entity, and none of
-- what an earlier one put in.
pub escape_html-entities : (s : String) → escape_html s ≡ entities s
unfolding entities escape_html replace_all
escape_html-entities [] = refl
escape_html-entities (c ∷ s) =
    let split : escape_html (c ∷ s) ≡ escape_html (c ∷ []) ++ escape_html s =
      ap escape_html (cons_as_append c s) ∙ escape_html-append (c ∷ []) s in
    rw (split, escape_html-entity c, escape_html-entities s)

-- A character that markup could start or end with.
abbrev pub is_markup : Char → Bool
is_markup c =
    nat_beq (code c) 60 || nat_beq (code c) 62 || nat_beq (code c) 34 || nat_beq (code c) 39

-- A text without such a character.
abbrev pub IsInert : String → Type 0
IsInert [] = Unit
IsInert (c ∷ s) = (is_markup c ≡ false) × IsInert s

IsInert-append : (s t : String) → IsInert s → IsInert t → IsInert (s ++ t)
IsInert-append [] t h k = rw nil-append k
IsInert-append (c ∷ s) t h k = rw (cons-append c s t) (h.0, IsInert-append s t h.1 k)

entity-IsInert : (c : Char) → IsInert (entity c)
entity-IsInert c = elim (Bool-cases (nat_beq (code c) 38)) [
  | inl amp ↦ rw amp (refl, (refl, (refl, (refl, (refl, tt)))))
  | inr not_amp ↦ elim (Bool-cases (nat_beq (code c) 60)) [
    | inl lt ↦ rw (not_amp, lt) (refl, (refl, (refl, (refl, tt))))
    | inr not_lt ↦ elim (Bool-cases (nat_beq (code c) 62)) [
      | inl gt ↦ rw (not_amp, not_lt, gt) (refl, (refl, (refl, (refl, tt))))
      | inr not_gt ↦ elim (Bool-cases (nat_beq (code c) 34)) [
        | inl quot ↦
            rw (not_amp, not_lt, not_gt, quot) (refl, (refl, (refl, (refl, (refl, (refl, tt))))))
        | inr not_quot ↦ elim (Bool-cases (nat_beq (code c) 39)) [
          | inl apos ↦
              rw (not_amp, not_lt, not_gt, not_quot, apos)
                (refl, (refl, (refl, (refl, (refl, tt)))))
          | inr not_apos ↦ rw (not_amp, not_lt, not_gt, not_quot, not_apos) (ground arith, tt)
        ]
      ]
    ]
  ]
]

-- Escaped text holds no `<`, `>` or quote, whatever the text: it cannot open or close an element, nor
-- end the value of an attribute.
pub escape_html-IsInert : (s : String) → IsInert (escape_html s)
unfolding entities
escape_html-IsInert s = rw (escape_html-entities s) (all s)
  where
    all : (t : String) → IsInert (entities t)
    all [] = tt
    all (c ∷ t) = IsInert-append (entity c) (entities t) (entity-IsInert c) (all t)
