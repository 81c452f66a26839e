-- ===== src/Web/Views/Markup.antt =====
-- What the texts of a model can do to the markup of a page (packages/web/src/views): nothing.
use Prim.Native.String.{String, [], ◌∷◌, ◌++◌}
use package.text.Mathlib.TextLemmas.{nil-append, cons-append}
use es_ts_example.Common.{
  ◌≡◌, refl, ap, sym, ◌==◌, ◌∙◌, Bool-cases, inl, inr, if◌then◌else◌, List, [], ◌∷◌, map,
}
use es_ts_example.Web.Html.{
  Html, markup, text, absent, children, Children, no_more, more, AttributeValue, missing, present,
  given, escape_html, render_child, render_children, render_attribute, rendered_value,
  attribute_renders_empty,
}
use es_ts_example.Web.Html.Escape.{is_markup, IsInert, escape_html-IsInert}
use es_ts_example.Web.Html.Element.{Attributes, render_attributes, fragment, named, element, concat}
use es_ts_example.Web.Views.{each}

-- The markup characters of a text, in order.
unfoldable pub skeleton : String → String
skeleton [] = []
skeleton (c ∷ s) = let rest = skeleton s in if is_markup c then c ∷ rest else rest

pub skeleton-append : (s t : String) → skeleton (s ++ t) ≡ skeleton s ++ skeleton t
unfolding skeleton
skeleton-append [] t = rw (nil-append, nil-append)
skeleton-append (c ∷ s) t = elim (Bool-cases (is_markup c)) [
  | inl e ↦ rw (cons-append c s t, e, skeleton-append s t, cons-append)
  | inr e ↦ rw (cons-append c s t, e, skeleton-append s t)
]

skeleton-IsInert : (s : String) → IsInert s → skeleton s ≡ ""
unfolding skeleton
skeleton-IsInert [] h = refl
skeleton-IsInert (c ∷ s) h = rw (h.0) (skeleton-IsInert s h.1)

skeleton-escape_html : (s : String) → skeleton (escape_html s) ≡ ""
skeleton-escape_html s = skeleton-IsInert (escape_html s) (escape_html-IsInert s)

-- Two fragments with the same markup characters in the same order; so for children.
pub record SameMarkup (a b : Html) : Type 0 where
  pub same : skeleton a.value ≡ skeleton b.value

pub record SameMarkups (a b : Children) : Type 0 where
  pub same : skeleton (render_children a) ≡ skeleton (render_children b)

-- The attributes without their texts.
abbrev outline_value : AttributeValue → AttributeValue
outline_value missing = missing
outline_value present = present
outline_value (given _) = given ""

abbrev pub outline : Attributes → Attributes
outline [] = []
outline (entry ∷ rest) = (entry.0, outline_value entry.1) ∷ outline rest

render_attribute-outline_value :
    (name : String) (value : AttributeValue)
    → skeleton (render_attribute name value)
      ≡ skeleton (render_attribute name (outline_value value))
unfolding render_attribute attribute_renders_empty rendered_value
render_attribute-outline_value name missing = refl
render_attribute-outline_value name present = refl
render_attribute-outline_value name (given value) = elim (Bool-cases (name == "children")) [
  | inl e ↦ rw e refl
  | inr e ↦ rw e (simp (skeleton-append, skeleton-escape_html value, skeleton-escape_html ""))
]

render_attributes-outline :
    (attributes : Attributes)
    → skeleton (render_attributes attributes) ≡ skeleton (render_attributes (outline attributes))
unfolding render_attributes concat
render_attributes-outline [] = refl
render_attributes-outline (entry ∷ rest) = rw (
  skeleton-append,
  render_attribute-outline_value entry.0 entry.1,
  render_attributes-outline rest,
  skeleton-append,
)

-- Attributes that differ in their texts at most.
pub record Alike (xs ys : Attributes) : Type 0 where
  pub alike : outline xs ≡ outline ys

render_attributes-Alike :
    (xs ys : Attributes)
    → Alike xs ys
    → skeleton (render_attributes xs) ≡ skeleton (render_attributes ys)
render_attributes-Alike xs ys h =
    render_attributes-outline xs
    ∙ ap (λ o. skeleton (render_attributes o)) h.alike
    ∙ sym (render_attributes-outline ys)

pub fragment-render_children :
    (inner : Children) → (fragment absent inner).value ≡ render_children inner
unfolding fragment render_child
fragment-render_children no_more = refl
fragment-render_children (more child rest) = refl

pub element-SameMarkup :
    (tag : String) {xs ys : Attributes} {inner outer : Children}
    → Alike xs ys
    → SameMarkups inner outer
    → SameMarkup (element (named tag) xs inner) (element (named tag) ys outer)
unfolding element
element-SameMarkup tag {xs} {ys} {inner} {outer} h k = record {
  same = simp (skeleton-append, fragment-render_children, render_attributes-Alike xs ys h, k.same);
}

pub none-SameMarkups : SameMarkups no_more no_more
none-SameMarkups = record { same = refl }

-- A text shows no markup.
pub text-SameMarkups :
    {s t : String} {xs ys : Children}
    → SameMarkups xs ys
    → SameMarkups (more (text s) xs) (more (text t) ys)
unfolding render_child
text-SameMarkups {s} {t} h = record {
  same = simp (skeleton-append, skeleton-escape_html s, skeleton-escape_html t, h.same);
}

pub markup-SameMarkups :
    {a b : Html} {xs ys : Children}
    → SameMarkup a b
    → SameMarkups xs ys
    → SameMarkups (more (markup a) xs) (more (markup b) ys)
unfolding render_child
markup-SameMarkups h k = record { same = simp (skeleton-append, h.same, k.same) }

pub children-SameMarkups :
    {a b xs ys : Children}
    → SameMarkups a b
    → SameMarkups xs ys
    → SameMarkups (more (children a) xs) (more (children b) ys)
unfolding render_child
children-SameMarkups h k = record { same = simp (skeleton-append, h.same, k.same) }

pub each-SameMarkups :
    {A : Type 0}
    → (view : A → Html) (change : A → A) → ((a : A) → SameMarkup (view a) (view (change a)))
    → (list : List A) → SameMarkups (each view list) (each view (map change list))
unfolding each
each-SameMarkups view change h [] = none-SameMarkups
each-SameMarkups view change h (a ∷ rest) =
    markup-SameMarkups (h a) (each-SameMarkups view change h rest)
