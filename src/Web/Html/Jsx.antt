-- ===== src/Web/Html/Jsx.antt =====
-- The run-time tests of packages/web/src/mvc/jsx-runtime.ts.
use package.text.Mathlib.TextLemmas.{append-nil, append_assoc, nil-append}
use Prim.Native.String.{◌++◌}
use mathlib.Core.List
use es_ts_example.Common.{
  ◌≡◌, refl, sym, ap, ◌∙◌, Bool, true, false, ◌&&◌, ◌==◌, Bool-cases, inl, inr, Option, none, some,
  String, List, [], ◌∷◌, map, arith, if◌then◌else◌,
}
use es_ts_example.Web.Html.{
  Html, Child, markup, text, number, yes, absent, children, Children, no_more, more, render_child,
  render_children, escape_html,
}
use es_ts_example.Web.Html.Element.{
  named, element, html, Attributes, render_attributes, concat, object_child, props_without_children,
  fragment, Given, Givens, given_nothing, given_false, given_true, given_text, given_number,
  given_object, given_array, given_other, no_givens, more_givens, Props, is_child, every_is_child,
  as_child, as_children, normalize_children, children_from_props, jsx,
}

-- The values in a value that are no arrays, at whatever depth, in order.
unfoldable mutual
  pub leaves : Given → List Given
  leaves (given_array list) = leaves_in list
  leaves value = value ∷ []

  pub leaves_in : Givens → List Given
  leaves_in no_givens = []
  leaves_in (more_givens value rest) = List.◌++◌ (leaves value) (leaves_in rest)

-- Objects without the kind of markup, functions and symbols cannot be rendered.
abbrev pub renderable : Given → Bool
renderable (given_object none value shown) = false
renderable (given_object (some kind) value shown) = kind == "Html"
renderable (given_other shown) = false
renderable _ = true

abbrev pub all_renderable : List Given → Bool
all_renderable [] = true
all_renderable (value ∷ rest) = renderable value && all_renderable rest

-- The text of a leaf: markup as it is, nothing for what is absent, any other text escaped.
abbrev pub leaf_text : Given → String
leaf_text given_nothing = ""
leaf_text given_false = ""
leaf_text given_true = "true"
leaf_text (given_text s) = escape_html s
leaf_text (given_number s) = escape_html s
leaf_text (given_object (some kind) (some value) shown) =
    if kind == "Html" then value else escape_html shown
leaf_text (given_object _ _ shown) = escape_html shown
leaf_text (given_array list) = ""
leaf_text (given_other shown) = escape_html shown

all_renderable-append :
    (xs ys : List Given)
    → all_renderable (List.◌++◌ xs ys) ≡ (all_renderable xs && all_renderable ys)
all_renderable-append [] ys = refl
all_renderable-append (x ∷ xs) ys = ground (arith, all_renderable-append xs ys)

concat-append :
    (xs ys : List Given)
    → concat (map leaf_text (List.◌++◌ xs ys))
      ≡ concat (map leaf_text xs) ++ concat (map leaf_text ys)
unfolding concat
concat-append [] ys = sym (nil-append _)
concat-append (x ∷ xs) ys =
    ap (λ s. leaf_text x ++ s) (concat-append xs ys) ∙ sym (append_assoc (leaf_text x) _ _)

mutual
  unfolding is_child leaves

  is_child-leaves : (value : Given) → is_child value ≡ all_renderable (leaves value)
  is_child-leaves given_nothing = refl
  is_child-leaves given_false = refl
  is_child-leaves given_true = refl
  is_child-leaves (given_text s) = refl
  is_child-leaves (given_number s) = refl
  is_child-leaves (given_object none value shown) = refl
  is_child-leaves (given_object (some kind) value shown) = ground arith
  is_child-leaves (given_array list) = every_is_child-leaves list
  is_child-leaves (given_other shown) = refl

  every_is_child-leaves : (list : Givens) → every_is_child list ≡ all_renderable (leaves_in list)
  every_is_child-leaves no_givens = refl
  every_is_child-leaves (more_givens value rest) =
      rw (is_child-leaves value, every_is_child-leaves rest)
        (sym (all_renderable-append (leaves value) (leaves_in rest)))

render_object :
    (kind value : Option String) (shown : String)
    → render_child (object_child kind value shown) ≡ leaf_text (given_object kind value shown) ++ ""
unfolding object_child render_child
render_object none value shown = sym (append-nil _)
render_object (some kind) none shown = sym (append-nil _)
render_object (some kind) (some value) shown = elim (Bool-cases (kind == "Html")) [
  | inl e ↦ rw e (sym (append-nil _))
  | inr e ↦ rw e (sym (append-nil _))
]

mutual
  unfolding as_child leaves render_child concat

  render-leaves :
      (value : Given) → render_child (as_child value) ≡ concat (map leaf_text (leaves value))
  render-leaves given_nothing = refl
  render-leaves given_false = refl
  render-leaves given_true = refl
  render-leaves (given_text s) = sym (append-nil _)
  render-leaves (given_number s) = sym (append-nil _)
  render-leaves (given_object kind value shown) = render_object kind value shown
  render-leaves (given_array list) = render_children-leaves list
  render-leaves (given_other shown) = sym (append-nil _)

  render_children-leaves :
      (list : Givens) → render_children (as_children list) ≡ concat (map leaf_text (leaves_in list))
  render_children-leaves no_givens = refl
  render_children-leaves (more_givens value rest) =
      rw (render-leaves value, render_children-leaves rest)
        (sym (concat-append (leaves value) (leaves_in rest)))

-- What `children_from_props` makes of a child renders as the child.
render_normalized :
    (child : Child) → render_children (normalize_children child) ≡ render_child child
unfolding render_child normalize_children
render_normalized absent = refl
render_normalized (markup h) = append-nil h.value
render_normalized (text s) = append-nil _
render_normalized (number s) = append-nil _
render_normalized yes = refl
render_normalized (children list) = refl

-- The element of a tag around a text.
abbrev pub around : String → String → String → String
around tag attributes inner =
    "<" ++ (tag ++ (attributes ++ (">" ++ (inner ++ ("</" ++ (tag ++ ">"))))))

-- The element of a tag on what its properties hold as children.
abbrev pub expected : String → Attributes → Given → Option Html
expected tag attributes value =
    if all_renderable (leaves value)
    then some
        (html (around tag (render_attributes attributes) (concat (map leaf_text (leaves value)))))
    else none

fragment_inner : (list : Children) → (fragment absent list).value ≡ render_children list
unfolding fragment render_child
fragment_inner no_more = refl
fragment_inner (more child rest) = refl

children_from_props_lem :
    (props : Props) (value : Given)
    → props.children ≡ some value
    → children_from_props props
      ≡ (if all_renderable (leaves value) then some (normalize_children (as_child value)) else none)
unfolding children_from_props
children_from_props_lem props value h =
    rw (h, is_child-leaves value)
      (elim (Bool-cases (all_renderable (leaves value))) [ inl e ↦ rw e refl | inr e ↦ rw e refl ])

-- JSX with children throws exactly if something in them, arrays in arrays included, cannot be rendered: an
-- object that is not marked as markup, a function or a symbol. Else it gives the element of the tag with
-- the attributes and, behind one another, the texts of all that is in the children.
pub jsx_lem :
    (tag : String) (props : Props) (value : Given)
    → props.children ≡ some value
    → jsx (named tag) props ≡ expected tag props.attributes value
unfolding jsx element props_without_children
jsx_lem tag props value h =
    rw (jsx, children_from_props_lem props value h)
      (elim (Bool-cases (all_renderable (leaves value))) [
        | inl e ↦ rw (
          e,
          fragment_inner (normalize_children (as_child value)),
          render_normalized (as_child value),
          render-leaves value,
        )
        | inr e ↦ rw e refl
      ])
