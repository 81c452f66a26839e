-- ===== src/Web/Html/Element.antt =====
-- Fragments and elements: the rest of packages/web/src/mvc/html.ts, and mvc/jsx-runtime.ts.
use Prim.Native.String.{String, ◌++◌}
use es_ts_example.Common.{
  Bool, true, false, ◌||◌, ◌&&◌, ◌==◌, not, Option, none, some, List, [], ◌∷◌, map, if◌then◌else◌,
}
use es_ts_example.Web.Html.{
  Html, Child, markup, text, number, yes, absent, children, Children, no_more, more, AttributeValue,
  render_child, render_children, render_attribute,
}

-- `Arr.join("")`
unfoldable pub concat : List String → String
concat [] = ""
concat (s ∷ rest) = s ++ concat rest

abbrev pub html : String → Html
html value = record { value = value }

unfoldable pub join_html : List Html → Html
unfolding concat
join_html fragments = html (concat (map (λ h. h.value) fragments))

-- The properties of an element but its children, in the order in which they were set.
abbrev pub Attributes : Type 0
Attributes = List (String × AttributeValue)

unfoldable pub render_attributes : Attributes → String
unfolding concat render_attribute
render_attributes attributes = concat (map (λ entry. render_attribute entry.0 entry.1) attributes)

-- `Fragment`, on `props?.children` and the rest arguments.
unfoldable pub fragment : Child → Children → Html
unfolding render_child
fragment props_children no_more = html (render_child props_children)
fragment props_children (more child rest) = html (render_children (more child rest))

-- A tag is the name of an element, or a component.
pub data Tag : Type 0 where
  named : String → Tag
  component : (Attributes → Html → Html) → Tag

-- `jsx` of html.ts
unfoldable pub element : Tag → Attributes → Children → Html
unfolding fragment render_attributes
element (component render) attributes inner = render attributes (fragment absent inner)
element (named tag) attributes inner = html (
    "<"
    ++ (tag
        ++ (render_attributes attributes
            ++ (">" ++ ((fragment absent inner).value ++ ("</" ++ (tag ++ ">")))))))

-- A value of the type `unknown`, by what the tests ask of it: `undefined` or `null`, the primitive values
-- (a number by its text), an object by its `kind` and `value` where they are texts and by what `String`
-- makes of it, an array, and anything else.
mutual
  pub data Given : Type 0 where
    given_nothing : Given
    given_false : Given
    given_true : Given
    given_text : String → Given
    given_number : String → Given
    given_object : (kind value : Option String) (shown : String) → Given
    given_array : Givens → Given
    given_other : (shown : String) → Given

  pub data Givens : Type 0 where
    no_givens : Givens
    more_givens : Given → Givens → Givens

pub record Props : Type 0 where
  pub attributes : Attributes
  pub children : Option Given

unfoldable pub is_primitive_child : Given → Bool
is_primitive_child given_nothing = true
is_primitive_child given_false = true
is_primitive_child given_true = true
is_primitive_child (given_text _) = true
is_primitive_child (given_number _) = true
is_primitive_child _ = false

unfoldable pub is_html_child : Given → Bool
is_html_child (given_object (some kind) _ _) = kind == "Html"
is_html_child _ = false

unfoldable mutual
  unfolding is_primitive_child is_html_child

  pub is_child : Given → Bool
  is_child (given_array list) =
      is_primitive_child (given_array list)
      || is_html_child (given_array list)
      || every_is_child list
  is_child given_nothing = is_primitive_child given_nothing || is_html_child given_nothing
  is_child given_false = is_primitive_child given_false || is_html_child given_false
  is_child given_true = is_primitive_child given_true || is_html_child given_true
  is_child (given_text s) = is_primitive_child (given_text s) || is_html_child (given_text s)
  is_child (given_number s) = is_primitive_child (given_number s) || is_html_child (given_number s)
  is_child (given_object kind value shown) =
      is_primitive_child (given_object kind value shown)
      || is_html_child (given_object kind value shown)
  is_child (given_other shown) =
      is_primitive_child (given_other shown) || is_html_child (given_other shown)

  -- `isChildArray`
  pub every_is_child : Givens → Bool
  every_is_child no_givens = true
  every_is_child (more_givens value rest) = is_child value && every_is_child rest

-- What `renderChild` of html.ts tells of an object: with a kind `"Html"` and a text as value it is markup,
-- else it is shown as its text.
unfoldable pub object_child : Option String → Option String → String → Child
object_child (some kind) (some value) shown =
    if kind == "Html" then markup (html value) else text shown
object_child _ _ shown = text shown

-- A value, as the child that html.ts takes it for.
unfoldable mutual
  unfolding object_child

  pub as_child : Given → Child
  as_child given_nothing = absent
  as_child given_false = absent
  as_child given_true = yes
  as_child (given_text s) = text s
  as_child (given_number s) = number s
  as_child (given_object kind value shown) = object_child kind value shown
  as_child (given_array list) = children (as_children list)
  as_child (given_other shown) = text shown

  pub as_children : Givens → Children
  as_children no_givens = no_more
  as_children (more_givens value rest) = more (as_child value) (as_children rest)

unfoldable pub normalize_children : Child → Children
normalize_children (children list) = list
normalize_children absent = more absent no_more
normalize_children (text s) = more (text s) no_more
normalize_children (number s) = more (number s) no_more
normalize_children yes = more yes no_more
normalize_children (markup h) = more (markup h) no_more

-- `none` where the code throws.
unfoldable pub children_from_props : Props → Option Children
unfolding is_child as_child normalize_children
children_from_props props = elim props.children [
  | none ↦ some no_more
  | some value ↦ if not (is_child value) then none else some (normalize_children (as_child value))
]

unfoldable pub props_without_children : Props → Attributes
props_without_children props = props.attributes

-- `jsx` and `jsxs` of jsx-runtime.ts; `none` where it throws.
unfoldable pub jsx : Tag → Props → Option Html
unfolding element children_from_props props_without_children
jsx tag props = elim (children_from_props props) [
  | none ↦ none
  | some inner ↦ some (element tag (props_without_children props) inner)
]
