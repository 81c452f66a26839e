-- ===== src/Web/Html.antt =====
-- packages/web/src/mvc/html.ts
pub mod Escape
pub mod Element
pub mod Jsx
use Prim.Native.Char.{Char, code}
use Prim.Native.String.{String, [], ◌∷◌, ◌++◌}
use mathlib.Core.List
use es_ts_example.Common.{Bool, true, false, ◌||◌, ◌==◌, List, nat_beq, if◌then◌else◌}

-- `Str.replaceAll` of a character.
unfoldable pub replace_all : Char → String → String → String
replace_all target replacement [] = []
replace_all target replacement (c ∷ s) =
    let rest = replace_all target replacement s in
    if nat_beq (code c) (code target) then replacement ++ rest else c ∷ rest

unfoldable pub escape_html : String → String
unfolding replace_all
escape_html value = replace_all "'" "&#39;" (
    replace_all "\"" "&quot;"
      (replace_all ">" "&gt;" (replace_all "<" "&lt;" (replace_all "&" "&amp;" value))))

pub record Html : Type 0 where
  pub value : String

-- `undefined`, `null` and `false` are `absent`; a number is given by its text, `String(n)`.
mutual
  pub data Child : Type 0 where
    markup : Html → Child
    text : String → Child
    number : String → Child
    yes : Child
    absent : Child
    children : Children → Child

  pub data Children : Type 0 where
    no_more : Children
    more : Child → Children → Children

unfoldable mutual
  unfolding escape_html

  pub render_child : Child → String
  render_child absent = ""
  render_child (markup h) = h.value
  render_child (children list) = render_children list
  render_child (text s) = escape_html s
  render_child (number s) = escape_html s
  render_child yes = escape_html "true"

  pub render_children : Children → String
  render_children no_more = ""
  render_children (more child rest) = render_child child ++ render_children rest

unfoldable pub html_document : Html → Html
html_document document = record { value = "<!doctype html>" ++ document.value }

unfoldable pub attribute_name : String → String
attribute_name name = if name == "className" then "class" else name

-- The value of an attribute: `undefined`, `null` or `false`; `true`; or anything else, by its text.
pub data AttributeValue : Type 0 where
  missing : AttributeValue
  present : AttributeValue
  given : String → AttributeValue

unfoldable pub attribute_renders_empty : String → AttributeValue → Bool
attribute_renders_empty name missing = true
attribute_renders_empty name _ = name == "children"

unfoldable pub rendered_value : String → AttributeValue → String
unfolding escape_html attribute_name
rendered_value name missing = ""
rendered_value name present = " " ++ attribute_name name
rendered_value name (given value) = " " ++ attribute_name name ++ "=\"" ++ escape_html value ++ "\""

unfoldable pub render_attribute : String → AttributeValue → String
unfolding attribute_renders_empty rendered_value
render_attribute name value =
    if attribute_renders_empty name value then "" else rendered_value name value
