-- ===== src/Web/Views/Shows.antt =====
-- What the counter page of packages/web/src/views/pages/CounterPage.view.tsx shows of its rows.
use Prim.Native.String.{String, ◌++◌}
use package.text.Mathlib.TextLemmas.{append-nil, append_assoc, nil-append}
use es_ts_example.Common.{ℕ, ◌≡◌, sym, ap, ◌∙◌, Option, List, [], ◌∷◌, map, All}
use es_ts_example.Common.Decimal.{show}
use es_ts_example.Application.Counter.{
  CounterSummary, active_counter_summary, disabled_counter_summary,
}
use es_ts_example.Web.Html.{
  Html, text, markup, no_more, more, Children, render_child, render_children, escape_html,
  html_document,
}
use es_ts_example.Web.Html.Element.{Attributes, named, element, fragment, render_attributes}
use es_ts_example.Web.Models.{HtmlDocumentModel}
use es_ts_example.Web.Factories.CounterPage.{
  CounterPageError, make_row, make_list, make_counter_page_model,
}
use es_ts_example.Web.Views.{is, one, each, html_document_view}
use es_ts_example.Web.Views.Markup.{fragment-render_children}
use es_ts_example.Web.Views.CounterPage.{counter_row_view, counter_list_view, counter_page_view}

-- A text holds another in one piece.
pub record Shows (page part : String) : Type 0 where
  pub before : String
  pub after : String
  pub split : page ≡ before ++ (part ++ after)

Shows-left : {page part : String} (s : String) → Shows page part → Shows (s ++ page) part
Shows-left {page} {part} s shown = record {
  before = s ++ shown.before;
  after = shown.after;
  split = ap (λ t. s ++ t) shown.split ∙ sym (append_assoc s shown.before _);
}

Shows-right : {page part : String} (s : String) → Shows page part → Shows (page ++ s) part
Shows-right {page} {part} s shown = record {
  before = shown.before;
  after = shown.after ++ s;
  split =
      ap (λ t. t ++ s) shown.split
      ∙ append_assoc shown.before (part ++ shown.after) s
      ∙ ap (λ t. shown.before ++ t) (append_assoc part shown.after s);
}

-- An element shows what its children show.
element-Shows :
    {part : String} (tag : String) (attributes : Attributes) (inner : Children)
    → Shows (render_children inner) part
    → Shows (element (named tag) attributes inner).value part
unfolding element
element-Shows tag attributes inner shown = Shows-left "<" (
    Shows-left tag (
      Shows-left (render_attributes attributes) (
        Shows-left ">"
          (rw (fragment-render_children inner) (Shows-right ("</" ++ (tag ++ ">")) shown)))))

first-Shows :
    {part : String} (h : Html) (rest : Children)
    → Shows h.value part
    → Shows (render_children (more (markup h) rest)) part
unfolding render_child
first-Shows h rest shown = Shows-right (render_children rest) shown

rest-Shows :
    {part : String} (h : Html) (rest : Children)
    → Shows (render_children rest) part
    → Shows (render_children (more (markup h) rest)) part
unfolding render_child
rest-Shows h rest shown = Shows-left h.value shown

-- A cell of a row.
abbrev cell : String → String → String
cell head s = head ++ (escape_html s ++ "</span>")

abbrev cells : String → ℕ → String → ℕ → String
cells i value status version =
    cell "<span class=\"font-mono font-semibold\" data-role=\"counter-id\">" i
    ++ (cell "<span class=\"font-mono\" data-role=\"counter-value\">" ("value=" ++ show value)
        ++ (cell "<span class=\"font-mono\" data-role=\"counter-status\">" ("status=" ++ status)
            ++ cell "<span class=\"font-mono text-base-content/60\" data-role=\"counter-version\">"
                ("version=" ++ show version)))

-- The four cells of a counter, one behind the other: its id, its value, whether it is disabled, and its
-- version, the texts escaped.
abbrev pub row_text : CounterSummary → String
row_text (active_counter_summary i value version) = cells i value "active" version
row_text (disabled_counter_summary i value version) = cells i value "disabled" version

span_lem :
    (attributes : Attributes) (s : String)
    → (element (named "span") attributes (one (text s))).value
      ≡ cell ("<span" ++ (render_attributes attributes ++ ">")) s
unfolding element fragment render_child
span_lem attributes s =
    let a = render_attributes attributes in
    let rest = escape_html s ++ "</span>" in
    rw (append-nil (escape_html s)) (
      sym (append_assoc "<" "span" _)
      ∙ sym
          (append_assoc "<span" (a ++ ">") rest ∙ ap (λ t. "<span" ++ t) (append_assoc a ">" rest)))

four : (a b c d r : String) → a ++ (b ++ (c ++ (d ++ r))) ≡ "" ++ ((a ++ (b ++ (c ++ d))) ++ r)
four a b c d r = sym (
    nil-append _
    ∙ append_assoc a (b ++ (c ++ d)) r
    ∙ ap (λ t. a ++ t) (append_assoc b (c ++ d) r ∙ ap (λ t. b ++ t) (append_assoc c d r)))

-- Four pieces of markup in a row.
four-Shows :
    (a b c d : Html) (rest : Children)
    → Shows
        (render_children
          (more (markup a) (more (markup b) (more (markup c) (more (markup d) rest)))))
        (a.value ++ (b.value ++ (c.value ++ d.value)))
unfolding render_child
four-Shows a b c d rest = record {
  before = "";
  after = render_children rest;
  split = four a.value b.value c.value d.value (render_children rest);
}

cells-Shows :
    (i status : String) (value version : ℕ) (rest : Children)
    → Shows
        (render_children (
          more
            (markup (
              element
                (named "span")
                (is "className" "font-mono font-semibold" ∷ is "data-role" "counter-id" ∷ [])
                (one (text i))))
            (more
              (markup (
                element
                  (named "span")
                  (is "className" "font-mono" ∷ is "data-role" "counter-value" ∷ [])
                  (one (text ("value=" ++ show value)))))
              (more
                (markup (
                  element
                    (named "span")
                    (is "className" "font-mono" ∷ is "data-role" "counter-status" ∷ [])
                    (one (text ("status=" ++ status)))))
                (more
                  (markup (
                    element
                      (named "span")
                      (is "className" "font-mono text-base-content/60"
                        ∷ is "data-role" "counter-version"
                        ∷ [])
                      (one (text ("version=" ++ show version)))))
                  rest)))))
        (cells i value status version)
unfolding render_attributes
cells-Shows i status value version rest =
    rw
      (
        ← span_lem (is "className" "font-mono font-semibold" ∷ is "data-role" "counter-id" ∷ []) i,
        ← span_lem (is "className" "font-mono" ∷ is "data-role" "counter-value" ∷ [])
            ("value=" ++ show value),
        ← span_lem (is "className" "font-mono" ∷ is "data-role" "counter-status" ∷ [])
            ("status=" ++ status),
        ← span_lem
            (is "className" "font-mono text-base-content/60"
              ∷ is "data-role" "counter-version"
              ∷ [])
            ("version=" ++ show version),
      )
      (four-Shows _ _ _ _ rest)

row-Shows : (row : CounterSummary) → Shows (counter_row_view (make_row row)).value (row_text row)
unfolding counter_row_view make_row
row-Shows (active_counter_summary i value version) =
    element-Shows "li" _ _ (cells-Shows i "active" value version _)
row-Shows (disabled_counter_summary i value version) =
    element-Shows "li" _ _ (cells-Shows i "disabled" value version _)

All-imp :
    {A : Type 0} (P Q : A → Type 0) (xs : List A) → ((x : A) → P x → Q x) → All P xs → All Q xs
All-imp P Q [] f h = tt
All-imp P Q (x ∷ xs) f (h, hs) = (f x h, All-imp P Q xs f hs)

rows-Shows :
    (rows : List CounterSummary)
    → All
        (λ row. Shows (render_children (each counter_row_view (map make_row rows))) (row_text row))
        rows
unfolding each
rows-Shows [] = tt
rows-Shows (row ∷ rows) = (
  first-Shows _ _ (row-Shows row),
  All-imp _ _ rows (λ other shown. rest-Shows (counter_row_view (make_row row)) _ shown)
      (rows-Shows rows),
)

list-Shows :
    (rows : List CounterSummary)
    → All (λ row. Shows (counter_list_view (make_list rows)).value (row_text row)) rows
unfolding counter_list_view make_list
list-Shows [] = tt
list-Shows (row ∷ rows) =
    All-imp _ _ (row ∷ rows) (λ other shown. element-Shows "ul" _ _ shown) (rows-Shows (row ∷ rows))

document-Shows :
    {part : String} (model : HtmlDocumentModel) (body : Html)
    → Shows body.value part
    → Shows (html_document_view model body).value part
unfolding html_document_view html_document
document-Shows model body shown = Shows-left "<!doctype html>" (
    element-Shows "html" _ _ (
      rest-Shows _ _ (first-Shows _ _ (element-Shows "body" _ _ (first-Shows body no_more shown)))))

-- The page shows every one of its rows.
pub counter_page_view-Shows :
    (rows : List CounterSummary) (error : Option CounterPageError) (i : Option String)
    → All
        (λ row.
          Shows (counter_page_view (make_counter_page_model rows error i)).value (row_text row))
        rows
unfolding counter_page_view make_counter_page_model
counter_page_view-Shows rows error i =
    All-imp _ _ rows
      (λ row shown. document-Shows _ _ (
        element-Shows "main" _ _
          (rest-Shows _ _ (rest-Shows _ _ (rest-Shows _ _ (first-Shows _ _ shown))))))
      (list-Shows rows)
