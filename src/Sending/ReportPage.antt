-- ===== src/Sending/ReportPage.antt =====
-- The page that shows a report's rows, of `_report_pdf` in erpnext_whatsapp_connection/api.py.
use Prim.Native.Char.{code}
use Prim.Native.String as Text
use erpnext_whatsapp_connect.Base.{
  ℕ, suc, String, Option, none, some, List, [], ◌∷◌, length, leb, ◌==◌, if◌then◌else◌,
}
use erpnext_whatsapp_connect.Py.Result.{
  validation, crash, Result, ok, err, check, or_error, ◌>>=◌, ◌>>◌,
}
use erpnext_whatsapp_connect.Py.Value.{
  Value, null, str, list, dict, nil, Fields, get, truthy, as_str, as_dict, as_list, or_else,
}
use erpnext_whatsapp_connect.Py.Equality.{value_eq}
use erpnext_whatsapp_connect.Py.Text.{concat}
use erpnext_whatsapp_connect.Site.Frappe.{Frappe, sorted}
use erpnext_whatsapp_connect.Gateway.{get_of}
use erpnext_whatsapp_connect.Recipients.{text_in}

-- `html.escape`.
abbrev pub escaped : ℕ → String → String
escaped c keep =
    if c == b'&'
    then "&amp;"
    else (if c == b'<'
        then "&lt;"
        else (if c == b'>'
            then "&gt;"
            else (if c == b'"' then "&quot;" else (if c == 39 then "&#x27;" else keep))))

unfoldable pub escape : String → String
escape Text.[] = Text.[]
escape (Text.◌∷◌ c s) = concat (escaped (code c) (Text.◌∷◌ c Text.[])) (escape s)

-- `column.split(":", 1)[0]`.
unfoldable pub before_colon : String → String
before_colon Text.[] = Text.[]
before_colon (Text.◌∷◌ c s) =
    let rest = before_colon s in if code c == b':' then Text.[] else Text.◌∷◌ c rest

unfoldable pub concat_all : List String → String
concat_all [] = ""
concat_all (s ∷ ss) = concat s (concat_all ss)

pub record Column : Type 0 where
  pub label : Value
  pub fieldname : Value

-- `dict(zip(fields, row)).get(field)`: the last of equal fields wins.
unfoldable pub zip_get : Value → List Column → List Value → Option Value
zip_get key [] vs = none
zip_get key (c ∷ cs) [] = none
zip_get key (c ∷ cs) (v ∷ vs) = elim (zip_get key cs vs) [
  | some w ↦ some w
  | none ↦ if value_eq c.fieldname key then some v else none
]

abbrev pub or_null : Option Value → Value
or_null none = null
or_null (some v) = v

-- `values.get(field)` in a row, which is a dict or a list.
abbrev pub cell : List Column → Value → Value → Result Value
cell columns row key = elim (as_dict row) [
  | some fields ↦ ok (elim (as_str key) [ none ↦ null | some k ↦ get fields k ])
  | none ↦ elim (as_list row) [
    | some values ↦ ok (or_null (zip_get key columns values))
    | none ↦ err (crash "the row is not iterable")
  ]
]

-- `xs or []`, as a list.
abbrev pub list_of : Value → Result (List Value)
list_of v = or_error (crash "object is not iterable") (as_list (or_else v (list nil)))

module _ (F : Frappe) where
  -- A column given by a text gets a field name from its position.
  abbrev pub text_column : ℕ → String → Column
  text_column i s = record {
    label = str (before_colon s);
    fieldname = str (concat "column_" (F.number_text i));
  }

  unfoldable pub normalize_columns : ℕ → List Value → Result (List Column)
  unfolding before_colon
  normalize_columns i [] = ok []
  normalize_columns i (v ∷ vs) = normalize_columns (suc i) vs >>= λ rest. elim (as_str v) [
    | some s ↦ ok (text_column i s ∷ rest)
    | none ↦ elim (as_dict v) [
      | none ↦ err (crash "object has no attribute 'get'")
      | some fields ↦ ok (
          if truthy (get fields "hidden")
          then rest
          else record { label = get fields "label"; fieldname = get fields "fieldname" } ∷ rest)
    ]
  ]

  -- `f"<{tag}>{escape(str(value or ''))}</{tag}>"`.
  abbrev pub element : String → Value → String
  element tag v =
      concat_all ("<" ∷ tag ∷ ">" ∷ escape (text_in F (or_else v (str ""))) ∷ "</" ∷ tag ∷ ">" ∷ [])

  unfoldable pub head_cells : List Column → List String
  unfolding escape concat_all
  head_cells [] = []
  head_cells (c ∷ cs) = element "th" (or_else c.label c.fieldname) ∷ head_cells cs

  -- The cells of one row, in the order of the columns that are left.
  unfoldable pub row_cells : List Column → List Column → Value → Result (List String)
  unfolding escape concat_all zip_get
  row_cells columns [] row = ok []
  row_cells columns (c ∷ cs) row = do
    v ← cell columns row c.fieldname
    rest ← row_cells columns cs row
    ok (element "td" v ∷ rest)

  unfoldable pub body_rows : List Column → List Value → Result (List String)
  unfolding row_cells concat_all
  body_rows columns [] = ok []
  body_rows columns (row ∷ rows) = do
    cells ← row_cells columns columns row
    rest ← body_rows columns rows
    ok (concat "<tr>" (concat (concat_all cells) "</tr>") ∷ rest)

  abbrev pub page : String → String → List String → List String → String
  page title filter_text head body = concat_all (
      "<html><head><style>body{font-family:sans-serif;font-size:9pt}"
      ∷ "table{border-collapse:collapse;width:100%}th,td{border:1px solid #ccc;padding:4px}"
      ∷ "th{background:#eee}</style></head><body>"
      ∷ "<h2>"
      ∷ escape title
      ∷ "</h2><p>"
      ∷ escape filter_text
      ∷ "</p><table><thead><tr>"
      ∷ concat_all head
      ∷ "</tr></thead>"
      ∷ "<tbody>"
      ∷ concat_all body
      ∷ "</tbody></table></body></html>"
      ∷ [])

  -- The page of a report's result, with at most 5,000 rows.
  unfoldable pub report_html : String → Fields → Value → Result String
  unfolding normalize_columns head_cells body_rows
  report_html name filters result = do
    given_columns ← get_of result "columns"
    columns ← list_of given_columns
    given_rows ← get_of result "result"
    rows ← list_of given_rows
    check (leb (length rows) 5000)
        (validation "Narrow the report filters to 5,000 rows or fewer before sending.")
    shown ← normalize_columns 0 columns
    body ← body_rows shown rows
    ok (page name (F.dumps sorted (dict filters)) (head_cells shown) body)
