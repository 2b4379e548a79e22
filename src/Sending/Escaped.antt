-- ===== src/Sending/Escaped.antt =====
-- The page of a report, and what its data can put into it (erpnext_whatsapp_connection/api.py,
-- `_report_pdf`).
use Prim.Native.Char.{code}
use Prim.Native.String as Text
use erpnext_whatsapp_connect.Base.{
  ℕ, zero, suc, String, Bool, true, false, ◌||◌, ◌==◌, List, [], ◌∷◌, ◌++◌, length, ◌≡◌, refl, sym,
  ap, ◌∙◌, if◌then◌else◌, inl, inr, Bool-cases,
}
use erpnext_whatsapp_connect.Py.Result.{Result, ok, bind-ok, check-passed, ok-injective, ◌>>=◌}
use erpnext_whatsapp_connect.Py.Value.{Value, str, Fields, or_else, dict}
use erpnext_whatsapp_connect.Py.Text.{concat}
use erpnext_whatsapp_connect.Gateway.{get_of}
use erpnext_whatsapp_connect.Site.Frappe.{Frappe, sorted}
use erpnext_whatsapp_connect.Recipients.{text_in}
use erpnext_whatsapp_connect.Sending.ReportPage.{
  escaped, escape, concat_all, Column, cell, list_of, element, normalize_columns, head_cells,
  row_cells, body_rows, page, report_html,
}

-- The characters that end a text inside an element or an attribute: <, >, " and '.
abbrev pub is_markup : ℕ → Bool
is_markup c = c == b'<' || c == b'>' || c == b'"' || c == 39

-- Those of a text, in their order.
abbrev pub markup : String → List ℕ
markup Text.[] = []
markup (Text.◌∷◌ c s) = let rest = markup s in if is_markup (code c) then code c ∷ rest else rest

abbrev pub markup_all : List String → List ℕ
markup_all [] = []
markup_all (s ∷ ss) = markup s ++ markup_all ss

markup-concat : (s t : String) → markup (concat s t) ≡ markup s ++ markup t
markup-concat Text.[] t = refl
markup-concat (Text.◌∷◌ c s) t = elim (Bool-cases (is_markup (code c))) [
  | inl e ↦ rw e (ap (λ xs. code c ∷ xs) (markup-concat s t))
  | inr e ↦ rw e (markup-concat s t)
]

markup-concat_all : (ss : List String) → markup (concat_all ss) ≡ markup_all ss
unfolding concat_all
markup-concat_all [] = refl
markup-concat_all (s ∷ ss) =
    markup-concat s (concat_all ss) ∙ ap (λ xs. markup s ++ xs) (markup-concat_all ss)

markup-branch :
    (b : Bool) (s t : String)
    → markup s ≡ []
    → (b ≡ false → markup t ≡ [])
    → markup (if b then s else t) ≡ []
markup-branch true s t h k = h
markup-branch false s t h k = k refl

escaped-markup :
    (c : ℕ) (keep : String)
    → (is_markup c ≡ false → markup keep ≡ [])
    → markup (escaped c keep) ≡ []
escaped-markup c keep h = markup-branch (c == b'&') "&amp;" _ refl (λ _.
    markup-branch (c == b'<') "&lt;" _ refl (λ less.
      markup-branch (c == b'>') "&gt;" _ refl (λ more.
        markup-branch (c == b'"') "&quot;" _ refl (λ quote.
          markup-branch (c == 39) "&#x27;" keep refl
            (λ tick. h (rw (less, more, quote, tick) refl))))))

-- An escaped text has no markup.
escape-markup : (s : String) → markup (escape s) ≡ []
unfolding escape
escape-markup Text.[] = refl
escape-markup (Text.◌∷◌ c s) =
    markup-concat (escaped (code c) (Text.◌∷◌ c Text.[])) (escape s)
    ∙ ap (λ xs. xs ++ markup (escape s))
        (escaped-markup (code c) (Text.◌∷◌ c Text.[]) (λ h. rw h refl))
    ∙ escape-markup s

abbrev pub repeat : ℕ → String → List String
repeat zero s = []
repeat (suc n) s = s ∷ repeat n s

cons-markup :
    (a b : String) (xs ys : List String)
    → markup a ≡ markup b
    → markup_all xs ≡ markup_all ys
    → markup_all (a ∷ xs) ≡ markup_all (b ∷ ys)
cons-markup a b xs ys h k = ap (λ zs. zs ++ markup_all xs) h ∙ ap (λ zs. markup b ++ zs) k

then-ok :
    {A B : Type 0} (m : Result A) (f : A → Result B) (a : A) (b : B)
    → m ≡ ok a
    → f a ≡ ok b
    → (m >>= f) ≡ ok b
then-ok m f a b h k = ap (λ r. r >>= f) h ∙ k

-- A row of the table without data.
abbrev pub blank_row : ℕ → String
blank_row n = concat "<tr>" (concat (concat_all (repeat n "<td></td>")) "</tr>")

row-markup :
    (cells cells' : List String)
    → markup_all cells ≡ markup_all cells'
    → markup (concat "<tr>" (concat (concat_all cells) "</tr>"))
      ≡ markup (concat "<tr>" (concat (concat_all cells') "</tr>"))
row-markup cells cells' h =
    let same : markup (concat_all cells) ≡ markup (concat_all cells') =
      markup-concat_all cells ∙ h ∙ sym (markup-concat_all cells') in
    markup-concat "<tr>" (concat (concat_all cells) "</tr>")
    ∙ ap (λ xs. markup "<tr>" ++ xs)
        (markup-concat (concat_all cells) "</tr>"
          ∙ ap (λ xs. xs ++ markup "</tr>") same
          ∙ sym (markup-concat (concat_all cells') "</tr>"))
    ∙ sym (markup-concat "<tr>" (concat (concat_all cells') "</tr>"))

module _ (F : Frappe) where
  -- The page of a table with so many columns and rows, without any data.
  abbrev pub blank_page : ℕ → ℕ → String
  blank_page columns rows =
      page F "" "" (repeat columns "<th></th>") (repeat rows (blank_row columns))

  head_cell-markup : (v : Value) → markup (element F "th" v) ≡ markup "<th></th>"
  head_cell-markup v =
      markup-concat_all _ ∙ rw (escape-markup (text_in F (or_else v (str "")))) refl

  data_cell-markup : (v : Value) → markup (element F "td" v) ≡ markup "<td></td>"
  data_cell-markup v =
      markup-concat_all _ ∙ rw (escape-markup (text_in F (or_else v (str "")))) refl

  head_cells-markup :
      (cs : List Column)
      → markup_all (head_cells F cs) ≡ markup_all (repeat (length cs) "<th></th>")
  unfolding head_cells
  head_cells-markup [] = refl
  head_cells-markup (c ∷ cs) =
      let v = or_else c.label c.fieldname in
      cons-markup (element F "th" v) "<th></th>" (head_cells F cs) (repeat (length cs) "<th></th>")
        (head_cell-markup v) (head_cells-markup cs)

  row_cells-markup :
      (columns cs : List Column) (row : Value) (cells : List String)
      → row_cells F columns cs row ≡ ok cells
      → markup_all cells ≡ markup_all (repeat (length cs) "<td></td>")
  unfolding row_cells
  row_cells-markup columns [] row cells h = ap markup_all (sym (ok-injective _ cells h))
  row_cells-markup columns (c ∷ cs) row cells h =
      let (v, _, h1) = bind-ok (cell columns row c.fieldname) _ cells h in
      let (rest, ran, h2) = bind-ok (row_cells F columns cs row) _ cells h1 in
      ap markup_all (sym (ok-injective _ cells h2))
      ∙ cons-markup (element F "td" v) "<td></td>" rest (repeat (length cs) "<td></td>")
          (data_cell-markup v) (row_cells-markup columns cs row rest ran)

  body_rows-markup :
      (columns : List Column) (rows : List Value) (body : List String)
      → body_rows F columns rows ≡ ok body
      → markup_all body ≡ markup_all (repeat (length rows) (blank_row (length columns)))
  unfolding body_rows
  body_rows-markup columns [] body h = ap markup_all (sym (ok-injective _ body h))
  body_rows-markup columns (row ∷ rows) body h =
      let (cells, made, h1) = bind-ok (row_cells F columns columns row) _ body h in
      let (rest, ran, h2) = bind-ok (body_rows F columns rows) _ body h1 in
      ap markup_all (sym (ok-injective _ body h2))
      ∙ cons-markup (concat "<tr>" (concat (concat_all cells) "</tr>")) (blank_row (length columns))
          rest (repeat (length rows) (blank_row (length columns)))
          (row-markup cells (repeat (length columns) "<td></td>")
            (row_cells-markup columns columns row cells made))
          (body_rows-markup columns rows rest ran)

  page-markup :
      (title filter_text : String) (head body head' body' : List String)
      → markup_all head ≡ markup_all head'
      → markup_all body ≡ markup_all body'
      → markup (page F title filter_text head body) ≡ markup (page F "" "" head' body')
  page-markup title filter_text head body head' body' h k =
      let heads : markup (concat_all head) ≡ markup (concat_all head') =
        markup-concat_all head ∙ h ∙ sym (markup-concat_all head') in
      let bodies : markup (concat_all body) ≡ markup (concat_all body') =
        markup-concat_all body ∙ k ∙ sym (markup-concat_all body') in
      markup-concat_all _
      ∙ rw (escape-markup title, escape-markup filter_text, heads, bodies, escape-markup "") refl
      ∙ sym (markup-concat_all _)

  -- The page of a report that is shown has the markup of a table without data that has as many columns
  -- and rows: the characters <, >, " and ' that it contains, in their order, depend only on how many
  -- columns are shown and how many rows the report has, whatever the report's name, its filters, the
  -- labels of its columns and its cells contain.
  pub report_html-markup :
      (name : String) (filters : Fields) (result : Value) (p : String)
      → report_html F name filters result ≡ ok p
      → (cs rs : List Value) × (shown : List Column) × ((get_of result "columns" >>= list_of)
          ≡ ok cs)
        × ((get_of result "result" >>= list_of) ≡ ok rs)
        × (normalize_columns F 0 cs ≡ ok shown)
        × (markup p ≡ markup (blank_page (length shown) (length rs)))
  unfolding report_html
  report_html-markup name filters result p h =
      let (given_columns, e1, h1) = bind-ok (get_of result "columns") _ p h in
      let (columns, e2, h2) = bind-ok (list_of given_columns) _ p h1 in
      let (given_rows, e3, h3) = bind-ok (get_of result "result") _ p h2 in
      let (rows, e4, h4) = bind-ok (list_of given_rows) _ p h3 in
      let (_, h5) = check-passed _ _ _ p h4 in
      let (shown, e5, h6) = bind-ok (normalize_columns F 0 columns) _ p h5 in
      let (body, e6, h7) = bind-ok (body_rows F shown rows) _ p h6 in
      (
        columns,
        rows,
        shown,
        then-ok (get_of result "columns") list_of given_columns columns e1 e2,
        then-ok (get_of result "result") list_of given_rows rows e3 e4,
        e5,
        ap markup (sym (ok-injective _ p h7))
            ∙ page-markup name (F.dumps sorted (dict filters)) (head_cells F shown) body
                (repeat (length shown) "<th></th>")
                (repeat (length rows) (blank_row (length shown))) (head_cells-markup shown)
                (body_rows-markup shown rows body e6),
      )
