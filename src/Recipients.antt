-- ===== src/Recipients.antt =====
-- The telephone numbers of a customer: `_add_number` and `_customer_numbers` of
-- erpnext_whatsapp_connection/api.py.
pub mod Distinct
use erpnext_whatsapp_connect.Base.{
  String, Bool, true, false, Option, none, some, List, [], ◌∷◌, ◌++◌, contains, if◌then◌else◌, ◌&&◌,
}
use erpnext_whatsapp_connect.Py.Result.{
  validation, permission, Result, ok, err, check, or_error, ◌>>=◌, ◌>>◌,
}
use erpnext_whatsapp_connect.Py.Value.{
  Value, null, str, Fields, get, truthy, as_str, as_dict, as_list,
}
use erpnext_whatsapp_connect.Py.Text.{concat}
use erpnext_whatsapp_connect.Site.Frappe.{Frappe, SourceDoc}
use erpnext_whatsapp_connect.Number.{normalize_number}
use erpnext_whatsapp_connect.Source.Document.{distinct_from}

-- An entry of the dialog's list of numbers, and the two collections that `_add_number` extends.
pub record Recipient : Type 0 where
  pub value : String
  pub label : String

pub record Numbers : Type 0 where
  pub entries : List Recipient
  pub seen : List String

abbrev pub no_numbers : Numbers
no_numbers = record { entries = []; seen = [] }

abbrev pub entry_of : String → String → Recipient
entry_of number source = record { value = number; label = concat number (concat " — " source) }

-- `if number not in seen`.
unfoldable pub add_new : String → String → Numbers → Numbers
add_new number source n =
    if contains number n.seen
    then n
    else record { entries = n.entries ++ entry_of number source ∷ []; seen = number ∷ n.seen }

-- The rows of the table `phone_nos`, and the number of one.
abbrev pub rows_in : Value → List Value
rows_in v = elim (as_list v) [ none ↦ [] | some rows ↦ rows ]

abbrev pub phone_of : Value → Value
phone_of row = elim (as_dict row) [ none ↦ null | some fields ↦ get fields "phone" ]

abbrev pub own_fields : List String
own_fields = "mobile_no" ∷ "phone" ∷ "phone_no" ∷ []

module _ (F : Frappe) where
  abbrev pub text_in : Value → String
  text_in v = elim (as_str v) [ none ↦ F.text_of v | some s ↦ s ]

  unfoldable pub add_number : Value → String → Numbers → Numbers
  unfolding add_new
  add_number v source n =
      if truthy v
      then (elim (normalize_number (text_in v)) [ ok number ↦ add_new number source n | err _ ↦ n ])
      else n

  unfoldable pub add_fields : List String → Fields → Numbers → Numbers
  unfolding add_number
  add_fields [] fields n = n
  add_fields (name ∷ names) fields n =
      add_fields names fields
        (if F.has_field "Customer" name then add_number (get fields name) "Customer" n else n)

  unfoldable pub add_rows : List Value → String → Numbers → Numbers
  unfolding add_number
  add_rows [] source n = n
  add_rows (row ∷ rows) source n = add_rows rows source (add_number (phone_of row) source n)

  abbrev pub contact_source : Fields → String
  contact_source fields = concat "Contact " (text_in (get fields "full_name"))

  unfoldable pub add_contact : Fields → Numbers → Numbers
  unfolding add_rows
  add_contact fields n =
      let source = contact_source fields in
      add_rows (rows_in (get fields "phone_nos")) source
        (add_number (get fields "phone") source (add_number (get fields "mobile_no") source n))

  unfoldable pub add_contacts : String → List String → Numbers → Result Numbers
  unfolding add_contact
  add_contacts user [] n = ok n
  add_contacts user (name ∷ names) n =
      or_error (validation "Contact not found") (F.get_doc "Contact" name) >>= λ contact.
      add_contacts user names
        (if F.may user "read" "Contact" name then add_contact contact.fields n else n)

  -- A link field of the customer that is in use.
  abbrev pub linked : String → Fields → Option String
  linked name fields =
      if F.has_field "Customer" name && truthy (get fields name)
      then as_str (get fields name)
      else none

  abbrev pub contact_names : SourceDoc → List String
  contact_names customer = elim (linked "customer_primary_contact" customer.fields) [
    | none ↦ F.contacts_of customer.name
    | some contact ↦ contact ∷ F.contacts_of customer.name
  ]

  unfoldable pub add_address : String → Option String → Numbers → Result Numbers
  unfolding add_number
  add_address user none n = ok n
  add_address user (some name) n =
      or_error (validation "Address not found") (F.get_doc "Address" name) >>= λ address. ok (
        if F.may user "read" "Address" name
        then add_number (get address.fields "phone") "Customer Address" n
        else n)

  unfoldable pub customer_numbers : String → String → Result (List Recipient)
  unfolding add_fields add_contacts add_address
  customer_numbers user name = do
    customer ← or_error (validation "Customer not found") (F.get_doc "Customer" name)
    check (F.may user "read" "Customer" name) (permission "Not permitted")
    n ←
        add_contacts user (distinct_from [] (contact_names customer))
          (add_fields own_fields customer.fields no_numbers)
    found ← add_address user (linked "customer_primary_address" customer.fields) n
    ok found.entries

  -- The customer that a document's field names.
  unfoldable pub customer_numbers_of : String → Value → Result (List Recipient)
  unfolding customer_numbers
  customer_numbers_of user v = elim (as_str v) [
    | none ↦ err (validation "Customer not found")
    | some name ↦ customer_numbers user name
  ]
