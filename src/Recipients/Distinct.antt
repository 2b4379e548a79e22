-- ===== src/Recipients/Distinct.antt =====
-- What `_customer_numbers` offers (erpnext_whatsapp_connection/api.py).
use erpnext_whatsapp_connect.Base.{
  String, Bool, true, false, ◌||◌, Option, none, some, List, [], ◌∷◌, ◌++◌, contains, str_eq,
  if◌then◌else◌, ◌≡◌, refl, arith, inl, inr, Bool-cases, All, All-append, eq_iff, subst,
  Option-cases,
}
use erpnext_whatsapp_connect.Py.Result.{ok, Result-cases, err-ne-ok, ok-injective}
use erpnext_whatsapp_connect.Py.Value.{Value, Fields, get, truthy}
use erpnext_whatsapp_connect.Site.Frappe.{Frappe}
use erpnext_whatsapp_connect.Number.{normalize_number}
use erpnext_whatsapp_connect.Number.Normal.{normalize_number_idem}
use erpnext_whatsapp_connect.Source.Document.{distinct_from}
use erpnext_whatsapp_connect.Recipients.{
  Recipient, Numbers, no_numbers, entry_of, add_new, text_in, add_number, add_fields, add_rows,
  add_contact, add_contacts, add_address, customer_numbers, phone_of, contact_source, rows_in,
  contact_names, linked, own_fields,
}

-- The list offers a number.
abbrev offers : String → List Recipient → Bool
offers a [] = false
offers a (r ∷ rs) = str_eq a r.value || offers a rs

-- No number is offered twice.
abbrev pub IsDistinct : List Recipient → Type 0
IsDistinct [] = Unit
IsDistinct (r ∷ rs) = (offers r.value rs ≡ false) × IsDistinct rs

-- A number that normalizing leaves alone.
abbrev pub IsNormal : Recipient → Type 0
IsNormal r = normalize_number r.value ≡ ok r.value

-- The list is distinct and normal, and `seen` holds what it offers.
record IsTidy (n : Numbers) : Type 0 where
  pub distinct : IsDistinct n.entries
  pub normal : All IsNormal n.entries
  pub same : (a : String) → contains a n.seen ≡ offers a n.entries

offers-append :
    (a : String) (rs : List Recipient) (r : Recipient)
    → offers a (rs ++ r ∷ []) ≡ (str_eq a r.value || offers a rs)
offers-append a [] r = refl
offers-append a (q ∷ rs) r = ground (arith, offers-append a rs r)

append-IsDistinct :
    (rs : List Recipient) (r : Recipient)
    → offers r.value rs ≡ false
    → IsDistinct rs
    → IsDistinct (rs ++ r ∷ [])
append-IsDistinct [] r h d = (refl, tt)
append-IsDistinct (q ∷ rs) r h (new, d) = (
  ground (arith, offers-append q.value rs r, eq_iff r.value q.value, eq_iff q.value r.value),
  append-IsDistinct rs r (ground arith) d,
)

add_new-IsTidy :
    (number source : String) (n : Numbers)
    → normalize_number number ≡ ok number
    → IsTidy n
    → IsTidy (add_new number source n)
unfolding add_new
add_new-IsTidy number source n h tidy = elim (Bool-cases (contains number n.seen)) [
  | inl e ↦ rw e tidy
  | inr e ↦ rw e (record {
    distinct =
        append-IsDistinct n.entries (entry_of number source) (rw (tidy.same number) at e)
          tidy.distinct;
    normal = All-append IsNormal n.entries (entry_of number source ∷ []) tidy.normal (h, tt);
    same = λ a. rw (offers-append a n.entries (entry_of number source)) (rw (tidy.same a));
  })
]

module _ (F : Frappe) where
  add_number-IsTidy :
      (v : Value) (source : String) (n : Numbers) → IsTidy n → IsTidy (add_number F v source n)
  unfolding add_number
  add_number-IsTidy v source n tidy = elim (Bool-cases (truthy v)) [
    | inr e ↦ rw e tidy
    | inl e ↦ elim (Result-cases (normalize_number (text_in F v))) [
      | inr (x, bad) ↦ rw (e, bad) tidy
      | inl (number, good) ↦
          rw (e, good) (add_new-IsTidy number source n (normalize_number_idem _ number good) tidy)
    ]
  ]

  if-IsTidy : (b : Bool) (m n : Numbers) → IsTidy m → IsTidy n → IsTidy (if b then m else n)
  if-IsTidy true m n h k = h
  if-IsTidy false m n h k = k

  add_fields-IsTidy :
      (names : List String) (fields : Fields) (n : Numbers)
      → IsTidy n
      → IsTidy (add_fields F names fields n)
  unfolding add_fields
  add_fields-IsTidy [] fields n tidy = tidy
  add_fields-IsTidy (name ∷ names) fields n tidy = add_fields-IsTidy names fields _ (
      if-IsTidy (F.has_field "Customer" name) _ n
        (add_number-IsTidy (get fields name) "Customer" n tidy) tidy)

  add_rows-IsTidy :
      (rows : List Value) (source : String) (n : Numbers)
      → IsTidy n
      → IsTidy (add_rows F rows source n)
  unfolding add_rows
  add_rows-IsTidy [] source n tidy = tidy
  add_rows-IsTidy (row ∷ rows) source n tidy =
      add_rows-IsTidy rows source _ (add_number-IsTidy (phone_of row) source n tidy)

  add_contact-IsTidy : (fields : Fields) (n : Numbers) → IsTidy n → IsTidy (add_contact F fields n)
  unfolding add_contact
  add_contact-IsTidy fields n tidy =
      let source = contact_source F fields in
      add_rows-IsTidy (rows_in (get fields "phone_nos")) source _ (
        add_number-IsTidy (get fields "phone") source _
          (add_number-IsTidy (get fields "mobile_no") source n tidy))

  add_contacts-IsTidy :
      (user : String) (names : List String) (n m : Numbers)
      → IsTidy n
      → add_contacts F user names n ≡ ok m
      → IsTidy m
  unfolding add_contacts
  add_contacts-IsTidy user [] n m tidy h = subst IsTidy (ok-injective n m h) tidy
  add_contacts-IsTidy user (name ∷ names) n m tidy h =
      elim (Option-cases (F.get_doc "Contact" name)) [
        | inl e ↦ absurd (err-ne-ok _ m (rw (e, add_contacts) at h))
        | inr (contact, e) ↦
            add_contacts-IsTidy user names _ m
              (if-IsTidy (F.may user "read" "Contact" name) _ n
                (add_contact-IsTidy contact.fields n tidy) tidy)
              (rw (e, add_contacts) at h)
      ]

  add_address-IsTidy :
      (user : String) (address : Option String) (n m : Numbers)
      → IsTidy n
      → add_address F user address n ≡ ok m
      → IsTidy m
  unfolding add_address
  add_address-IsTidy user none n m tidy h = subst IsTidy (ok-injective n m h) tidy
  add_address-IsTidy user (some name) n m tidy h = elim (Option-cases (F.get_doc "Address" name)) [
    | inl e ↦ absurd (err-ne-ok _ m (rw e at h))
    | inr (address, e) ↦ subst IsTidy (ok-injective _ m (rw e at h)) (
        if-IsTidy (F.may user "read" "Address" name) _ n
          (add_number-IsTidy (get address.fields "phone") "Customer Address" n tidy) tidy)
  ]

  no_numbers-IsTidy : IsTidy no_numbers
  no_numbers-IsTidy = record { distinct = tt; normal = tt; same = λ a. refl }

  -- The numbers that are offered for a customer are pairwise different as texts, and each is in the
  -- normal form: normalizing it gives the same text again.
  pub customer_numbers-IsDistinct :
      (user name : String) (rs : List Recipient)
      → customer_numbers F user name ≡ ok rs
      → IsDistinct rs × All IsNormal rs
  unfolding customer_numbers
  customer_numbers-IsDistinct user name rs h = elim (Option-cases (F.get_doc "Customer" name)) [
    | inl e ↦ absurd (err-ne-ok _ rs (rw (e, customer_numbers) at h))
    | inr (customer, e) ↦ elim (Bool-cases (F.may user "read" "Customer" name)) [
      | inr no_read ↦ absurd (err-ne-ok _ rs (rw (e, no_read, customer_numbers) at h))
      | inl reads ↦
          let names = distinct_from [] (contact_names F customer) in
          let start = add_fields F own_fields customer.fields no_numbers in
          let address = linked F "customer_primary_address" customer.fields in
          elim (Result-cases (add_contacts F user names start)) [
            | inr (x, bad) ↦ absurd (err-ne-ok x rs (rw (e, reads, bad, customer_numbers) at h))
            | inl (n, good) ↦
                let tidy =
                  add_contacts-IsTidy user names start n
                    (add_fields-IsTidy own_fields customer.fields no_numbers no_numbers-IsTidy)
                    good in
                elim (Result-cases (add_address F user address n)) [
                  | inr (x, bad) ↦
                      absurd (err-ne-ok x rs (rw (e, reads, good, bad, customer_numbers) at h))
                  | inl (found, last) ↦
                      let done = add_address-IsTidy user address n found tidy last in
                      let same : found.entries ≡ rs =
                        ok-injective found.entries rs
                          (rw (e, reads, good, last, customer_numbers) at h) in
                      (subst IsDistinct same done.distinct, subst (All IsNormal) same done.normal)
                ]
          ]
    ]
  ]
