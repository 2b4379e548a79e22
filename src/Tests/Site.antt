-- ===== src/Tests/Site.antt =====
-- A concrete site: the table is a list of rows, and the gateway answers every request.
use erpnext_whatsapp_connect.Site.Rows.{str_eq-ne}
use erpnext_whatsapp_connect.Base.{
  ap, ◌≤◌, ◌++◌, ℕ, zero, suc, ◌+◌, String, Bool, true, false, Option, none, some, List, [], ◌∷◌,
  ◌≡◌, refl, subst, str_eq, arith, eq_iff, All, contains, Bool-cases, Option-cases, inl, inr,
  if◌then◌else◌, pos, true-ne-false,
}
use Prim.Native.String as Text
use erpnext_whatsapp_connect.Py.Text.{concat, length}
use erpnext_whatsapp_connect.Py.Result.{ok}
use erpnext_whatsapp_connect.Py.Value.{Value, null, str, dict, end, field}
use erpnext_whatsapp_connect.Site.Records.{Delivery}
use erpnext_whatsapp_connect.Site.Frappe.{StoredFile, Frappe, IsLawful, response}

abbrev pub find : List Delivery → String → Option Delivery
find [] n = none
find (d ∷ t) n = if str_eq d.name n then some d else find t n

abbrev names : List Delivery → List String
names [] = []
names (d ∷ t) = d.name ∷ names t

abbrev holds : (Delivery → Bool) → Option Delivery → Bool
holds p none = false
holds p (some d) = p d

abbrev chosen : (Delivery → Bool) → List Delivery → List String → List String
chosen p t [] = []
chosen p t (n ∷ ns) = let rest = chosen p t ns in if holds p (find t n) then n ∷ rest else rest

abbrev first : ℕ → List String → List String
first zero ns = []
first (suc k) [] = []
first (suc k) (n ∷ ns) = n ∷ first k ns

abbrev limited : Option ℕ → List String → List String
limited none ns = ns
limited (some k) ns = first k ns

abbrev pub Selected : (Delivery → Bool) → List Delivery → String → Type 0
Selected p t n = (d : Delivery) × (find t n ≡ some d) × (p d ≡ true)

find-name : (t : List Delivery) (n : String) (d : Delivery) → find t n ≡ some d → d.name ≡ n
find-name [] n d h = cc
find-name (x ∷ t) n d h = ground (arith, find-name t n d, eq_iff x.name n)

Selected-of :
    (p : Delivery → Bool) (t : List Delivery) (n : String)
    → holds p (find t n) ≡ true
    → Selected p t n
Selected-of p t n h = elim (Option-cases (find t n)) [
  | inl e ↦ absurd (true-ne-false _ h (rw e))
  | inr (d, e) ↦ (d, e, rw e at h)
]

chosen-All :
    (p : Delivery → Bool) (t : List Delivery) (ns : List String)
    → All (Selected p t) (chosen p t ns)
chosen-All p t [] = tt
chosen-All p t (n ∷ ns) = elim (Bool-cases (holds p (find t n))) [
  | inl e ↦ rw e (Selected-of p t n e, chosen-All p t ns)
  | inr e ↦ rw e (chosen-All p t ns)
]

first-All : (P : String → Type 0) (k : ℕ) (ns : List String) → All P ns → All P (first k ns)
first-All P zero ns h = tt
first-All P (suc k) [] h = tt
first-All P (suc k) (n ∷ ns) (x, h) = (x, first-All P k ns h)

limited-All :
    (P : String → Type 0) (l : Option ℕ) (ns : List String) → All P ns → All P (limited l ns)
limited-All P none ns h = h
limited-All P (some k) ns h = first-All P k ns h

contains-names :
    (t : List Delivery) (n : String) (d : Delivery)
    → find t n ≡ some d
    → contains n (names t) ≡ true
contains-names [] n d h = cc
contains-names (x ∷ t) n d h =
    ground (arith, contains-names t n d, eq_iff x.name n, eq_iff n x.name)

contains-chosen :
    (p : Delivery → Bool) (t : List Delivery) (ns : List String) (n : String)
    → contains n ns ≡ true
    → holds p (find t n) ≡ true
    → contains n (chosen p t ns) ≡ true
contains-chosen p t [] n h k = cc
contains-chosen p t (m ∷ ns) n h k = elim (Bool-cases (str_eq n m)) [
  | inl e ↦ rw (subst (λ j. holds p (find t j) ≡ true) ((eq_iff n m).0 e) k) (rw e)
  | inr e ↦ later (holds p (find t m)) (contains-chosen p t ns n (rw e at h) k)
]
  where
    later :
        (b : Bool)
        → contains n (chosen p t ns) ≡ true
        → contains n (if b then m ∷ chosen p t ns else chosen p t ns) ≡ true
    later true h = ground arith
    later false h = h

-- A file's name is a tally of the files before it.
abbrev pub tally : List StoredFile → String
tally [] = "|"
tally (f ∷ fs) = concat "|" (tally fs)

abbrev pub file_at : List StoredFile → String → Option StoredFile
file_at [] n = none
file_at (f ∷ fs) Text.[] = none
file_at (f ∷ fs) (Text.◌∷◌ c Text.[]) = some f
file_at (f ∷ fs) (Text.◌∷◌ c (Text.◌∷◌ d n)) = file_at fs (Text.◌∷◌ d n)

-- A name that is longer than all names together.
abbrev unused : List Delivery → String
unused [] = "WA"
unused (d ∷ t) = concat d.name (unused t)

length-concat : (s t : String) → length (concat s t) ≡ length s + length t
length-concat Text.[] t = omega arith
length-concat (Text.◌∷◌ c s) t = omega (arith, length-concat s t)

unused_long : (t : List Delivery) → 2 ≤ length (unused t)
unused_long [] = omega arith
unused_long (d ∷ t) = omega (arith, length-concat d.name (unused t), unused_long t)

find_longer : (t : List Delivery) (s : String) → length (unused t) ≤ length s → find t s ≡ none
find_longer [] s h = refl
find_longer (d ∷ t) s h = elim (Bool-cases (str_eq d.name s)) [
  | inl e ↦ absurd (
      omega
        (arith, ap length ((eq_iff d.name s).0 e), length-concat d.name (unused t), unused_long t))
  | inr e ↦ rw e (find_longer t s (omega (arith, length-concat d.name (unused t))))
]

abbrev pub pdf_bytes : List ℕ
pdf_bytes = b'%' ∷ b'P' ∷ b'D' ∷ b'F' ∷ b'-' ∷ []

file_at-append :
    (fs : List StoredFile) (f : StoredFile) → file_at (fs ++ f ∷ []) (tally fs) ≡ some f
file_at-append [] f = refl
file_at-append (g ∷ []) f = refl
file_at-append (g ∷ (h ∷ fs)) f = file_at-append (h ∷ fs) f

file_at_keeps :
    (fs : List StoredFile) (f g : StoredFile) (n : String)
    → file_at fs n ≡ some g
    → file_at (fs ++ f ∷ []) n ≡ some g
file_at_keeps [] f g n h = cc
file_at_keeps (k ∷ fs) f g Text.[] h = cc
file_at_keeps (k ∷ fs) f g (Text.◌∷◌ c Text.[]) h = h
file_at_keeps (k ∷ fs) f g (Text.◌∷◌ c (Text.◌∷◌ d n)) h = file_at_keeps fs f g (Text.◌∷◌ d n) h

tally_not_empty : (fs : List StoredFile) → str_eq (tally fs) "" ≡ false
tally_not_empty [] = refl
tally_not_empty (f ∷ fs) = str_eq-ne (tally (f ∷ fs)) "" (λ h. cc h)

-- Every document is a submitted one of ACME with one number in two spellings, everyone has every permission, and the gateway confirms
-- what it gets.
abbrev pub confirmed : Value
confirmed = dict (field "submitted_at" (str "2026-01-01T00:00:00Z") end)

-- A secret of 32 bytes.
abbrev pub key_bytes : List ℕ
key_bytes =
    1 ∷ 1 ∷ 1 ∷ 1 ∷ 1 ∷ 1 ∷ 1 ∷ 1 ∷ 1 ∷ 1 ∷ 1 ∷ 1 ∷ 1 ∷ 1 ∷ 1 ∷ 1 ∷ 1 ∷ 1 ∷ 1 ∷ 1 ∷ 1 ∷ 1 ∷ 1 ∷ 1
    ∷ 1 ∷ 1 ∷ 1 ∷ 1 ∷ 1 ∷ 1 ∷ 1 ∷ 1 ∷ []

abbrev pub site : Frappe
site = record {
  Table = List Delivery;
  find = find;
  put = λ t d. d ∷ t;
  matching = λ p l t. limited l (chosen p t (names t));
  site = "demo.local";
  has_role = λ user role. true;
  may = λ user kind doctype name. true;
  user_enabled = λ user. true;
  get_doc = λ doctype name. some (record {
    name = name;
    modified = "v1";
    docstatus = 1;
    is_submittable = true;
    fields = field "company" (str "ACME") (
        field "customer" (str "C-1") (
          field "ref_doctype" (str "Sales Invoice") (
            field "mobile_no" (str "+49 (151) 123-4567")
              (field "phone" (str "0049 151 1234567") end))));
  });
  Files = List StoredFile;
  get_file = file_at;
  add_file = λ files f. (files ++ f ∷ [], tally files);
  new_name = unused;
  insert_error = λ n. none;
  has_field = λ doctype name. true;
  contacts_of = λ name. "C1" ∷ [];
  in_order = λ ts. ts;
  render_template = λ s fields. ok s;
  fmt_money = λ amount currency. "0";
  get_print = λ n doctype format doc. ok pdf_bytes;
  run_report = λ n name filters. ok (dict end);
  report_renderer = λ n path name filters. ok none;
  get_pdf = λ n html. ok pdf_bytes;
  hooks = λ name. [];
  print_formats = λ doctype. [];
  parse_json = λ s. ok null;
  dumps = λ style v. "json";
  text_of = λ v. "text";
  number_text = λ n. "0";
  int_text = λ n. "0";
  cint = λ v. pos 0;
  sha256 = λ s. "sum";
  sha256_bytes = λ bs. "sum";
  hmac = λ key text. "mac";
  base64 = λ bs. "JVBERi0=";
  hmac_key_file = some key_bytes;
  token = λ n. "nonce";
  generate_hash = λ n. "hash";
  clock = λ n. 100 + n;
  add_to_date = λ t s. t + s;
  from_iso = λ s. some (record { aware = false; shown = 90 });
  to_site_zone = λ s. 90;
  exchange = λ n r. response 200 (some confirmed);
  custom_sender = λ n path d s pdfs t. ok null;
  enqueue_error = λ n j. none;
  is_job_enqueued = λ n j. ok false;
}

pub site-IsLawful : IsLawful site
site-IsLawful = record {
  find-put = λ t d n. refl;
  find-name = find-name;
  matching_sound = λ p l t. limited-All (Selected p t) l _ (chosen-All p t (names t));
  in_order_sound = λ p ts h. h;
  matching_complete =
      λ p t n d h k. contains-chosen p t (names t) n (contains-names t n d h) (rw h k);
  dumps-not_empty = λ style v. refl;
  new_name_fresh = λ t. find_longer t (unused t) (omega arith);
  get-add_file = λ fs f. (f, file_at-append fs f, tally_not_empty fs, refl, refl, refl, refl);
  add_file_keeps = file_at_keeps;
}
