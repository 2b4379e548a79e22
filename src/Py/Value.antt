-- ===== src/Py/Value.antt =====
-- Dynamic values: what JSON, a dict of adapters or a document's field can hold.
use erpnext_whatsapp_connect.Base.{
  String, Bool, true, false, not, List, [], ◌∷◌, Option, none, some, ℤ, pos, negsuc, str_eq, ◌==◌,
  if◌then◌else◌,
}

mutual
  pub data Value : Type 0 where
    null : Value
    bool : Bool → Value
    int : ℤ → Value
    str : String → Value
    list : Items → Value
    dict : Fields → Value

  pub data Items : Type 0 where
    nil : Items
    cons : Value → Items → Items

  pub data Fields : Type 0 where
    end : Fields
    field : String → Value → Fields → Fields

abbrev pub items : Items → List Value
items nil = []
items (cons v vs) = v ∷ items vs

-- `bool(value)`.
abbrev pub truthy : Value → Bool
truthy null = false
truthy (bool b) = b
truthy (int (pos n)) = not (n == 0)
truthy (int (negsuc n)) = true
truthy (str s) = not (str_eq s "")
truthy (list nil) = false
truthy (list (cons _ _)) = true
truthy (dict end) = false
truthy (dict (field _ _ _)) = true

-- `d.get(key)`: None for a missing key.
abbrev pub get : Fields → String → Value
get end k = null
get (field j v fs) k = if str_eq j k then v else get fs k

-- `d[key]`: none stands for the KeyError.
abbrev pub find_key : Fields → String → Option Value
find_key end k = none
find_key (field j v fs) k = if str_eq j k then some v else find_key fs k

-- `d[key] = value`.
abbrev pub set : Fields → String → Value → Fields
set end k v = field k v end
set (field j w fs) k v = if str_eq j k then field j v fs else field j w (set fs k v)

-- `isinstance(value, str)`, with the text.
abbrev pub as_str : Value → Option String
as_str (str s) = some s
as_str null = none
as_str (bool _) = none
as_str (int _) = none
as_str (list _) = none
as_str (dict _) = none

-- `d.update(values)`.
abbrev pub update : Fields → Fields → Fields
update d end = d
update d (field k v fs) = update (set d k v) fs

abbrev pub is_true : Value → Bool
is_true (bool b) = b
is_true null = false
is_true (int _) = false
is_true (str _) = false
is_true (list _) = false
is_true (dict _) = false

-- `isinstance(value, dict)`, with the entries.
abbrev pub as_dict : Value → Option Fields
as_dict (dict fs) = some fs
as_dict null = none
as_dict (bool _) = none
as_dict (int _) = none
as_dict (str _) = none
as_dict (list _) = none

-- `isinstance(value, list)`, with the entries.
abbrev pub as_list : Value → Option (List Value)
as_list (list vs) = some (items vs)
as_list null = none
as_list (bool _) = none
as_list (int _) = none
as_list (str _) = none
as_list (dict _) = none

-- `value or other`.
abbrev pub or_else : Value → Value → Value
or_else v other = if truthy v then v else other
