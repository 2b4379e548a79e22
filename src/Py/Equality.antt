-- ===== src/Py/Equality.antt =====
-- Python's `==` on dynamic values: True is 1, and dicts are equal whatever the order of their keys.
use erpnext_whatsapp_connect.Base.{
  ℕ, suc, Bool, true, false, ◌&&◌, none, some, ℤ, pos, negsuc, ◌==◌, str_eq,
}
use erpnext_whatsapp_connect.Py.Value.{
  Value, null, bool, int, str, list, dict, Items, nil, cons, Fields, end, field, find_key,
}

abbrev int_eq : ℤ → ℤ → Bool
int_eq (pos a) (pos b) = a == b
int_eq (pos a) (negsuc b) = false
int_eq (negsuc a) (pos b) = false
int_eq (negsuc a) (negsuc b) = a == b

abbrev of_bool : Bool → ℤ
of_bool true = pos 1
of_bool false = pos 0

abbrev count : Fields → ℕ
count end = 0
count (field k v fs) = suc (count fs)

unfoldable mutual
  pub value_eq : Value → Value → Bool
  value_eq null null = true
  value_eq (bool a) (bool b) = int_eq (of_bool a) (of_bool b)
  value_eq (bool a) (int n) = int_eq (of_bool a) n
  value_eq (int n) (bool b) = int_eq n (of_bool b)
  value_eq (int n) (int m) = int_eq n m
  value_eq (str s) (str t) = str_eq s t
  value_eq (list xs) (list ys) = items_eq xs ys
  value_eq (dict a) (dict b) = count a == count b && fields_in a b
  value_eq _ _ = false

  pub items_eq : Items → Items → Bool
  items_eq nil nil = true
  items_eq (cons v vs) (cons w ws) = value_eq v w && items_eq vs ws
  items_eq _ _ = false

  pub fields_in : Fields → Fields → Bool
  fields_in end b = true
  fields_in (field k v fs) b =
      (elim (find_key b k) [ none ↦ false | some w ↦ value_eq v w ]) && fields_in fs b
