-- ===== src/Acceptance/Restored.antt =====
-- What a block inside `captured_gateway` finds, and what it leaves
-- (erpnext_whatsapp_connection/group_acceptance.py).
use erpnext_whatsapp_connect.Base.{
  String, Bool, ◌||◌, Option, none, some, [], ◌∷◌, ◌≡◌, refl, ap, ◌∙◌, str_eq, if◌then◌else◌, arith,
  eq_iff,
}
use erpnext_whatsapp_connect.Py.Action.{Action}
use erpnext_whatsapp_connect.Acceptance.Environment.{
  Environ, get_env, set_env, pop_env, Process, put_back, entered, left, captured_gateway,
}

get_env-set_env :
    (e : Environ) (k v j : String)
    → get_env (set_env e k v) j ≡ (if str_eq k j then some v else get_env e j)
unfolding set_env
get_env-set_env [] k v j = refl
get_env-set_env ((i, u) ∷ e) k v j =
    ground (arith, get_env-set_env e k v j, eq_iff i k, eq_iff i j, eq_iff k j)

get_env-pop_env :
    (e : Environ) (k j : String)
    → get_env (pop_env e k) j ≡ (if str_eq k j then none else get_env e j)
unfolding pop_env
get_env-pop_env [] k j = ground arith
get_env-pop_env ((i, u) ∷ e) k j =
    ground (arith, get_env-pop_env e k j, eq_iff i k, eq_iff i j, eq_iff k j)

get_env-put_back :
    (e : Environ) (k : String) (v : Option String) (j : String)
    → get_env (put_back e k v) j ≡ (if str_eq k j then v else get_env e j)
get_env-put_back e k none j = get_env-pop_env e k j
get_env-put_back e k (some v) j = get_env-set_env e k v j

-- One of the three variables that the detour sets.
abbrev pub is_detoured : String → Bool
is_detoured k =
    str_eq "ERPNEXT_WHATSAPP_SOCKET" k
    || (str_eq "ERPNEXT_WHATSAPP_HMAC_KEY_FILE" k || str_eq "CI" k)

-- The last of the values that are put back is found first.
restored_value :
    (e f : Environ) (a b c k : String)
    → (if str_eq c k
        then get_env e c
        else if str_eq b k
        then get_env e b
        else if str_eq a k
        then get_env e a
        else get_env f k)
      ≡ (if str_eq a k || (str_eq b k || str_eq c k) then get_env e k else get_env f k)
restored_value e f a b c k = ground (arith, eq_iff a k, eq_iff b k, eq_iff c k)

-- Three values that are put back one after the other.
put_back_three :
    (e f : Environ) (a b c k : String)
    → get_env (put_back (put_back (put_back f a (get_env e a)) b (get_env e b)) c (get_env e c)) k
      ≡ (if str_eq a k || (str_eq b k || str_eq c k) then get_env e k else get_env f k)
put_back_three e f a b c k =
    let g = put_back f a (get_env e a) in
    let h = put_back g b (get_env e b) in
    let inner = get_env-put_back f a (get_env e a) k in
    let middle =
      get_env-put_back g b (get_env e b) k
      ∙ ap (λ x. if str_eq b k then get_env e b else x) inner in
    get_env-put_back h c (get_env e c) k
    ∙ ap (λ x. if str_eq c k then get_env e c else x) middle
    ∙ restored_value e f a b c k

left-get_env :
    (socket key_file : String) (before after : Process) (k : String)
    → get_env (left socket key_file before after).environ k
      ≡ (if is_detoured k then get_env before.environ k else get_env after.environ k)
unfolding left
left-get_env socket key_file before after k =
    put_back_three before.environ after.environ "ERPNEXT_WHATSAPP_SOCKET"
      "ERPNEXT_WHATSAPP_HMAC_KEY_FILE" "CI" k

entered-get_env :
    (socket key_file : String) (p : Process)
    → (get_env (entered socket key_file p).environ "ERPNEXT_WHATSAPP_SOCKET" ≡ some socket)
      × (get_env (entered socket key_file p).environ "ERPNEXT_WHATSAPP_HMAC_KEY_FILE"
          ≡ some key_file)
unfolding entered
entered-get_env socket key_file p =
    let e = p.environ in
    let e1 = set_env e "ERPNEXT_WHATSAPP_SOCKET" socket in
    let e2 = set_env e1 "ERPNEXT_WHATSAPP_HMAC_KEY_FILE" key_file in
    (
      get_env-set_env e2 "CI" "1" "ERPNEXT_WHATSAPP_SOCKET"
          ∙ get_env-set_env e1 "ERPNEXT_WHATSAPP_HMAC_KEY_FILE" key_file "ERPNEXT_WHATSAPP_SOCKET"
          ∙ get_env-set_env e "ERPNEXT_WHATSAPP_SOCKET" socket "ERPNEXT_WHATSAPP_SOCKET",
      get_env-set_env e2 "CI" "1" "ERPNEXT_WHATSAPP_HMAC_KEY_FILE"
          ∙ get_env-set_env e1 "ERPNEXT_WHATSAPP_HMAC_KEY_FILE" key_file
              "ERPNEXT_WHATSAPP_HMAC_KEY_FILE",
    )

-- A block inside `captured_gateway` runs with the peer's socket and key file, in the client's globals
-- and in the environment. However it ends and whatever it changes, its result is passed on, the
-- client's globals and the three variables of the environment are as they were before, and every other
-- variable is as the block left it.
pub captured_gateway-restores :
    {A : Type 0} (socket key_file : String) (body : Action Process A) (p : Process)
    → let q = entered socket key_file p in
      let r = captured_gateway socket key_file body p in
      (q.socket_path ≡ socket)
      × (q.hmac_key_file ≡ key_file)
      × (get_env q.environ "ERPNEXT_WHATSAPP_SOCKET" ≡ some socket)
      × (get_env q.environ "ERPNEXT_WHATSAPP_HMAC_KEY_FILE" ≡ some key_file)
      × (r.0 ≡ (body q).0)
      × (r.1.socket_path ≡ p.socket_path)
      × (r.1.hmac_key_file ≡ p.hmac_key_file)
      × ((k : String)
          → get_env r.1.environ k
            ≡ (if is_detoured k then get_env p.environ k else get_env (body q).1.environ k))
unfolding captured_gateway entered left
captured_gateway-restores socket key_file body p =
    let (one, two) = entered-get_env socket key_file p in
    (
      refl,
      refl,
      one,
      two,
      refl,
      refl,
      refl,
      λ k. left-get_env socket key_file p (body (entered socket key_file p)).1 k,
    )
