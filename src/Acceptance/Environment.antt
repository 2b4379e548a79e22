-- ===== src/Acceptance/Environment.antt =====
-- The detour of the gateway's client to the local peer: `captured_gateway` of
-- erpnext_whatsapp_connection/group_acceptance.py.
use erpnext_whatsapp_connect.Base.{String, Option, none, some, List, [], ◌∷◌, str_eq, if◌then◌else◌}
use erpnext_whatsapp_connect.Py.Action.{Action}

-- `os.environ`.
abbrev pub Environ : Type 0
Environ = List (String × String)

abbrev pub get_env : Environ → String → Option String
get_env [] k = none
get_env ((j, v) ∷ e) k = if str_eq j k then some v else get_env e k

-- `os.environ[key] = value`.
unfoldable pub set_env : Environ → String → String → Environ
set_env [] k v = (k, v) ∷ []
set_env ((j, u) ∷ e) k v = if str_eq j k then (j, v) ∷ e else (j, u) ∷ set_env e k v

-- `os.environ.pop(key, None)`.
unfoldable pub pop_env : Environ → String → Environ
pop_env [] k = []
pop_env ((j, u) ∷ e) k = let rest = pop_env e k in if str_eq j k then rest else (j, u) ∷ rest

-- The process's environment, and the globals of the gateway's client.
pub record Process : Type 0 where
  pub environ : Environ
  pub socket_path : String
  pub hmac_key_file : String

-- `os.environ.update(keys)`, or the loop that puts the values back, of which some may have been unset.
abbrev pub put_back : Environ → String → Option String → Environ
put_back e k none = pop_env e k
put_back e k (some v) = set_env e k v

unfoldable pub put_back_all : Environ → List (String × Option String) → Environ
put_back_all e [] = e
put_back_all e ((k, v) ∷ rest) = put_back_all (put_back e k v) rest

unfoldable pub update_all : Environ → List (String × String) → Environ
update_all e [] = e
update_all e ((k, v) ∷ rest) = update_all (set_env e k v) rest

-- `{key: os.environ.get(key) for key in keys}`.
abbrev pub saved : Environ → List (String × String) → List (String × Option String)
saved e [] = []
saved e ((k, v) ∷ rest) = (k, get_env e k) ∷ saved e rest

-- The dict `keys`.
abbrev pub detour : String → String → List (String × String)
detour socket key_file =
    ("ERPNEXT_WHATSAPP_SOCKET", socket)
    ∷ ("ERPNEXT_WHATSAPP_HMAC_KEY_FILE", key_file)
    ∷ ("CI", "1")
    ∷ []

-- What the block runs in.
unfoldable pub entered : String → String → Process → Process
unfolding update_all set_env
entered socket key_file p = record {
  environ = update_all p.environ (detour socket key_file);
  socket_path = socket;
  hmac_key_file = key_file;
}

-- The `finally` clause.
unfoldable pub left : String → String → Process → Process → Process
unfolding put_back_all set_env pop_env
left socket key_file before after = record {
  environ = put_back_all after.environ (saved before.environ (detour socket key_file));
  socket_path = before.socket_path;
  hmac_key_file = before.hmac_key_file;
}

-- `with captured_gateway(peer): body`.
unfoldable pub captured_gateway :
    {A : Type 0} → String → String → Action Process A → Action Process A
unfolding entered left
captured_gateway socket key_file body p =
    let (result, after) = body (entered socket key_file p) in (result, left socket key_file p after)
