-- ===== src/Acceptance/Peer.antt =====
-- The local peer that stands for the gateway in the acceptance run: `ProtocolPeer` of
-- erpnext_whatsapp_connection/group_acceptance.py. It serves one request after the other, and a
-- handler that raises closes the connection without an answer.
use Prim.Native.Char.{code}
use Prim.Native.String.{[], ◌∷◌}
use erpnext_whatsapp_connect.Base as Base
use erpnext_whatsapp_connect.Base.{
  ℕ, zero, suc, ◌+◌, ◌-◌, ◌*◌, String, Bool, true, false, not, ◌&&◌, ◌||◌, Option, none, some, List,
  ltb, leb, ◌==◌, str_eq, contains, if◌then◌else◌, is_some,
}
use erpnext_whatsapp_connect.Py.Result.{crash, Result, ok, err, or_error, ◌>>=◌}
use erpnext_whatsapp_connect.Py.Value.{
  Value, null, bool, int, str, list, dict, nil, cons, Fields, end, field,
}
use erpnext_whatsapp_connect.Py.Equality.{value_eq}
use erpnext_whatsapp_connect.Py.Text.{length}
use erpnext_whatsapp_connect.Site.Records.{Request}

-- A request as the handler finds it: the path, the body and the three headers.
pub record Incoming : Type 0 where
  pub path : String
  pub body : String
  pub timestamp : Option String
  pub nonce : Option String
  pub signature : Option String

-- What the client's call of `connection.request` arrives as.
abbrev pub incoming : Request → Incoming
incoming r = record {
  path = r.path;
  body = r.body;
  timestamp = some r.timestamp;
  nonce = some r.nonce;
  signature = some r.signature;
}

-- `self.headers.get(name, '')`.
abbrev pub header : Option String → String
header none = ""
header (some s) = s

-- The keys of the two dicts are whatever JSON value a request has.
pub record Peer : Type 0 where
  pub key : List ℕ
  pub nonces : List String
  pub deliveries : List (Value × Fields)
  pub attempts : List (Value × ℕ)
  pub group_failures : ℕ
  pub uncertain : Bool

-- `ProtocolPeer(root)` with a key from `secrets.token_hex`.
abbrev pub new_peer : List ℕ → Peer
new_peer key = record {
  key = key;
  nonces = Base.[];
  deliveries = Base.[];
  attempts = Base.[];
  group_failures = 0;
  uncertain = false;
}

-- `str.isdigit` on the text of a header, whose characters are of Latin-1: there it accepts the
-- superscripts two, three and one, too.
abbrev pub is_digit : ℕ → Bool
is_digit c = leb b'0' c && leb c b'9' || (c == 0xb2 || c == 0xb3 || c == 0xb9)

abbrev all_digits : String → Bool
all_digits [] = true
all_digits (c ∷ s) = is_digit (code c) && all_digits s

abbrev pub is_digits : String → Bool
is_digits [] = false
is_digits (c ∷ s) = all_digits (c ∷ s)

-- `int(text)`, which refuses the superscripts, and texts of more than 4300 digits.
abbrev pub digits_from : ℕ → String → Option ℕ
digits_from n [] = some n
digits_from n (c ∷ s) =
    let rest = digits_from (10 * n + (code c - b'0')) s in
    if leb b'0' (code c) && leb (code c) b'9' then rest else none

unfoldable pub read_int : String → Result ℕ
read_int s =
    if ltb 4300 (length s)
    then err (crash "Exceeds the limit for integer string conversion")
    else or_error (crash "invalid literal for int()") (digits_from 0 s)

-- `hmac.compare_digest` on texts.
abbrev pub is_ascii : String → Bool
is_ascii [] = true
is_ascii (c ∷ s) = ltb (code c) 128 && is_ascii s

unfoldable pub compare_digest : String → String → Result Bool
compare_digest a b =
    if is_ascii a && is_ascii b
    then ok (str_eq a b)
    else err (crash "comparing strings with non-ASCII characters is not supported")

-- `abs(time.time() - int(stamp)) < 120`, the time in microseconds.
abbrev pub one_second : ℕ
one_second = 1_000_000

abbrev pub is_near : ℕ → ℕ → Bool
is_near now stamp = ltb ((now - stamp * one_second) + (stamp * one_second - now)) (120 * one_second)

unfoldable pub recent : ℕ → String → Result Bool
unfolding read_int
recent now stamp =
    if is_digits stamp then read_int stamp >>= (λ t. ok (is_near now t)) else ok false

-- Dicts by JSON values.
module _ {A : Type 0} where
  abbrev pub at_key : List (Value × A) → Value → Option A
  at_key Base.[] k = none
  at_key (Base.◌∷◌ (j, a) rest) k = if value_eq j k then some a else at_key rest k

  abbrev pub put_key : List (Value × A) → Value → A → List (Value × A)
  put_key Base.[] k a = Base.◌∷◌ (k, a) Base.[]
  put_key (Base.◌∷◌ (j, b) rest) k a =
      if value_eq j k then Base.◌∷◌ (j, a) rest else Base.◌∷◌ (j, b) (put_key rest k a)

abbrev pub or_zero : Option ℕ → ℕ
or_zero none = 0
or_zero (some n) = n

-- `attempts.get(key, 0)`.
abbrev pub tries : List (Value × ℕ) → Value → ℕ
tries counts k = or_zero (at_key counts k)

-- A list or a dict is no key.
abbrev pub hashable : Value → Bool
hashable (list _) = false
hashable (dict _) = false
hashable null = true
hashable (bool _) = true
hashable (int _) = true
hashable (str _) = true

-- A status and the body that `reply` writes.
abbrev pub Answered : Type 0
Answered = ℕ × Fields

abbrev pub refusal_of : ℕ → String → Answered
refusal_of status text = (status, field "error" (str text) end)

abbrev pub fixture_group : String
fixture_group = "120000000000000000@g.us"

abbrev pub other_group : String
other_group = "120000000000000001@g.us"

abbrev pub fixture_site : String
fixture_site = "integration.local"

abbrev pub group_entry : String → String → Value
group_entry id name = dict (field "id" (str id) (field "name" (str name) end))

abbrev pub groups_body : Fields
groups_body =
    field "groups"
      (list (
        cons (group_entry fixture_group "Synthetic company group")
          (cons (group_entry other_group "Synthetic other group") nil)))
      end

abbrev pub status_body : Fields
status_body = field "status" (str "Connected") (field "connected" (bool true) end)

abbrev pub confirmed_body : Fields
confirmed_body =
    field "message_ids" (list (cons (str "synthetic-confirmed-id") nil))
      (field "submitted_at" (str "2026-01-01T00:00:00Z") end)

abbrev pub failure_body : Bool → Fields
failure_body uncertain =
    field "error" (str "Synthetic provider failure")
      (field "reconciliation_required" (bool uncertain) end)
