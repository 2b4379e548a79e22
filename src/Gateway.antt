-- ===== src/Gateway.antt =====
-- The client of the private gateway: erpnext_whatsapp_connection/gateway_client.py.
pub mod Errors
use erpnext_whatsapp_connect.Base.{
  ℕ, suc, String, Bool, true, false, ◌&&◌, ◌||◌, ◌==◌, none, some, List, [], ◌∷◌, ◌++◌, length, ltb,
  leb, if◌then◌else◌,
}
use erpnext_whatsapp_connect.Py.Result.{gateway, crash, Result, ok, err, ◌>>=◌}
use erpnext_whatsapp_connect.Py.Action.{Action}
use erpnext_whatsapp_connect.Py.Value.{
  Value, dict, str, Fields, field, get, is_true, or_else, as_dict,
}
use erpnext_whatsapp_connect.Py.Text.{concat}
use erpnext_whatsapp_connect.Site.Records.{Request}
use erpnext_whatsapp_connect.Site.Frappe.{
  Frappe, compact, Reply, unreachable, undecodable, response,
}
use erpnext_whatsapp_connect.Site.World.{World, request}

-- `data.get(key)` on a decoded body, which need not be a dict.
abbrev pub get_of : Value → String → Result Value
get_of v k = elim (as_dict v) [
  | none ↦ err (crash "object has no attribute 'get'")
  | some fs ↦ ok (get fs k)
]

-- `bytes.strip()`: the bytes of ASCII white space at both ends are left out.
abbrev pub is_space_byte : ℕ → Bool
is_space_byte b = leb 9 b && leb b 13 || b == 32

abbrev pub lstrip_bytes : List ℕ → List ℕ
lstrip_bytes [] = []
lstrip_bytes (b ∷ bs) = let rest = lstrip_bytes bs in if is_space_byte b then rest else b ∷ bs

abbrev pub is_end : List ℕ → Bool
is_end [] = true
is_end (b ∷ bs) = false

abbrev pub rstrip_bytes : List ℕ → List ℕ
rstrip_bytes [] = []
rstrip_bytes (b ∷ bs) =
    let rest = rstrip_bytes bs in if is_end rest && is_space_byte b then [] else b ∷ rest

abbrev pub strip_bytes : List ℕ → List ℕ
strip_bytes bs = rstrip_bytes (lstrip_bytes bs)

module _ (F : Frappe) where
  -- `_secret()`.
  unfoldable pub secret : Result (List ℕ)
  secret = elim F.hmac_key_file [
    | none ↦ err (gateway "The private WhatsApp gateway is not configured." false)
    | some bytes ↦
        if ltb (length (strip_bytes bytes)) 32
        then err (gateway "The private WhatsApp gateway authentication is invalid." false)
        else ok (strip_bytes bytes)
  ]

  -- `f"{timestamp}\n{nonce}\nPOST\n{path}\n{body_hash}"`.
  abbrev pub canonical : String → String → String → String → String
  canonical timestamp nonce path body =
      concat timestamp
        (concat "\n" (concat nonce (concat "\nPOST\n" (concat path (concat "\n" (F.sha256 body))))))

  -- The request that is built at a tick of the clock.
  abbrev pub sign : List ℕ → ℕ → String → Fields → Request
  sign key tick path payload =
      let body = F.dumps compact (dict payload) in
      let timestamp = F.number_text (F.clock tick) in
      let nonce = F.token tick in
      record {
        path = path;
        payload = payload;
        body = body;
        timestamp = timestamp;
        nonce = nonce;
        signature = F.hmac key (canonical timestamp nonce path body);
      }

  -- The exception for a status of 400 and above.
  abbrev pub refusal : Value → Result Value
  refusal body = do
    e ← get_of body "error"
    r ← get_of body "reconciliation_required"
    err (gateway (F.text_of (or_else e (str "WhatsApp operation failed."))) (is_true r))

  abbrev pub read_reply : Reply → Result Value
  read_reply unreachable = err (gateway "The private WhatsApp gateway is unavailable." false)
  read_reply undecodable = err (crash "'utf-8' codec can't decode the answer")
  read_reply (response status none) =
      err (gateway "The private WhatsApp gateway returned an invalid response." false)
  read_reply (response status (some body)) = if leb 400 status then refusal body else ok body

  unfoldable pub gateway_request : String → Fields → Action (World F) Value
  gateway_request path payload w = elim secret [
    | err e ↦ (err e, record w { tick = suc w.tick })
    | ok key ↦
        let r = sign key w.tick path payload in
        (
          read_reply (F.exchange w.tick r),
          record w { log = w.log ++ request r ∷ []; tick = suc w.tick },
        )
  ]

  -- `site_payload(**values)`.
  abbrev pub site_payload : Fields → Fields
  site_payload values = field "tenant_id" (str F.site) values
