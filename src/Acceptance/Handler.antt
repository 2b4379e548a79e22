-- ===== src/Acceptance/Handler.antt =====
-- The handler of the local peer and a sequence of requests: `Handler` in `ProtocolPeer` of
-- erpnext_whatsapp_connection/group_acceptance.py.
use erpnext_whatsapp_connect.Base as Base
use erpnext_whatsapp_connect.Base.{
  ℕ, zero, suc, ◌+◌, ◌-◌, ◌*◌, String, Bool, true, false, not, ◌&&◌, ◌||◌, Option, none, some, List,
  ltb, leb, ◌==◌, str_eq, contains, if◌then◌else◌, is_some,
}
use erpnext_whatsapp_connect.Py.Result.{crash, Result, ok, err, or_error, ◌>>=◌}
use erpnext_whatsapp_connect.Py.Action as Action
use erpnext_whatsapp_connect.Py.Action.{Action}
use erpnext_whatsapp_connect.Py.Value.{
  Value, str, list, dict, nil, Fields, get, find_key, as_str, as_dict, as_list, or_else,
}
use erpnext_whatsapp_connect.Py.Equality.{value_eq}
use erpnext_whatsapp_connect.Site.Frappe.{Frappe, Reply, unreachable, response}
use erpnext_whatsapp_connect.Gateway.{canonical}
use erpnext_whatsapp_connect.Outbound.Snapshot.{starts_with, pdf_magic}
use erpnext_whatsapp_connect.Acceptance.Peer.{
  Incoming, Peer, Answered, at_key, compare_digest, confirmed_body, failure_body, fixture_site,
  groups_body, hashable, header, put_key, recent, refusal_of, status_body, tries,
}

-- `decode` is `base64.b64decode`.
module _ (F : Frappe) (decode : String → Result (List ℕ)) where
  -- The five conditions of `valid`, each read only if those before it hold.
  unfoldable pub is_valid : ℕ → Incoming → Peer → Result Bool
  unfolding recent compare_digest
  is_valid now r p = recent now (header r.timestamp) >>= λ timely.
      if timely && (not (str_eq (header r.nonce) "") && not (contains (header r.nonce) p.nonces))
      then compare_digest
          (F.hmac p.key (canonical F (header r.timestamp) (header r.nonce) r.path r.body))
          (header r.signature)
      else ok false

  -- `pdf['content_base64']`, decoded.
  abbrev pub content_of : Value → Result (List ℕ)
  content_of pdf = or_error (crash "not a dict") (as_dict pdf) >>= λ fields.
      or_error (crash "'content_base64'") (find_key fields "content_base64") >>= λ text.
      or_error (crash "a bytes-like object is required") (as_str text) >>= decode

  -- The loop over the PDFs, which ends at the first that is none.
  unfoldable pub all_pdfs : List Value → Result Bool
  all_pdfs Base.[] = ok true
  all_pdfs (Base.◌∷◌ pdf rest) =
      content_of pdf >>= λ bytes. if starts_with pdf_magic bytes then all_pdfs rest else ok false

  -- `payload.get('pdfs') or []`; what is true and no list has no entry with a key.
  unfoldable pub pdfs_valid : Fields → Result Bool
  unfolding all_pdfs
  pdfs_valid payload =
      or_error (crash "not a list of dicts") (as_list (or_else (get payload "pdfs") (list nil)))
      >>= all_pdfs

  unfoldable pub capture : Value → Fields → Action Peer Answered
  capture key payload p = elim (at_key p.deliveries key) [
    | none ↦ (ok (200, confirmed_body), record p { deliveries = put_key p.deliveries key payload })
    | some before ↦
        if value_eq (dict before) (dict payload)
        then (ok (200, confirmed_body), record p { deliveries = put_key p.deliveries key payload })
        else (ok (refusal_of 409 "Changed fixture request identity"), p)
  ]

  abbrev pub capture_pdfs : Value → Fields → Result Bool → Action Peer Answered
  capture_pdfs key payload (err e) p = (err e, p)
  capture_pdfs key payload (ok true) p = capture key payload p
  capture_pdfs key payload (ok false) p = (ok (refusal_of 400 "Invalid fixture PDF"), p)

  abbrev pub to_group : Fields → Bool
  to_group payload = value_eq (get payload "recipient_type") (str "Group")

  unfoldable pub deliver_to : Value → Fields → Action Peer Answered
  unfolding capture pdfs_valid
  deliver_to key payload p =
      if to_group payload && not (p.group_failures == 0)
      then (ok (400, failure_body p.uncertain), record p { group_failures = p.group_failures - 1 })
      else capture_pdfs key payload (pdfs_valid payload) p

  -- The attempt is counted before anything is looked at but the key.
  unfoldable pub count_attempt : Value → Action Peer (Unit {0})
  count_attempt key p = elim (hashable key) [
    | true ↦ (ok tt, record p { attempts = put_key p.attempts key (suc (tries p.attempts key)) })
    | false ↦ (err (crash "unhashable type"), p)
  ]

  unfoldable pub serve_send : Fields → Action Peer Answered
  unfolding deliver_to count_attempt
  serve_send payload p = elim (find_key payload "idempotency_key") [
    | none ↦ (err (crash "'idempotency_key'"), p)
    | some key ↦ Action.continue (λ _. deliver_to key payload) (count_attempt key p)
  ]

  -- By the path.
  unfoldable pub serve_path : String → Fields → Action Peer Answered
  unfolding serve_send
  serve_path path payload p =
      if not (value_eq (get payload "tenant_id") (str fixture_site))
      then (ok (refusal_of 403 "Foreign fixture site"), p)
      else if str_eq path "/v1/groups"
      then (ok (200, groups_body), p)
      else if str_eq path "/v1/status"
      then (ok (200, status_body), p)
      else if not (str_eq path "/v1/send")
      then (ok (refusal_of 404 "Unsupported capture endpoint"), p)
      else serve_send payload p

  -- What follows a valid request; `json.loads(body)`, and `payload.get` wants a dict.
  unfoldable pub serve_valid : Incoming → Action Peer Answered
  unfolding serve_path
  serve_valid r p = Action.continue (serve_path r.path) (
    F.parse_json r.body >>= (λ v. or_error (crash "no attribute 'get'") (as_dict v)),
    record p { nonces = Base.◌∷◌ (header r.nonce) p.nonces },
  )

  -- `do_POST`, by what the check of the headers gave.
  abbrev pub on_valid : Incoming → Result Bool → Action Peer Answered
  on_valid r (err e) p = (err e, p)
  on_valid r (ok false) p = (ok (refusal_of 403 "Invalid local protocol authentication"), p)
  on_valid r (ok true) p = serve_valid r p

  unfoldable pub do_post : ℕ → Incoming → Action Peer Answered
  unfolding is_valid serve_valid
  do_post now r p = on_valid r (is_valid now r p) p

  -- A sequence of requests, each at its time.
  abbrev pub serve : List (ℕ × Incoming) → Peer → Peer
  serve Base.[] p = p
  serve (Base.◌∷◌ (now, r) rest) p = serve rest (do_post now r p).1

-- What the client gets of it.
abbrev pub reply_of : Result Answered → Reply
reply_of (ok (status, body)) = response status (some (dict body))
reply_of (err e) = unreachable
