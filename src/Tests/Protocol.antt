-- ===== src/Tests/Protocol.antt =====
-- The local peer and the detour to it, at concrete requests.
use erpnext_whatsapp_connect.Base.{
  ℕ, suc, ◌*◌, String, true, some, List, [], ◌∷◌, ◌≡◌, refl, contains, if◌then◌else◌,
}
use erpnext_whatsapp_connect.Py.Result.{Result, ok, err, crash}
use erpnext_whatsapp_connect.Py.Action.{Action}
use erpnext_whatsapp_connect.Py.Value.{str, list, dict, nil, cons, Fields, field, end}
use erpnext_whatsapp_connect.Py.Text.{strip}
use erpnext_whatsapp_connect.Py.Unicode.{is_space}
use erpnext_whatsapp_connect.Py.Equality.{value_eq}
use erpnext_whatsapp_connect.Site.Records.{Request}
use erpnext_whatsapp_connect.Site.Frappe.{Frappe, response}
use erpnext_whatsapp_connect.Site.World.{World}
use erpnext_whatsapp_connect.Gateway.{secret, gateway_request}
use erpnext_whatsapp_connect.Outbound.Snapshot.{starts_with}
use erpnext_whatsapp_connect.Acceptance.Peer.{
  Peer, new_peer, incoming, one_second, read_int, recent, compare_digest, at_key, tries,
  confirmed_body,
}
use erpnext_whatsapp_connect.Acceptance.Handler.{
  is_valid, all_pdfs, pdfs_valid, capture, deliver_to, count_attempt, serve_send, serve_path,
  serve_valid, do_post, serve,
}
use erpnext_whatsapp_connect.Acceptance.Answered.{
  request_to, IsPaired, IsServed, gateway_request-captured,
}
use erpnext_whatsapp_connect.Acceptance.Replay.{IsRefused, replay-IsRefused}
use erpnext_whatsapp_connect.Acceptance.Captured.{IsSound, new_peer-IsSound}
use erpnext_whatsapp_connect.Acceptance.Environment.{Process, get_env, entered, captured_gateway}
use erpnext_whatsapp_connect.Acceptance.Restored.{is_detoured, captured_gateway-restores}
use erpnext_whatsapp_connect.Tests.Site.{key_bytes, pdf_bytes, site}
use erpnext_whatsapp_connect.Tests.Data.{options}

abbrev values : Fields
values = field "idempotency_key" (str "wa:1") (
    field "recipient_type" (str "Individual")
      (field "pdfs" (list (cons (dict (field "content_base64" (str "JVBERi0=") end)) nil)) end))

abbrev sent_values : Fields
sent_values = field "tenant_id" (str "integration.local") values

-- The disposable site, whose gateway is the peer.
abbrev disposable : Frappe
disposable = record site {
  site = "integration.local";
  number_text = λ n. "100";
  parse_json = λ s. ok (dict sent_values);
  exchange = λ n r. response 200 (some (dict confirmed_body));
}

abbrev peer : Peer
peer = new_peer key_bytes

abbrev decode : String → Result (List ℕ)
decode s = ok pdf_bytes

abbrev quiet : World disposable
quiet = record {
  table = [];
  files = [];
  templates = [];
  settings = options;
  user = "Administrator";
  jobs = [];
  log = [];
  tick = 0;
}

abbrev first_request : Request
first_request = request_to disposable decode peer quiet "/v1/send" sent_values

abbrev now : ℕ
now = 101 * one_second

paired : IsPaired disposable decode now peer quiet "/v1/send" sent_values
unfolding secret strip is_space read_int do_post is_valid recent compare_digest serve_valid
    serve_path serve_send count_attempt deliver_to pdfs_valid all_pdfs capture value_eq starts_with
paired = record {
  shares_key = refl;
  stamped = refl;
  stamp_read = refl;
  near = refl;
  nonce = refl;
  new_nonce = refl;
  signed = refl;
  parsed = refl;
  answered = refl;
}

served : IsServed disposable decode peer sent_values (str "wa:1")
unfolding pdfs_valid all_pdfs value_eq starts_with
served = record { named = refl; is_key = refl; pdfs = refl; no_failure = refl; first = refl }

gateway_request-captured_example :
    let q = (do_post disposable decode now (incoming first_request) peer).1 in
    ((gateway_request disposable "/v1/send" sent_values quiet).0 ≡ ok (dict confirmed_body))
    × (at_key q.deliveries (str "wa:1") ≡ some sent_values)
    × (tries q.attempts (str "wa:1") ≡ suc (tries peer.attempts (str "wa:1")))
    × (contains "nonce" q.nonces ≡ true)
gateway_request-captured_example =
    gateway_request-captured disposable decode now peer quiet values (str "wa:1") refl paired served

first-is_valid : is_valid disposable decode now (incoming first_request) peer ≡ ok true
unfolding is_valid recent read_int compare_digest
first-is_valid = refl

-- The same request once more, after another one.
replay-IsRefused_example :
    let q =
      serve disposable decode
        ((now, incoming first_request) ∷ [])
        (do_post disposable decode now (incoming first_request) peer).1 in
    ((do_post disposable decode now (incoming first_request) q).1 ≡ q)
    × IsRefused disposable decode (do_post disposable decode now (incoming first_request) q).0
replay-IsRefused_example =
    replay-IsRefused disposable decode now (incoming first_request) peer
      ((now, incoming first_request) ∷ []) now (incoming first_request) first-is_valid refl

new_peer-IsSound_example : IsSound disposable decode (
    serve disposable decode
      ((now, incoming first_request) ∷ (now, incoming first_request) ∷ [])
      peer)
new_peer-IsSound_example =
    new_peer-IsSound disposable decode key_bytes
      ((now, incoming first_request) ∷ (now, incoming first_request) ∷ [])

-- A block that changes the globals and the environment, and raises.
abbrev block : Action Process (Unit {0})
block p = (
  err (crash "stopped"),
  record {
    environ = ("CI", "0") ∷ ("LANG", "C") ∷ [];
    socket_path = "elsewhere";
    hmac_key_file = "elsewhere";
  },
)

abbrev outside : Process
outside = record {
  environ = ("LANG", "de") ∷ ("ERPNEXT_WHATSAPP_SOCKET", "/run/gateway.sock") ∷ [];
  socket_path = "/run/gateway.sock";
  hmac_key_file = "/run/hmac";
}

captured_gateway-restores_example :
    let q = entered "/tmp/peer.sock" "/tmp/hmac" outside in
    let r = captured_gateway "/tmp/peer.sock" "/tmp/hmac" block outside in
    (q.socket_path ≡ "/tmp/peer.sock")
    × (q.hmac_key_file ≡ "/tmp/hmac")
    × (get_env q.environ "ERPNEXT_WHATSAPP_SOCKET" ≡ some "/tmp/peer.sock")
    × (get_env q.environ "ERPNEXT_WHATSAPP_HMAC_KEY_FILE" ≡ some "/tmp/hmac")
    × (r.0 ≡ (block q).0)
    × (r.1.socket_path ≡ "/run/gateway.sock")
    × (r.1.hmac_key_file ≡ "/run/hmac")
    × ((k : String)
        → get_env r.1.environ k
          ≡ (if is_detoured k then get_env outside.environ k else get_env (block q).1.environ k))
captured_gateway-restores_example =
    captured_gateway-restores "/tmp/peer.sock" "/tmp/hmac" block outside
