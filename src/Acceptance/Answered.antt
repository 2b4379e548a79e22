-- ===== src/Acceptance/Answered.antt =====
-- What the gateway's client gets from the local peer (gateway_request of
-- erpnext_whatsapp_connection/gateway_client.py and `ProtocolPeer` of
-- erpnext_whatsapp_connection/group_acceptance.py).
use erpnext_whatsapp_connect.Base.{
  ℕ, suc, ◌==◌, String, true, false, not, ◌&&◌, none, some, List, [], ◌∷◌, ◌≡◌, refl, ap, ◌∙◌,
  contains, str_eq, arith, eq_iff, pos, negsuc,
}
use erpnext_whatsapp_connect.Py.Result.{Result, ok}
use erpnext_whatsapp_connect.Py.Action as Action
use erpnext_whatsapp_connect.Py.Value.{
  Value, null, bool, int, str, list, dict, Fields, get, find_key,
}
use erpnext_whatsapp_connect.Py.Equality.{value_eq}
use erpnext_whatsapp_connect.Site.Records.{Request}
use erpnext_whatsapp_connect.Site.Frappe.{Frappe}
use erpnext_whatsapp_connect.Site.World.{World}
use erpnext_whatsapp_connect.Gateway.{secret, sign, read_reply, gateway_request, site_payload}
use erpnext_whatsapp_connect.Acceptance.Peer.{
  Peer, incoming, is_digits, read_int, is_near, recent, compare_digest, is_ascii, at_key, put_key,
  tries, or_zero, hashable, fixture_site, confirmed_body,
}
use erpnext_whatsapp_connect.Acceptance.Handler.{
  is_valid, pdfs_valid, capture, to_group, deliver_to, count_attempt, serve_send, serve_path,
  serve_valid, do_post, reply_of,
}

pub str_eq_self : (s : String) → str_eq s s ≡ true
str_eq_self s = (eq_iff s s).1 refl

number_eq_self : (n : ℕ) → (n == n) ≡ true
number_eq_self n = ground arith

pub value_eq_self : (k : Value) → hashable k ≡ true → value_eq k k ≡ true
unfolding value_eq
value_eq_self null h = refl
value_eq_self (bool true) h = refl
value_eq_self (bool false) h = refl
value_eq_self (int (pos n)) h = number_eq_self n
value_eq_self (int (negsuc n)) h = number_eq_self n
value_eq_self (str s) h = str_eq_self s
value_eq_self (list vs) h = cc
value_eq_self (dict fs) h = cc

module _ {A : Type 0} where
  pub at_key-put_key :
      (d : List (Value × A)) (k : Value) (a : A)
      → value_eq k k ≡ true
      → at_key (put_key d k a) k ≡ some a
  at_key-put_key [] k a h = rw h refl
  at_key-put_key ((j, b) ∷ d) k a h = ground (arith, at_key-put_key d k a h)

compare_digest_self : (s : String) → is_ascii s ≡ true → compare_digest s s ≡ ok true
unfolding compare_digest
compare_digest_self s h = rw (h, str_eq_self s) refl

module _ (F : Frappe) (decode : String → Result (List ℕ)) where
  -- The request that the client signs with the peer's key, at the world's tick.
  abbrev pub request_to : Peer → World F → String → Fields → Request
  request_to p w path payload = sign F p.key w.tick path payload

  -- The client has the peer's key and a clock that is near the peer's, its nonce is new to the peer,
  -- the body is read back, and the socket carries the peer's answer.
  pub record IsPaired (now : ℕ) (p : Peer) (w : World F) (path : String) (payload : Fields)
      : Type 0 where
    pub shares_key : secret F ≡ ok p.key
    pub stamped : is_digits (F.number_text (F.clock w.tick)) ≡ true
    pub stamp_read : read_int (F.number_text (F.clock w.tick)) ≡ ok (F.clock w.tick)
    pub near : is_near now (F.clock w.tick) ≡ true
    pub nonce : str_eq (F.token w.tick) "" ≡ false
    pub new_nonce : contains (F.token w.tick) p.nonces ≡ false
    pub signed : is_ascii (request_to p w path payload).signature ≡ true
    pub parsed : F.parse_json (request_to p w path payload).body ≡ ok (dict payload)
    pub answered :
        F.exchange w.tick (request_to p w path payload)
        ≡ reply_of (do_post F decode now (incoming (request_to p w path payload)) p).0

  -- The peer, once it knows the nonce.
  abbrev pub knowing : Peer → String → Peer
  knowing p nonce = record p { nonces = nonce ∷ p.nonces }

  module _ (now : ℕ) (p : Peer) (w : World F) (path : String) (payload : Fields)
      (h : IsPaired now p w path payload) where
    paired-is_valid : is_valid F decode now (incoming (request_to p w path payload)) p ≡ ok true
    unfolding is_valid recent
    paired-is_valid =
        rw (h.stamped, h.stamp_read, h.near, h.nonce, h.new_nonce)
          (compare_digest_self (request_to p w path payload).signature h.signed)

    paired-do_post :
        do_post F decode now (incoming (request_to p w path payload)) p
        ≡ serve_path F decode path payload (knowing p (F.token w.tick))
    unfolding do_post serve_valid
    paired-do_post = rw (paired-is_valid, h.parsed) refl

    paired-gateway_request :
        (gateway_request F path payload w).0
        ≡ read_reply F (reply_of (serve_path F decode path payload (knowing p (F.token w.tick))).0)
    unfolding gateway_request
    paired-gateway_request =
        rw (h.shares_key, gateway_request)
          (ap (read_reply F) (h.answered ∙ ap (λ r. reply_of r.0) paired-do_post))

  -- The peer serves a first delivery of PDFs by that key, and no failure is asked of it.
  pub record IsServed (p : Peer) (payload : Fields) (key : Value) : Type 0 where
    pub named : find_key payload "idempotency_key" ≡ some key
    pub is_key : hashable key ≡ true
    pub pdfs : pdfs_valid F decode payload ≡ ok true
    pub no_failure : (to_group F decode payload && not (p.group_failures == 0)) ≡ false
    pub first : at_key p.deliveries key ≡ none

  captured : Peer → Value → Fields → Peer
  captured p key payload = record p {
    attempts = put_key p.attempts key (suc (tries p.attempts key));
    deliveries = put_key p.deliveries key payload;
  }

  counted : Peer → Value → Peer
  counted p key = record p { attempts = put_key p.attempts key (suc (tries p.attempts key)) }

  count_attempt_lem :
      (p : Peer) (key : Value)
      → hashable key ≡ true
      → count_attempt F decode key p ≡ (ok tt, counted p key)
  unfolding count_attempt counted
  count_attempt_lem p key h = rw (h, count_attempt) refl

  deliver_to-captures :
      (p : Peer) (payload : Fields) (key : Value)
      → IsServed p payload key
      → deliver_to F decode key payload (counted p key)
        ≡ (ok (200, confirmed_body), captured p key payload)
  unfolding deliver_to captured counted
  deliver_to-captures p payload key h = rw (h.no_failure, h.pdfs, h.first, capture) refl

  serve_send-captured :
      (p : Peer) (payload : Fields) (key : Value)
      → IsServed p payload key
      → serve_send F decode payload p ≡ (ok (200, confirmed_body), captured p key payload)
  unfolding serve_send
  serve_send-captured p payload key h =
      rw (h.named, serve_send)
        (ap (Action.continue (λ _. deliver_to F decode key payload))
            (count_attempt_lem p key h.is_key)
          ∙ deliver_to-captures p payload key h)

  serve_path-send :
      (payload : Fields) (p : Peer)
      → value_eq (get payload "tenant_id") (str fixture_site) ≡ true
      → serve_path F decode "/v1/send" payload p ≡ serve_send F decode payload p
  unfolding serve_path
  serve_path-send payload p h = rw h refl

  -- A first delivery from the fixture's site is confirmed, if the client and the peer have one secret,
  -- the peer's clock is near the client's, the time stamp and the body are read back as they were
  -- written, the nonce is new and not empty, the signature is ASCII, the socket leads to the peer, the
  -- payload has a key that may be a dict's and that the peer has not recorded yet, its attachments
  -- decode to PDFs, and no failure has been asked of the peer for a group's delivery: then the client
  -- returns the confirmation, and the peer has recorded the payload under its key, counted one attempt
  -- more for it, and will not take the nonce again.
  pub gateway_request-captured :
      (now : ℕ) (p : Peer) (w : World F) (values : Fields) (key : Value)
      → F.site ≡ fixture_site
      → IsPaired now p w "/v1/send" (site_payload F values)
      → IsServed p (site_payload F values) key
      → let q =
          (do_post F decode now
            (incoming (request_to p w "/v1/send" (site_payload F values)))
            p).1 in
        ((gateway_request F "/v1/send" (site_payload F values) w).0 ≡ ok (dict confirmed_body))
        × (at_key q.deliveries key ≡ some (site_payload F values))
        × (tries q.attempts key ≡ suc (tries p.attempts key))
        × (contains (F.token w.tick) q.nonces ≡ true)
  unfolding value_eq captured
  gateway_request-captured now p w values key here h s =
      let payload = site_payload F values in
      let v = knowing p (F.token w.tick) in
      let done : serve_path F decode "/v1/send" payload v
          ≡ (ok (200, confirmed_body), captured v key payload) =
        serve_path-send payload v (rw here (str_eq_self fixture_site))
        ∙ serve_send-captured v payload key (record {
          named = s.named;
          is_key = s.is_key;
          pdfs = s.pdfs;
          no_failure = s.no_failure;
          first = s.first;
        }) in
      let same = value_eq_self key s.is_key in
      let served = paired-do_post now p w "/v1/send" payload h ∙ done in
      (
        paired-gateway_request now p w "/v1/send" payload h
            ∙ ap (λ r. read_reply F (reply_of r.0)) done,
        ap (λ r. at_key r.1.deliveries key) served ∙ at_key-put_key p.deliveries key payload same,
        ap (λ r. tries r.1.attempts key) served
            ∙ ap or_zero (at_key-put_key p.attempts key (suc (tries p.attempts key)) same),
        ap (λ r. contains (F.token w.tick) r.1.nonces) served
            ∙ rw (str_eq_self (F.token w.tick)) refl,
      )
