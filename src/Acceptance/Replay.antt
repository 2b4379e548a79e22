-- ===== src/Acceptance/Replay.antt =====
-- What any sequence of requests leaves of the local peer (`ProtocolPeer` of
-- erpnext_whatsapp_connection/group_acceptance.py).
use erpnext_whatsapp_connect.Base.{
  ℕ, String, Bool, true, false, List, [], ◌∷◌, ◌≡◌, ◌⊎◌, inl, inr, refl, contains, arith,
  Bool-cases, Option-cases,
}
use erpnext_whatsapp_connect.Py.Result.{
  Error, Result, ok, err, ◌>>=◌, Result-cases, crash, or_error,
}
use erpnext_whatsapp_connect.Py.Value.{Value, Fields, find_key, as_dict}
use erpnext_whatsapp_connect.Site.Frappe.{Frappe}
use erpnext_whatsapp_connect.Acceptance.Answered.{str_eq_self}
use erpnext_whatsapp_connect.Acceptance.Peer.{
  Peer, Incoming, Answered, header, hashable, refusal_of, recent,
}
use erpnext_whatsapp_connect.Acceptance.Handler.{
  is_valid, pdfs_valid, capture, capture_pdfs, deliver_to, count_attempt, serve_send, serve_path,
  serve_valid, on_valid, do_post, serve,
}

module _ (F : Frappe) (decode : String → Result (List ℕ)) where
  capture-nonces :
      (key : Value) (payload : Fields) (p : Peer)
      → (capture F decode key payload p).1.nonces ≡ p.nonces
  unfolding capture
  capture-nonces key payload p = ground arith

  capture_pdfs-nonces :
      (key : Value) (payload : Fields) (r : Result Bool) (p : Peer)
      → (capture_pdfs F decode key payload r p).1.nonces ≡ p.nonces
  capture_pdfs-nonces key payload (err e) p = refl
  capture_pdfs-nonces key payload (ok true) p = capture-nonces key payload p
  capture_pdfs-nonces key payload (ok false) p = refl

  deliver_to-nonces :
      (key : Value) (payload : Fields) (p : Peer)
      → (deliver_to F decode key payload p).1.nonces ≡ p.nonces
  unfolding deliver_to
  deliver_to-nonces key payload p =
      ground (arith, capture_pdfs-nonces key payload (pdfs_valid F decode payload) p)

  pub serve_send-nonces :
      (payload : Fields) (p : Peer) → (serve_send F decode payload p).1.nonces ≡ p.nonces
  unfolding serve_send count_attempt
  serve_send-nonces payload p = elim (Option-cases (find_key payload "idempotency_key")) [
    | inl e ↦ rw (e, serve_send) refl
    | inr (key, e) ↦ elim (Bool-cases (hashable key)) [
      | inl h ↦ rw (e, serve_send, h, count_attempt) (deliver_to-nonces key payload _)
      | inr h ↦ rw (e, serve_send, h, count_attempt) refl
    ]
  ]

  pub serve_path-nonces :
      (path : String) (payload : Fields) (p : Peer)
      → (serve_path F decode path payload p).1.nonces ≡ p.nonces
  unfolding serve_path
  serve_path-nonces path payload p = ground (arith, serve_send-nonces payload p)

  pub serve_valid-nonces :
      (r : Incoming) (p : Peer) → (serve_valid F decode r p).1.nonces ≡ header r.nonce ∷ p.nonces
  unfolding serve_valid
  serve_valid-nonces r p =
      let known : Peer = record p { nonces = header r.nonce ∷ p.nonces } in
      let parsed : Result Fields =
        F.parse_json r.body >>= (λ v. or_error (crash "no attribute 'get'") (as_dict v)) in
      elim (Result-cases parsed) [
        | inl (payload, e) ↦ rw e (serve_path-nonces r.path payload known)
        | inr (x, e) ↦ rw e refl
      ]

  on_valid-grows :
      (v : Result Bool) (n : String) (r : Incoming) (p : Peer)
      → contains n p.nonces ≡ true
      → contains n (on_valid F decode r v p).1.nonces ≡ true
  on_valid-grows (err e) n r p h = h
  on_valid-grows (ok false) n r p h = h
  on_valid-grows (ok true) n r p h = rw (serve_valid-nonces r p) (ground (arith, h))

  -- What the peer has taken once it has taken.
  do_post-grows :
      (now : ℕ) (n : String) (r : Incoming) (p : Peer)
      → contains n p.nonces ≡ true
      → contains n (do_post F decode now r p).1.nonces ≡ true
  unfolding do_post
  do_post-grows now n r p h = on_valid-grows (is_valid F decode now r p) n r p h

  serve-grows :
      (rs : List (ℕ × Incoming)) (n : String) (p : Peer)
      → contains n p.nonces ≡ true
      → contains n (serve F decode rs p).nonces ≡ true
  serve-grows [] n p h = h
  serve-grows ((now, r) ∷ rs) n p h =
      serve-grows rs n (do_post F decode now r p).1 (do_post-grows now n r p h)

  -- A refusal, or a handler that raised before it did anything.
  abbrev pub IsRefused : Result Answered → Type 0
  IsRefused a =
      (a ≡ ok (refusal_of 403 "Invalid local protocol authentication"))
      ⊎ ((e : Error) × (a ≡ err e))

  pub known-not_valid :
      (now : ℕ) (r : Incoming) (p : Peer)
      → contains (header r.nonce) p.nonces ≡ true
      → (is_valid F decode now r p ≡ ok false) ⊎ ((e : Error) × (is_valid F decode now r p ≡ err e))
  unfolding is_valid
  known-not_valid now r p h = elim (Result-cases (recent now (header r.timestamp))) [
    | inl (b, e) ↦ inl (rw (e, is_valid, h) (ground arith))
    | inr (x, e) ↦ inr (x, rw (e, is_valid) refl)
  ]

  known-IsRefused :
      (now : ℕ) (r : Incoming) (p : Peer)
      → contains (header r.nonce) p.nonces ≡ true
      → ((do_post F decode now r p).1 ≡ p) × IsRefused (do_post F decode now r p).0
  unfolding do_post
  known-IsRefused now r p h = elim (known-not_valid now r p h) [
    | inl e ↦ rw (e, do_post) (refl, inl refl)
    | inr (x, e) ↦ rw (e, do_post) (refl, inr (x, refl))
  ]

  -- No request is taken twice: once a request has passed the peer's check, and whatever requests have
  -- come since, one with the same nonce is refused, or its handler raises, and the peer is left as
  -- it was, whatever else that request says and whenever it comes.
  pub replay-IsRefused :
      (now : ℕ) (r : Incoming) (p : Peer) (rs : List (ℕ × Incoming)) (later : ℕ) (again : Incoming)
      → is_valid F decode now r p ≡ ok true
      → header again.nonce ≡ header r.nonce
      → let q = serve F decode rs (do_post F decode now r p).1 in
        ((do_post F decode later again q).1 ≡ q) × IsRefused (do_post F decode later again q).0
  unfolding do_post
  replay-IsRefused now r p rs later again valid same =
      let taken : contains (header r.nonce) (do_post F decode now r p).1.nonces ≡ true =
        rw (valid, do_post)
          (rw (serve_valid-nonces r p) (rw (str_eq_self (header r.nonce)) refl)) in
      known-IsRefused later again (serve F decode rs (do_post F decode now r p).1)
        (rw same (serve-grows rs (header r.nonce) (do_post F decode now r p).1 taken))
