-- ===== src/Acceptance/Captured.antt =====
-- What the local peer has recorded and counted (`ProtocolPeer` of
-- erpnext_whatsapp_connection/group_acceptance.py).
use erpnext_whatsapp_connect.Base.{
  ℕ, suc, ◌≤◌, ◌<◌, String, Bool, true, false, List, [], ◌∷◌, ◌≡◌, inl, inr, refl, contains, length,
  arith, Bool-cases,
}
use erpnext_whatsapp_connect.Py.Result.{Result, ok, err, ◌>>=◌, Result-cases, crash, or_error}
use erpnext_whatsapp_connect.Py.Value.{Fields, as_dict}
use erpnext_whatsapp_connect.Site.Frappe.{Frappe}
use erpnext_whatsapp_connect.Acceptance.Replay.{serve_valid-nonces, known-not_valid}
use erpnext_whatsapp_connect.Acceptance.Peer.{Peer, Incoming, header, tries, new_peer}
use erpnext_whatsapp_connect.Acceptance.Handler.{is_valid, serve_valid, on_valid, do_post, serve}
use erpnext_whatsapp_connect.Acceptance.Tallies.{
  total, Each, IsGenuine, Tallies, serve_path-Tallies,
}

abbrev pub Distinct : List String → Type 0
Distinct [] = Unit
Distinct (n ∷ ns) = (contains n ns ≡ false) × Distinct ns

module _ (F : Frappe) (decode : String → Result (List ℕ)) where
  -- No nonce twice, no more attempts than requests that were taken, and each recorded delivery
  -- genuine and attempted.
  pub record IsSound (p : Peer) : Type 0 where
    pub distinct : Distinct p.nonces
    pub counted : total p.attempts ≤ length p.nonces
    pub recorded : Each (λ k. 0 < tries p.attempts k) (IsGenuine F decode) p.deliveries

  valid-new :
      (now : ℕ) (r : Incoming) (p : Peer)
      → is_valid F decode now r p ≡ ok true
      → contains (header r.nonce) p.nonces ≡ false
  valid-new now r p h = elim (Bool-cases (contains (header r.nonce) p.nonces)) [
    | inr e ↦ e
    | inl e ↦ elim (known-not_valid F decode now r p e) [ inl k ↦ cc | inr (x, k) ↦ cc ]
  ]

  serve_valid-Tallies :
      (r : Incoming) (p : Peer)
      → IsSound p
      → Tallies F decode (suc (length p.nonces)) (serve_valid F decode r p).1
  unfolding serve_valid
  serve_valid-Tallies r p s =
      let known : Peer = record p { nonces = header r.nonce ∷ p.nonces } in
      let parsed : Result Fields =
        F.parse_json r.body >>= (λ v. or_error (crash "no attribute 'get'") (as_dict v)) in
      let counted = s.counted in
      elim (Result-cases parsed) [
        | inl (payload, e) ↦
            rw e (serve_path-Tallies F decode r.path payload _ known (omega arith) s.recorded)
        | inr (x, e) ↦ rw e (omega arith, s.recorded)
      ]

  on_valid-IsSound :
      (v : Result Bool) (r : Incoming) (p : Peer)
      → (v ≡ ok true → contains (header r.nonce) p.nonces ≡ false)
      → IsSound p
      → IsSound (on_valid F decode r v p).1
  on_valid-IsSound (err e) r p new s = s
  on_valid-IsSound (ok false) r p new s = s
  on_valid-IsSound (ok true) r p new s =
      let (counted, recorded) = serve_valid-Tallies r p s in
      let nonces = serve_valid-nonces F decode r p in
      record {
        distinct = rw nonces (new refl, s.distinct);
        counted = rw nonces counted;
        recorded = recorded;
      }

  do_post-IsSound :
      (now : ℕ) (r : Incoming) (p : Peer) → IsSound p → IsSound (do_post F decode now r p).1
  unfolding do_post
  do_post-IsSound now r p s = on_valid-IsSound (is_valid F decode now r p) r p (valid-new now r p) s

  serve-IsSound : (rs : List (ℕ × Incoming)) (p : Peer) → IsSound p → IsSound (serve F decode rs p)
  serve-IsSound [] p s = s
  serve-IsSound ((now, r) ∷ rs) p s =
      serve-IsSound rs (do_post F decode now r p).1 (do_post-IsSound now r p s)

  -- Whatever requests come, and when: the peer has taken no nonce twice, it has counted no more
  -- attempts than requests that it has taken, and each delivery that it has recorded was attempted,
  -- is of the fixture's site and has attachments that are PDFs.
  pub new_peer-IsSound :
      (key : List ℕ) (rs : List (ℕ × Incoming)) → IsSound (serve F decode rs (new_peer key))
  new_peer-IsSound key rs =
      serve-IsSound rs (new_peer key)
        (record { distinct = tt; counted = omega arith; recorded = tt })
