-- ===== src/Acceptance/Tallies.antt =====
-- The counts and the records of the local peer, step by step (`ProtocolPeer` of
-- erpnext_whatsapp_connection/group_acceptance.py).
use erpnext_whatsapp_connect.Base.{
  ℕ, suc, ◌+◌, ◌≤◌, ◌<◌, ◌==◌, String, Bool, true, false, not, ◌&&◌, List, [], ◌∷◌, ◌≡◌, inl, inr,
  refl, ap, str_eq, arith, Bool-cases, Option-cases,
}
use erpnext_whatsapp_connect.Py.Result.{Result, ok, err}
use erpnext_whatsapp_connect.Py.Value.{Value, str, dict, Fields, get, find_key}
use erpnext_whatsapp_connect.Py.Equality.{value_eq}
use erpnext_whatsapp_connect.Site.Frappe.{Frappe}
use erpnext_whatsapp_connect.Acceptance.Answered.{value_eq_self, at_key-put_key}
use erpnext_whatsapp_connect.Acceptance.Peer.{
  Peer, at_key, put_key, tries, or_zero, hashable, fixture_site,
}
use erpnext_whatsapp_connect.Acceptance.Handler.{
  pdfs_valid, capture, capture_pdfs, to_group, deliver_to, count_attempt, serve_send, serve_path,
}

abbrev pub total : List (Value × ℕ) → ℕ
total [] = 0
total ((k, n) ∷ counts) = n + total counts

total-put_key :
    (c : List (Value × ℕ)) (k : Value) → total (put_key c k (suc (tries c k))) ≡ suc (total c)
total-put_key [] k = omega arith
total-put_key ((j, n) ∷ c) k = ground (arith, total-put_key c k)

-- A count that is not zero stays so.
tries-put_key :
    (c : List (Value × ℕ)) (k j : Value) (n : ℕ) → 0 < tries c j → 0 < tries (put_key c k (suc n)) j
tries-put_key [] k j n h = ground arith
tries-put_key ((i, m) ∷ c) k j n h = ground (arith, tries-put_key c k j n)

module _ {A : Type 0} (P : Value → Type 0) (Q : A → Type 0) where
  abbrev pub Each : List (Value × A) → Type 0
  Each [] = Unit
  Each ((k, a) ∷ d) = P k × Q a × Each d

  Each-put_key :
      (d : List (Value × A)) (k : Value) (a : A) → P k → Q a → Each d → Each (put_key d k a)
  Each-put_key [] k a p q e = (p, q, tt)
  Each-put_key ((j, b) ∷ d) k a p q (pj, qb, e) = elim (Bool-cases (value_eq j k)) [
    | inl h ↦ rw h (pj, q, e)
    | inr h ↦ rw h (pj, qb, Each-put_key d k a p q e)
  ]

Each-map :
    {A : Type 0} (P R : Value → Type 0) (Q : A → Type 0) (d : List (Value × A))
    → ((k : Value) → P k → R k)
    → Each P Q d
    → Each R Q d
Each-map P R Q [] f e = tt
Each-map P R Q ((k, a) ∷ d) f (p, q, e) = (f k p, q, Each-map P R Q d f e)

module _ (F : Frappe) (decode : String → Result (List ℕ)) where
  -- What a recorded delivery is: of the fixture site, and each of its attachments a PDF.
  pub record IsGenuine (payload : Fields) : Type 0 where
    pub pdfs : pdfs_valid F decode payload ≡ ok true
    pub here : value_eq (get payload "tenant_id") (str fixture_site) ≡ true

  module _ (P : Value → Type 0) (key : Value) (payload : Fields) (tried : P key)
      (here : value_eq (get payload "tenant_id") (str fixture_site) ≡ true) where
    capture-recorded :
        (p : Peer)
        → pdfs_valid F decode payload ≡ ok true
        → Each P IsGenuine p.deliveries
        → Each P IsGenuine (capture F decode key payload p).1.deliveries
    unfolding capture
    capture-recorded p pdfs e =
        let added =
          Each-put_key P IsGenuine p.deliveries key payload tried
            (record { pdfs = pdfs; here = here }) e in
        elim (Option-cases (at_key p.deliveries key)) [
          | inl h ↦ rw (h, capture) added
          | inr (before, h) ↦ elim (Bool-cases (value_eq (dict before) (dict payload))) [
            | inl s ↦ rw (h, capture, s) added
            | inr s ↦ rw (h, capture, s) e
          ]
        ]

    capture_pdfs-recorded :
        (r : Result Bool) (p : Peer)
        → pdfs_valid F decode payload ≡ r
        → Each P IsGenuine p.deliveries
        → Each P IsGenuine (capture_pdfs F decode key payload r p).1.deliveries
    capture_pdfs-recorded (err x) p h e = e
    capture_pdfs-recorded (ok true) p h e = capture-recorded p h e
    capture_pdfs-recorded (ok false) p h e = e

    deliver_to-recorded :
        (p : Peer)
        → Each P IsGenuine p.deliveries
        → Each P IsGenuine (deliver_to F decode key payload p).1.deliveries
    unfolding deliver_to
    deliver_to-recorded p e =
        elim (Bool-cases (to_group F decode payload && not (p.group_failures == 0))) [
          | inl h ↦ rw (h, deliver_to) e
          | inr h ↦
              rw (h, deliver_to) (capture_pdfs-recorded (pdfs_valid F decode payload) p refl e)
        ]

  capture-attempts :
      (key : Value) (payload : Fields) (p : Peer)
      → (capture F decode key payload p).1.attempts ≡ p.attempts
  unfolding capture
  capture-attempts key payload p = ground arith

  capture_pdfs-attempts :
      (key : Value) (payload : Fields) (r : Result Bool) (p : Peer)
      → (capture_pdfs F decode key payload r p).1.attempts ≡ p.attempts
  capture_pdfs-attempts key payload (err e) p = refl
  capture_pdfs-attempts key payload (ok true) p = capture-attempts key payload p
  capture_pdfs-attempts key payload (ok false) p = refl

  deliver_to-attempts :
      (key : Value) (payload : Fields) (p : Peer)
      → (deliver_to F decode key payload p).1.attempts ≡ p.attempts
  unfolding deliver_to
  deliver_to-attempts key payload p =
      ground (arith, capture_pdfs-attempts key payload (pdfs_valid F decode payload) p)

  -- The counts and the records of a peer that has `n` nonces.
  abbrev pub Tallies : ℕ → Peer → Type 0
  Tallies n p = (total p.attempts ≤ n) × Each (λ k. 0 < tries p.attempts k) IsGenuine p.deliveries

  counted_peer : Peer → Value → Peer
  counted_peer p key = record p { attempts = put_key p.attempts key (suc (tries p.attempts key)) }

  deliver_to-Tallies :
      (key : Value) (payload : Fields) (n : ℕ) (p : Peer)
      → value_eq (get payload "tenant_id") (str fixture_site) ≡ true
      → hashable key ≡ true
      → total p.attempts < n
      → Each (λ k. 0 < tries p.attempts k) IsGenuine p.deliveries
      → Tallies n (deliver_to F decode key payload (counted_peer p key)).1
  unfolding counted_peer
  deliver_to-Tallies key payload n p here is_key below e =
      let counts = put_key p.attempts key (suc (tries p.attempts key)) in
      let self =
        ap or_zero
          (at_key-put_key p.attempts key (suc (tries p.attempts key)) (value_eq_self key is_key)) in
      let tried : 0 < tries counts key = omega (arith, self) in
      let older =
        Each-map (λ k. 0 < tries p.attempts k) (λ k. 0 < tries counts k) IsGenuine p.deliveries
          (λ k. tries-put_key p.attempts key k (tries p.attempts key)) e in
      let bound : total counts ≤ n = omega (arith, total-put_key p.attempts key) in
      rw (deliver_to-attempts key payload (counted_peer p key)) (
        bound,
        deliver_to-recorded (λ k. 0 < tries counts k) key payload tried here (counted_peer p key)
            older,
      )

  serve_send-Tallies :
      (payload : Fields) (n : ℕ) (p : Peer)
      → value_eq (get payload "tenant_id") (str fixture_site) ≡ true
      → total p.attempts < n
      → Each (λ k. 0 < tries p.attempts k) IsGenuine p.deliveries
      → Tallies n (serve_send F decode payload p).1
  unfolding serve_send count_attempt counted_peer
  serve_send-Tallies payload n p here below e =
      let kept : Tallies n p = (omega arith, e) in
      elim (Option-cases (find_key payload "idempotency_key")) [
        | inl h ↦ rw (h, serve_send) kept
        | inr (key, h) ↦ elim (Bool-cases (hashable key)) [
          | inl k ↦
              rw (h, serve_send, k, count_attempt)
                (deliver_to-Tallies key payload n p here k below e)
          | inr k ↦ rw (h, serve_send, k, count_attempt) kept
        ]
      ]

  pub serve_path-Tallies :
      (path : String) (payload : Fields) (n : ℕ) (p : Peer)
      → total p.attempts < n
      → Each (λ k. 0 < tries p.attempts k) IsGenuine p.deliveries
      → Tallies n (serve_path F decode path payload p).1
  unfolding serve_path
  serve_path-Tallies path payload n p below e =
      let kept : Tallies n p = (omega arith, e) in
      elim (Bool-cases (value_eq (get payload "tenant_id") (str fixture_site))) [
        | inr h ↦ rw (h, serve_path) kept
        | inl h ↦ elim (Bool-cases (str_eq path "/v1/groups")) [
          | inl a ↦ rw (h, serve_path, a) kept
          | inr a ↦ elim (Bool-cases (str_eq path "/v1/status")) [
            | inl b ↦ rw (h, serve_path, a, b) kept
            | inr b ↦ elim (Bool-cases (str_eq path "/v1/send")) [
              | inl c ↦ rw (h, serve_path, a, b, c) (serve_send-Tallies payload n p h below e)
              | inr c ↦ rw (h, serve_path, a, b, c) kept
            ]
          ]
        ]
      ]
