-- ===== src/Acceptance/Redacted.antt =====
-- What the reader of the browser's events keeps (`Browser.read` of
-- erpnext_whatsapp_connection/group_browser_acceptance.py).
use erpnext_whatsapp_connect.Base.{
  String, Bool, true, false, ◌&&◌, Option, none, some, List, [], ◌∷◌, ◌≡◌, inl, inr, refl, sym,
  subst, arith, length, ltb, leb, is_some, Bool-cases,
}
use erpnext_whatsapp_connect.Py.Result.{
  crash, ok, bind-ok, or_error-passed, ok-injective, Result-cases,
}
use erpnext_whatsapp_connect.Py.Value.{Value, str, dict, Fields, get, find_key, as_dict}
use erpnext_whatsapp_connect.Py.Equality.{value_eq}
use erpnext_whatsapp_connect.Acceptance.Browser.{
  Browser, new_browser, Location, Received, timeout, message, broken, closed, dict_or_empty,
  path_of, index_key, exception_location, add_error, on_exception, http_error_of, on_response,
  or_zero_status, at_least_400, on_event, on_value, read,
}
use erpnext_whatsapp_connect.Acceptance.Shown.{
  IsLocation, path_of-IsShown, exception_location-IsLocation,
}
use erpnext_whatsapp_connect.Acceptance.Clean.{
  IsClean, Adds, Adds-room, add_error-IsClean, applied-IsClean, put_nowait-IsClean,
  response-IsClean, flags-IsClean, keep_error-IsClean,
}

module _ (netloc_ok : String → Bool) where
  on_exception-adds :
      (event : Fields) (f : Browser → Browser)
      → on_exception netloc_ok event ≡ ok f
      → (l : Location) × (v : Value) × (f ≡ add_error l v) × IsLocation l
  unfolding on_exception
  on_exception-adds event f h =
      let (params, e1, h1) = bind-ok (index_key (dict event) "params") _ f h in
      let (value, e2, h2) = bind-ok (index_key params "exceptionDetails") _ f h1 in
      let (details, e3, h3) = or_error-passed (crash "no attribute 'get'") (as_dict value) _ f h2 in
      let (l, e4, h4) = bind-ok (exception_location netloc_ok details) _ f h3 in
      let (exception, e5, h5) = bind-ok (dict_or_empty (get details "exception")) _ f h4 in
      (
        l,
        get exception "objectId",
        sym (ok-injective _ f h5),
        exception_location-IsLocation netloc_ok details l e4,
      )

  http_error_of-Adds :
      (response : Fields) (keep : Bool) (f : Browser → Browser)
      → http_error_of netloc_ok response keep ≡ ok f
      → Adds keep f
  http_error_of-Adds response false f h = inl (sym (ok-injective _ f h))
  http_error_of-Adds response true f h =
      let (source, e1, h1) = bind-ok (path_of netloc_ok (get response "url")) _ f h in
      let (status, e2, h2) = bind-ok (index_key (dict response) "status") _ f h1 in
      inr (
        record { source = source; status = status },
        refl,
        sym (ok-injective _ f h2),
        path_of-IsShown netloc_ok (get response "url") source e1,
      )

  on_response-Adds :
      (room : Bool) (event : Fields) (f : Browser → Browser)
      → on_response netloc_ok room event ≡ ok f
      → Adds room f
  unfolding on_response
  on_response-Adds room event f h =
      let (params, e1, h1) = bind-ok (index_key (dict event) "params") _ f h in
      let (value, e2, h2) = bind-ok (index_key params "response") _ f h1 in
      let (response, e3, h3) =
        or_error-passed (crash "no attribute 'get'") (as_dict value) _ f h2 in
      let (failed, e4, h4) =
        bind-ok (at_least_400 (or_zero_status (find_key response "status"))) _ f h3 in
      Adds-room failed room f (http_error_of-Adds response (failed && room) f h4)

  exception-IsClean :
      (event : Fields) (b : Browser)
      → leb 50 (length b.errors) ≡ false
      → IsClean b
      → (f : Browser → Browser) → on_exception netloc_ok event ≡ ok f
      → IsClean (f b)
  exception-IsClean event b room c f h =
      let (l, v, same, placed) = on_exception-adds event f h in
      subst (λ g. IsClean (g b)) (sym same) (add_error-IsClean l v b room placed c)

  on_event-IsClean :
      (event : Fields) (b : Browser) → IsClean b → IsClean (on_event netloc_ok event b).1
  unfolding on_event
  on_event-IsClean event b c =
      elim (Bool-cases (value_eq (get event "method") (str "Runtime.exceptionThrown"))) [
        | inl h ↦ elim (Bool-cases (leb 50 (length b.errors))) [
          | inl k ↦ rw (h, on_event, k) c
          | inr k ↦
              rw (h, on_event, k)
                (applied-IsClean (on_exception netloc_ok event) b (exception-IsClean event b k c) c)
        ]
        | inr h ↦
            elim (Bool-cases (value_eq (get event "method") (str "Network.responseReceived"))) [
              | inl k ↦
                  let room = ltb (length b.http_errors) 50 in
                  rw (h, on_event, k)
                    (applied-IsClean (on_response netloc_ok room event) b
                      (λ f e. response-IsClean f b (on_response-Adds room event f e) c) c)
              | inr k ↦ elim (Bool-cases (is_some (find_key event "id"))) [
                | inl g ↦ rw (h, on_event, k, g) (put_nowait-IsClean event b c)
                | inr g ↦ rw (h, on_event, k, g) c
              ]
            ]
      ]

  on_value-IsClean :
      (v : Option Fields) (b : Browser) → IsClean b → IsClean (on_value netloc_ok v b).1
  on_value-IsClean none b c = c
  on_value-IsClean (some event) b c = on_event-IsClean event b c

  read-keeps :
      (received : List Received) (b : Browser) → IsClean b → IsClean (read netloc_ok received b)
  unfolding read
  read-keeps [] b c = c
  read-keeps (timeout ∷ rest) b c = read-keeps rest b c
  read-keeps (broken e ∷ rest) b c = keep_error-IsClean e b c
  read-keeps (closed e ∷ rest) b c = flags-IsClean true b.reader_error b c
  read-keeps (message v ∷ rest) b c =
      let after = on_value-IsClean (as_dict v) b c in
      elim (Result-cases (on_value netloc_ok (as_dict v) b).0) [
        | inl (u, h) ↦ rw (h, read) (read-keeps rest (on_value netloc_ok (as_dict v) b).1 after)
        | inr (e, h) ↦
            rw (h, read) (keep_error-IsClean e (on_value netloc_ok (as_dict v) b).1 after)
      ]

  -- Whatever the browser reports, and in whatever order: the reader keeps at most fifty exceptions,
  -- as many objects as exceptions, at most fifty failed requests and sixteen answers. An exception
  -- has one of the known kinds, or "Other", and at most eight frames; and each source in it or in a
  -- failed request is the word that stands for a hidden one, or the path of an asset of the apps or of
  -- a method's name, without a query and without a fragment.
  pub read-IsClean : (received : List Received) → IsClean (read netloc_ok received new_browser)
  read-IsClean received = read-keeps received new_browser (record {
    errors = omega arith;
    http_errors = omega arith;
    responses = omega arith;
    objects = refl;
    locations = tt;
    sources = tt;
  })
