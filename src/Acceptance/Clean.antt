-- ===== src/Acceptance/Clean.antt =====
-- Which states of the browser's reader are bounded and redacted, and what keeps them so
-- (`Browser` of erpnext_whatsapp_connection/group_browser_acceptance.py).
use erpnext_whatsapp_connect.Base.{
  suc, ◌≤◌, ◌<◌, Bool, true, false, ◌&&◌, Option, some, [], ◌∷◌, ◌≡◌, ◌⊎◌, inl, inr, refl, sym, ap,
  ◌∙◌, subst, arith, length, length-append_one, All, All-append, ltb, leb, if◌then◌else◌,
  Bool-cases,
}
use erpnext_whatsapp_connect.Py.Result.{Error, Result, ok, err}
use erpnext_whatsapp_connect.Py.Value.{Value, Fields}
use erpnext_whatsapp_connect.Acceptance.Browser.{
  Browser, Location, HttpError, raised, add_error, add_http_error, put_nowait, keep_error,
}
use erpnext_whatsapp_connect.Acceptance.Shown.{IsShown, IsLocation}

-- Bounded, and nothing in it but static sources.
pub record IsClean (b : Browser) : Type 0 where
  pub errors : length b.errors ≤ 50
  pub http_errors : length b.http_errors ≤ 50
  pub responses : length b.responses ≤ 16
  pub objects : length b.exception_objects ≡ length b.errors
  pub locations : All IsLocation b.errors
  pub sources : All (λ (e : HttpError). IsShown e.source) b.http_errors

-- The event leaves the state alone, or adds one entry while there is room.
abbrev pub Adds : Bool → (Browser → Browser) → Type 0
Adds room f =
    (f ≡ (λ b. b)) ⊎ ((e : HttpError) × (room ≡ true) × (f ≡ add_http_error e) × IsShown e.source)

pub Adds-room : (failed room : Bool) (f : Browser → Browser) → Adds (failed && room) f → Adds room f
Adds-room failed room f (inl h) = inl h
Adds-room failed room f (inr (e, k, same, h)) = inr (e, ground (arith, k), same, h)

pub add_error-IsClean :
    (l : Location) (v : Value) (b : Browser)
    → leb 50 (length b.errors) ≡ false
    → IsLocation l
    → IsClean b
    → IsClean (add_error l v b)
add_error-IsClean l v b room ok_l c =
    let below : length b.errors < 50 = ground arith in
    record {
      errors = rw (length-append_one b.errors l) (omega arith);
      http_errors = c.http_errors;
      responses = c.responses;
      objects =
          length-append_one b.exception_objects v
          ∙ ap suc c.objects
          ∙ sym (length-append_one b.errors l);
      locations = All-append IsLocation b.errors (l ∷ []) c.locations (ok_l, tt);
      sources = c.sources;
    }

add_http_error-IsClean :
    (e : HttpError) (b : Browser)
    → ltb (length b.http_errors) 50 ≡ true
    → IsShown e.source
    → IsClean b
    → IsClean (add_http_error e b)
add_http_error-IsClean e b room shown c =
    let below : length b.http_errors < 50 = ground arith in
    record {
      errors = c.errors;
      http_errors = rw (length-append_one b.http_errors e) (omega arith);
      responses = c.responses;
      objects = c.objects;
      locations = c.locations;
      sources =
          All-append (λ (x : HttpError). IsShown x.source) b.http_errors (e ∷ []) c.sources
            (shown, tt);
    }

pub applied-IsClean :
    (r : Result (Browser → Browser)) (b : Browser)
    → ((f : Browser → Browser) → r ≡ ok f → IsClean (f b))
    → IsClean b
    → IsClean (raised r b).1
applied-IsClean (ok f) b h c = h f refl
applied-IsClean (err e) b h c = c

pub put_nowait-IsClean : (event : Fields) (b : Browser) → IsClean b → IsClean (put_nowait event b).1
put_nowait-IsClean event b c = elim (Bool-cases (ltb (length b.responses) 16)) [
  | inr h ↦ rw h c
  | inl h ↦ rw h (record {
    errors = c.errors;
    http_errors = c.http_errors;
    responses = rw (length-append_one b.responses event) (ground arith);
    objects = c.objects;
    locations = c.locations;
    sources = c.sources;
  })
]

pub response-IsClean :
    (f : Browser → Browser) (b : Browser)
    → Adds (ltb (length b.http_errors) 50) f
    → IsClean b
    → IsClean (f b)
response-IsClean f b (inl same) c = subst (λ g. IsClean (g b)) (sym same) c
response-IsClean f b (inr (e, room, same, shown)) c =
    subst (λ g. IsClean (g b)) (sym same) (add_http_error-IsClean e b room shown c)

pub flags-IsClean :
    (stop : Bool) (e : Option Error) (b : Browser)
    → IsClean b
    → IsClean (record b { stop = stop; reader_error = e })
flags-IsClean stop e b c = record {
  errors = c.errors;
  http_errors = c.http_errors;
  responses = c.responses;
  objects = c.objects;
  locations = c.locations;
  sources = c.sources;
}

either-IsClean : (t : Bool) (x y : Browser) → IsClean x → IsClean y → IsClean (if t then x else y)
either-IsClean true x y c d = c
either-IsClean false x y c d = d

pub keep_error-IsClean : (e : Error) (b : Browser) → IsClean b → IsClean (keep_error e b)
keep_error-IsClean e b c = either-IsClean b.stop _ _ c (flags-IsClean b.stop (some e) b c)
