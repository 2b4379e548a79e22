-- ===== src/Acceptance/Browser.antt =====
-- The reader of the browser's events: `exception_location` and `Browser.read` of
-- erpnext_whatsapp_connection/group_browser_acceptance.py.
use erpnext_whatsapp_connect.Base.{
  ℕ, zero, suc, String, Bool, true, false, ◌&&◌, Option, none, some, List, [], ◌∷◌, ◌++◌, leb, ltb,
  length, contains, is_some, if◌then◌else◌, pos, negsuc,
}
use erpnext_whatsapp_connect.Py.Result.{Error, crash, Result, ok, err, or_error, ◌>>=◌}
use erpnext_whatsapp_connect.Py.Action.{Action}
use erpnext_whatsapp_connect.Py.Value.{
  Value, null, bool, int, str, list, nil, dict, Fields, end, get, find_key, as_str, as_dict,
  as_list, or_else,
}
use erpnext_whatsapp_connect.Py.Equality.{value_eq}
use erpnext_whatsapp_connect.Acceptance.Url.{diagnostic_path}

-- A place in a script, `line` and `column` as the browser gives them.
pub record Place : Type 0 where
  pub source : String
  pub line : Value
  pub column : Value

-- The dict that `exception_location` returns.
pub record Location : Type 0 where
  pub kind : String
  pub place : Place
  pub frames : List Place

pub record HttpError : Type 0 where
  pub source : String
  pub status : Value

-- The state that the reader's thread and the commands share; `responses` is the queue of 16 places.
pub record Browser : Type 0 where
  pub errors : List Location
  pub http_errors : List HttpError
  pub exception_objects : List Value
  pub responses : List Fields
  pub stop : Bool
  pub reader_error : Option Error
  pub sequence : ℕ

abbrev pub new_browser : Browser
new_browser = record {
  errors = [];
  http_errors = [];
  exception_objects = [];
  responses = [];
  stop = false;
  reader_error = none;
  sequence = 0;
}

abbrev pub kinds : List String
kinds =
    "Error" ∷ "TypeError" ∷ "ReferenceError" ∷ "SyntaxError" ∷ "RangeError" ∷ "Object"
    ∷ "DOMException" ∷ []

-- `kind if kind in kinds else 'Other'`; a list or a dict cannot be looked up in a set.
abbrev pub kind_of : Value → Result String
kind_of (list _) = err (crash "unhashable type")
kind_of (dict _) = err (crash "unhashable type")
kind_of (str s) = ok (if contains s kinds then s else "Other")
kind_of null = ok "Other"
kind_of (bool _) = ok "Other"
kind_of (int _) = ok "Other"

-- `value or {}`, of which `get` is called.
abbrev pub dict_or_empty : Value → Result Fields
dict_or_empty v = or_error (crash "no attribute 'get'") (as_dict (or_else v (dict end)))

-- `frames or []`, of which the first eight are taken.
abbrev pub first : ℕ → List Value → List Value
first zero vs = []
first (suc n) [] = []
first (suc n) (v ∷ vs) = v ∷ first n vs

-- `status >= 400`, for a number; True is 1.
abbrev pub at_least_400 : Value → Result Bool
at_least_400 (int (pos n)) = ok (leb 400 n)
at_least_400 (int (negsuc n)) = ok false
at_least_400 (bool _) = ok false
at_least_400 null = err (crash "'>=' not supported")
at_least_400 (str _) = err (crash "'>=' not supported")
at_least_400 (list _) = err (crash "'>=' not supported")
at_least_400 (dict _) = err (crash "'>=' not supported")

abbrev pub or_zero_status : Option Value → Value
or_zero_status none = int (pos 0)
or_zero_status (some v) = v

-- `value[key]` on a dict.
abbrev pub index_key : Value → String → Result Value
index_key v k =
    or_error (crash "not a dict") (as_dict v) >>= λ fs. or_error (crash "KeyError") (find_key fs k)

abbrev pub exhausted_buffer : Error
exhausted_buffer = crash "Browser exception buffer exhausted"

-- What a call of `recv` gives: nothing in time, the JSON of a text, or an error (also for a text that
-- is no JSON). `closed` is the error that comes while `__exit__` has set the flag and closes the
-- connection.
pub data Received : Type 0 where
  timeout : Received
  message : Value → Received
  broken closed : Error → Received

abbrev pub raised : Result (Browser → Browser) → Action Browser (Unit {0})
raised (ok f) b = (ok tt, f b)
raised (err e) b = (err e, b)

abbrev pub add_error : Location → Value → Browser → Browser
add_error location object b = record b {
  errors = b.errors ++ location ∷ [];
  exception_objects = b.exception_objects ++ object ∷ [];
}

abbrev pub add_http_error : HttpError → Browser → Browser
add_http_error e b = record b { http_errors = b.http_errors ++ e ∷ [] }

-- `self.responses.put_nowait(event)`.
abbrev pub put_nowait : Fields → Action Browser (Unit {0})
put_nowait event b =
    if ltb (length b.responses) 16
    then (ok tt, record b { responses = b.responses ++ event ∷ [] })
    else (err (crash "Full"), b)

-- `except Exception as error`.
abbrev pub keep_error : Error → Browser → Browser
keep_error e b = if b.stop then b else record b { reader_error = some e }

module _ (netloc_ok : String → Bool) where
  -- `diagnostic_path(value)`, where what is false counts as no text.
  abbrev pub path_of : Value → Result String
  path_of v =
      or_error (crash "not a text") (as_str (or_else v (str ""))) >>= diagnostic_path netloc_ok

  abbrev pub place_of : Fields → Result Place
  place_of fs = path_of (get fs "url") >>= λ source.
      ok (record { source = source; line = get fs "lineNumber"; column = get fs "columnNumber" })

  unfoldable pub places_of : List Value → Result (List Place)
  places_of [] = ok []
  places_of (v ∷ vs) = or_error (crash "no attribute 'get'") (as_dict v) >>= λ frame.
      place_of frame >>= λ p. places_of vs >>= λ ps. ok (p ∷ ps)

  unfoldable pub exception_location : Fields → Result Location
  unfolding places_of
  exception_location details = do
    exception ← dict_or_empty (get details "exception")
    trace ← dict_or_empty (get details "stackTrace")
    frames ← or_error (crash "not a list") (as_list (or_else (get trace "callFrames") (list nil)))
    kind ← kind_of (get exception "className")
    place ← place_of details
    places ← places_of (first 8 frames)
    ok (record { kind = kind; place = place; frames = places })

  -- An exception in the page.
  unfoldable pub on_exception : Fields → Result (Browser → Browser)
  unfolding exception_location
  on_exception event = do
    params ← index_key (dict event) "params"
    value ← index_key params "exceptionDetails"
    details ← or_error (crash "no attribute 'get'") (as_dict value)
    location ← exception_location details
    exception ← dict_or_empty (get details "exception")
    ok (add_error location (get exception "objectId"))

  abbrev pub http_error_of : Fields → Bool → Result (Browser → Browser)
  http_error_of response false = ok (λ b. b)
  http_error_of response true = path_of (get response "url") >>= λ source.
      index_key (dict response) "status" >>= λ status.
      ok (add_http_error (record { source = source; status = status }))

  -- An answer to one of the page's requests; `room` says that fewer than fifty are kept.
  unfoldable pub on_response : Bool → Fields → Result (Browser → Browser)
  on_response room event = do
    params ← index_key (dict event) "params"
    value ← index_key params "response"
    response ← or_error (crash "no attribute 'get'") (as_dict value)
    failed ← at_least_400 (or_zero_status (find_key response "status"))
    http_error_of response (failed && room)

  unfoldable pub on_event : Fields → Action Browser (Unit {0})
  unfolding on_exception on_response
  on_event event b =
      if value_eq (get event "method") (str "Runtime.exceptionThrown")
      then (if leb 50 (length b.errors)
          then (err exhausted_buffer, b)
          else raised (on_exception event) b)
      else if value_eq (get event "method") (str "Network.responseReceived")
      then raised (on_response (ltb (length b.http_errors) 50) event) b
      else if is_some (find_key event "id")
      then put_nowait event b
      else (ok tt, b)

  abbrev pub on_value : Option Fields → Action Browser (Unit {0})
  on_value none b = (err (crash "no attribute 'get'"), b)
  on_value (some event) b = on_event event b

  -- The loop; an error ends it.
  unfoldable pub read : List Received → Browser → Browser
  unfolding on_event
  read [] b = b
  read (timeout ∷ rest) b = read rest b
  read (broken e ∷ rest) b = keep_error e b
  read (closed e ∷ rest) b = keep_error e (record b { stop = true })
  read (message v ∷ rest) b =
      let (result, b') = on_value (as_dict v) b in
      elim result [ ok _ ↦ read rest b' | err e ↦ keep_error e b' ]
