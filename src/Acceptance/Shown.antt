-- ===== src/Acceptance/Shown.antt =====
-- What `diagnostic_path` and `exception_location` show (group_browser_acceptance.py in
-- erpnext_whatsapp_connection).
use Prim.Native.Char.{code}
use Prim.Native.String.{[], ◌∷◌}
use erpnext_whatsapp_connect.Base as Base
use erpnext_whatsapp_connect.Base.{
  ℕ, zero, suc, ◌≤◌, String, Bool, true, false, not, ◌&&◌, Option, none, some, List, ◌≡◌, ◌⊎◌, inl,
  inr, refl, sym, ap, ◌∙◌, subst, arith, length, contains, All, if◌then◌else◌, Bool-cases,
}
use erpnext_whatsapp_connect.Py.Result.{
  crash, ok, bind-ok, check-passed, or_error-passed, ok-injective, err-ne-ok,
}
use erpnext_whatsapp_connect.Py.Value.{
  Value, null, bool, int, str, list, dict, Fields, get, as_dict, as_list, as_str, or_else, nil,
}
use erpnext_whatsapp_connect.Acceptance.Url.{
  before, from, ends_path, ends_host, path_behind, url_path, without_scheme, drop_unsafe,
  strip_controls, is_static, redacted, diagnostic_path,
}
use erpnext_whatsapp_connect.Acceptance.Browser.{
  Place, Location, kinds, kind_of, dict_or_empty, first, path_of, place_of, places_of,
  exception_location,
}

-- No character of the text stops.
abbrev pub lacks : (ℕ → Bool) → String → Bool
lacks stops [] = true
lacks stops (c ∷ s) = not (stops (code c)) && lacks stops s

lacks-before : (stops : ℕ → Bool) (s : String) → lacks stops (before stops s) ≡ true
unfolding before
lacks-before stops [] = refl
lacks-before stops (c ∷ s) = elim (Bool-cases (stops (code c))) [
  | inl h ↦ rw h refl
  | inr h ↦ rw h (rw h (lacks-before stops s))
]

-- Nothing of the URL, or a path of the app's assets or of a method, without arguments.
abbrev pub IsShown : String → Type 0
IsShown p = (p ≡ redacted) ⊎ ((is_static p ≡ true) × (lacks ends_path p ≡ true))

abbrev pub IsPlaced : Place → Type 0
IsPlaced p = IsShown p.source

length-first : (n : ℕ) (vs : List Value) → length (first n vs) ≤ n
length-first zero vs = omega arith
length-first (suc n) Base.[] = omega arith
length-first (suc n) (Base.◌∷◌ v vs) = omega (arith, length-first n vs)

-- One of the known kinds of exception, or "Other"; places that are shown, and at most eight frames.
pub record IsLocation (l : Location) : Type 0 where
  pub kind : (contains l.kind kinds ≡ true) ⊎ (l.kind ≡ "Other")
  pub place : IsPlaced l.place
  pub frames : All IsPlaced l.frames
  pub few : length l.frames ≤ 8

kind_of-known :
    (v : Value) (k : String) → kind_of v ≡ ok k → (contains k kinds ≡ true) ⊎ (k ≡ "Other")
kind_of-known (list _) k h = absurd (err-ne-ok _ k h)
kind_of-known (dict _) k h = absurd (err-ne-ok _ k h)
kind_of-known null k h = inr (sym (ok-injective "Other" k h))
kind_of-known (bool _) k h = inr (sym (ok-injective "Other" k h))
kind_of-known (int _) k h = inr (sym (ok-injective "Other" k h))
kind_of-known (str s) k h = elim (Bool-cases (contains s kinds)) [
  | inl e ↦ inl (subst (λ j. contains j kinds ≡ true) (ok-injective s k (rw e at h)) e)
  | inr e ↦ inr (sym (ok-injective "Other" k (rw e at h)))
]

module _ (netloc_ok : String → Bool) where
  path_behind-lacks :
      (s : String) (rest : Option String) (p : String)
      → path_behind netloc_ok s rest ≡ ok p
      → lacks ends_path p ≡ true
  path_behind-lacks s none p h =
      subst (λ q. lacks ends_path q ≡ true) (ok-injective _ p h) (lacks-before ends_path s)
  path_behind-lacks s (some rest) p h =
      let (fine, same) =
        check-passed (netloc_ok (before ends_host rest)) (crash "Invalid URL")
          (ok (before ends_path (from ends_host rest))) p h in
      subst (λ q. lacks ends_path q ≡ true) (ok-injective _ p same)
        (lacks-before ends_path (from ends_host rest))

  pub diagnostic_path-IsShown : (url p : String) → diagnostic_path netloc_ok url ≡ ok p → IsShown p
  unfolding diagnostic_path url_path
  diagnostic_path-IsShown url p h =
      let (path, found, h1) = bind-ok (url_path netloc_ok url) _ p h in
      let clean =
        path_behind-lacks (without_scheme (drop_unsafe (strip_controls url))) _ path found in
      elim (Bool-cases (is_static path)) [
        | inl e ↦ subst IsShown (ok-injective path p (rw e at h1)) (inr (e, clean))
        | inr e ↦ inl (sym (ok-injective redacted p (rw e at h1)))
      ]

  pub path_of-IsShown : (v : Value) (p : String) → path_of netloc_ok v ≡ ok p → IsShown p
  path_of-IsShown v p h =
      let (url, found, h1) =
        or_error-passed (crash "not a text") (as_str (or_else v (str ""))) _ p h in
      diagnostic_path-IsShown url p h1

  place_of-IsPlaced : (fs : Fields) (p : Place) → place_of netloc_ok fs ≡ ok p → IsPlaced p
  place_of-IsPlaced fs p h =
      let (source, found, h1) = bind-ok (path_of netloc_ok (get fs "url")) _ p h in
      subst IsPlaced (ok-injective _ p h1) (path_of-IsShown (get fs "url") source found)

  places_of-IsPlaced :
      (vs : List Value) (ps : List Place)
      → places_of netloc_ok vs ≡ ok ps
      → All IsPlaced ps × (length ps ≡ length vs)
  unfolding places_of
  places_of-IsPlaced Base.[] ps h =
      subst (λ (qs : List Place). All IsPlaced qs × (length qs ≡ 0)) (ok-injective Base.[] ps h)
        (tt, refl)
  places_of-IsPlaced (Base.◌∷◌ v vs) ps h =
      let (frame, is_dict, h1) = or_error-passed (crash "no attribute 'get'") (as_dict v) _ ps h in
      let (p, placed, h2) = bind-ok (place_of netloc_ok frame) _ ps h1 in
      let (qs, rest, h3) = bind-ok (places_of netloc_ok vs) _ ps h2 in
      let (all, size) = places_of-IsPlaced vs qs rest in
      subst (λ (us : List Place). All IsPlaced us × (length us ≡ suc (length vs)))
        (ok-injective (Base.◌∷◌ p qs) ps h3) ((place_of-IsPlaced frame p placed, all), ap suc size)

  pub exception_location-IsLocation :
      (details : Fields) (l : Location) → exception_location netloc_ok details ≡ ok l → IsLocation l
  unfolding exception_location
  exception_location-IsLocation details l h =
      let (exception, e1, h1) = bind-ok (dict_or_empty (get details "exception")) _ l h in
      let (trace, e2, h2) = bind-ok (dict_or_empty (get details "stackTrace")) _ l h1 in
      let (frames, e3, h3) =
        or_error-passed (crash "not a list") (as_list (or_else (get trace "callFrames") (list nil)))
          _ l h2 in
      let (kind, e4, h4) = bind-ok (kind_of (get exception "className")) _ l h3 in
      let (place, e5, h5) = bind-ok (place_of netloc_ok details) _ l h4 in
      let (places, e6, h6) = bind-ok (places_of netloc_ok (first 8 frames)) _ l h5 in
      let (placed, size) = places_of-IsPlaced (first 8 frames) places e6 in
      subst IsLocation (ok-injective _ l h6) (record {
        kind = kind_of-known (get exception "className") kind e4;
        place = place_of-IsPlaced details place e5;
        frames = placed;
        few = omega (arith, length-first 8 frames, size);
      })
