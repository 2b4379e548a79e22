-- ===== src/Connection.antt =====
-- The site's connection to the gateway: erpnext_whatsapp_connection/settings_api.py.
pub mod Guard
use erpnext_whatsapp_connect.Base.{
  ℕ, String, Bool, true, false, not, ◌||◌, Option, none, some, List, str_eq, if◌then◌else◌, ◌==◌,
}
use erpnext_whatsapp_connect.Py.Result.{
  Error, validation, permission, crash, gateway, Result, ok, err, check, message,
}
use erpnext_whatsapp_connect.Py.Action.{Action, pure, lift, gets, throw_if, modify, ◌>>=◌, ◌>>◌}
use erpnext_whatsapp_connect.Py.Value.{
  Value, null, bool, str, dict, Fields, end, field, get, or_else, as_dict, as_str,
}
use erpnext_whatsapp_connect.Py.Text.{concat}
use erpnext_whatsapp_connect.Site.Records.{Settings}
use erpnext_whatsapp_connect.Site.Frappe.{Frappe}
use erpnext_whatsapp_connect.Site.World.{World}
use erpnext_whatsapp_connect.Permissions.{is_manager}
use erpnext_whatsapp_connect.Settings.{save_settings}
use erpnext_whatsapp_connect.Gateway.{gateway_request, site_payload, get_of}

abbrev pub not_manager : Error
not_manager = permission "Only a WhatsApp manager can manage the connection."

abbrev pub gateway_provider : String → String
gateway_provider provider = if str_eq provider "Official API" then "Official API" else "Baileys"

-- The four values that `_update_status` writes into the settings.
abbrev pub with_status : Fields → Settings → Settings
with_status result s = record s {
  connection_status = or_else (get result "status") (str "Disconnected");
  last_error = or_else (get result "last_error") (str "");
  last_connected_at = or_else (get result "last_connected_at") null;
  last_disconnected_at = or_else (get result "last_disconnected_at") null;
}

-- The arguments of `configure_official_api`.
pub record Credentials : Type 0 where
  pub access_token : String
  pub phone_number_id : String
  pub business_account_id : String
  pub api_version : String
  pub app_secret : String
  pub verify_token : String

abbrev pub is_incomplete : Credentials → Bool
is_incomplete c =
    str_eq c.access_token ""
    || str_eq c.phone_number_id ""
    || str_eq c.app_secret ""
    || str_eq c.verify_token ""

-- What a call of the webhook carries, and what it answers.
pub record WebhookCall : Type 0 where
  pub method : String
  pub form : Fields
  pub body : List ℕ
  pub signature : Option String

pub data WebhookAnswer : Type 0 where
  text : Value → WebhookAnswer
  success : WebhookAnswer

abbrev pub configured : Credentials → String → Settings → Settings
configured c url s = record s {
  provider = "Official API";
  official_phone_number_id = c.phone_number_id;
  official_business_account_id = c.business_account_id;
  official_api_version = c.api_version;
  webhook_url = url;
}

-- What `get_status` reports when the gateway fails.
abbrev pub error_status : Settings → String → Value
error_status s reason = dict (
    field "provider" (str s.provider) (
      field "status" (str "Error") (
        field "connected" (bool false) (
          field "authenticated" (bool false)
            (field "qr_data_url" (str "") (field "last_error" (str reason) end))))))

abbrev pub credentials_payload : Credentials → Fields
credentials_payload c = field "access_token" (str c.access_token) (
    field "phone_number_id" (str c.phone_number_id) (
      field "business_account_id" (str c.business_account_id) (
        field "api_version" (str c.api_version)
          (field "app_secret" (str c.app_secret) (field "verify_token" (str c.verify_token) end)))))

abbrev pub signature_or_empty : Option String → String
signature_or_empty none = ""
signature_or_empty (some s) = s

module _ (F : Frappe) where
  -- The guard of `_require_manager`.
  abbrev pub is_denied : String → Bool
  is_denied user = str_eq user "Guest" || not (is_manager F user)

  unfoldable pub update_status : Value → Action (World F) (Unit {0})
  update_status result w = elim (as_dict result) [
    | none ↦ (err (crash "object has no attribute 'get'"), w)
    | some fields ↦ (ok tt, record w { settings = with_status fields w.settings })
  ]

  abbrev pub ask : String → Action (World F) Value
  ask path w =
      gateway_request F path
        (site_payload F (field "provider" (str (gateway_provider w.settings.provider)) end)) w

  -- A result is recorded and returned.
  abbrev pub recorded : Value → Action (World F) Value
  recorded result = do update_status result; pure result

  -- `except WhatsAppGatewayError`.
  abbrev pub or_error_status : Settings → Result Value × World F → Result Value × World F
  or_error_status s (ok v, w) = (ok v, w)
  or_error_status s (err (gateway m r), w) = (ok (error_status s m), w)
  or_error_status s (err (validation m), w) = (err (validation m), w)
  or_error_status s (err (permission m), w) = (err (permission m), w)
  or_error_status s (err (crash m), w) = (err (crash m), w)

  unfoldable pub get_status : Action (World F) Value
  unfolding update_status
  get_status = do
    user ← gets (λ w. w.user)
    throw_if (is_denied user) not_manager
    settings ← gets (λ w. w.settings)
    result ← λ w. or_error_status settings (ask "/v1/status" w)
    recorded result

  unfoldable pub connect : Action (World F) Value
  unfolding update_status
  connect = do
    user ← gets (λ w. w.user)
    throw_if (is_denied user) not_manager
    result ← ask "/v1/connect"
    recorded result

  unfoldable pub disconnect_and_remove_authentication : Action (World F) Value
  unfolding update_status
  disconnect_and_remove_authentication = do
    user ← gets (λ w. w.user)
    throw_if (is_denied user) not_manager
    result ← ask "/v1/disconnect"
    recorded result

  abbrev pub webhook_url : String
  webhook_url =
      concat "https://"
        (concat F.site "/api/method/erpnext_whatsapp_connection.settings_api.cloud_webhook")

  unfoldable pub configure_official_api : Credentials → Action (World F) Value
  unfolding update_status
  configure_official_api c = do
    user ← gets (λ w. w.user)
    throw_if (is_denied user) not_manager
    throw_if (is_incomplete c)
        (validation "The access token, phone number ID, app secret and webhook token are required.")
    result ← gateway_request F "/v1/cloud/configure" (site_payload F (credentials_payload c))
    settings ← gets (λ w. w.settings)
    save_settings F (configured c webhook_url settings)
    recorded result

  -- `cloud_webhook`: the verification of the webhook, or an event that is passed on.
  abbrev pub verify_webhook : Fields → Action (World F) WebhookAnswer
  verify_webhook form = do
    result ← gateway_request F "/v1/cloud/webhook/verify" (
        site_payload F (
          field "verify_token" (get form "hub.verify_token")
            (field "challenge" (get form "hub.challenge") end)))
    challenge ← lift (get_of result "challenge")
    pure (text (or_else challenge (str "")))

  abbrev pub pass_on : List ℕ → Option String → Action (World F) WebhookAnswer
  pass_on body signature = do
    result ← gateway_request F "/v1/cloud/webhook" (
        site_payload F (
          field "payload_base64" (str (F.base64 body))
            (field "signature" (str (signature_or_empty signature)) end)))
    pure success

  abbrev pub is_subscription : Fields → Bool
  is_subscription form = elim (as_str (get form "hub.mode")) [
    | none ↦ false
    | some mode ↦ str_eq mode "subscribe"
  ]

  unfoldable pub cloud_webhook : WebhookCall → Action (World F) WebhookAnswer
  cloud_webhook call =
      if str_eq call.method "GET"
      then (do
        throw_if (not (is_subscription call.form))
            (permission "Unsupported webhook verification mode.")
        verify_webhook call.form)
      else pass_on call.body call.signature
