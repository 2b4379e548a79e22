-- ===== src/Transport.antt =====
-- The registry of transports and the bundled sender: erpnext_whatsapp_connection/transports.py.
use erpnext_whatsapp_connect.Base.{
  suc, ◌*◌, String, Option, none, some, List, [], ◌∷◌, ◌++◌, ℤ, pos, sub_ℕ, pos_part, neg_part,
  max_ℤ, min_ℤ, str_eq, if◌then◌else◌,
}
use erpnext_whatsapp_connect.Py.Result.{Error, validation, crash, Result, ok, err, ◌>>=◌}
use erpnext_whatsapp_connect.Py.Action.{Action}
use erpnext_whatsapp_connect.Py.Value.{
  Value, int, str, list, dict, Items, nil, cons, Fields, end, field, get, find_key, update, truthy,
  as_str, as_dict,
}
use erpnext_whatsapp_connect.Py.Text.{concat}
use erpnext_whatsapp_connect.Site.Records.{
  Delivery, Settings, Pdf, RecipientType, individual, group, unset,
}
use erpnext_whatsapp_connect.Site.Frappe.{Frappe}
use erpnext_whatsapp_connect.Site.World.{World, custom}
use erpnext_whatsapp_connect.Gateway.{gateway_request, site_payload}

abbrev pub bundled_sender : String
bundled_sender = "erpnext_whatsapp_connection.transports.send_via_bundled_gateway"

abbrev pub builtin_transports : Fields
builtin_transports =
    field "Linked Device"
      (dict (field "send" (str bundled_sender) (field "gateway_provider" (str "Baileys") end)))
      (field "Official API"
        (dict
          (field "send" (str bundled_sender) (field "gateway_provider" (str "Official API") end)))
        end)

-- `registry.update(values)` for each provider function of the hook; what is no dict is refused.
unfoldable pub extend_registry : Fields → List (String × Result Value) → Result Fields
extend_registry registry [] = ok registry
extend_registry registry ((path, err e) ∷ rest) = err e
extend_registry registry ((path, ok v) ∷ rest) = elim (as_dict v) [
  | none ↦ err (crash (concat path " must return a dictionary"))
  | some values ↦ extend_registry (update registry values) rest
]

-- `max(10, min(300, int(settings.throttle_seconds or 0))) * 1000`.
unfoldable pub throttle_ms : Option ℤ → ℤ
throttle_ms throttle =
    let seconds : ℤ = elim throttle [ none ↦ pos 0 | some n ↦ n ] in
    let clamped = max_ℤ (pos 10) (min_ℤ (pos 300) seconds) in
    sub_ℕ (1000 * pos_part clamped) (1000 * neg_part clamped)

-- `document.get('recipient_type') or 'Individual'`.
abbrev pub sent_type : RecipientType → String
sent_type individual = "Individual"
sent_type group = "Group"
sent_type unset = "Individual"

abbrev pub pdf_items : List Pdf → Items
pdf_items [] = nil
pdf_items (p ∷ ps) =
    cons
      (dict (field "filename" (str p.filename) (field "content_base64" (str p.content_base64) end)))
      (pdf_items ps)

module _ (F : Frappe) where
  unfoldable pub transport_registry : Result Fields
  unfolding extend_registry
  transport_registry =
      extend_registry builtin_transports (F.hooks "erpnext_whatsapp_transport_adapter_providers")

  abbrev unregistered : String → Error
  unregistered provider =
      validation (concat "WhatsApp transport '" (concat provider "' is not registered."))

  -- `get_transport`. A transport that is no dict has no `get`.
  unfoldable pub get_transport : String → Result Fields
  unfolding transport_registry
  get_transport provider = transport_registry >>= λ registry.
      let transport = get registry provider in
      if truthy transport
      then elim (as_dict transport) [
        | none ↦ err (crash "object has no attribute 'get'")
        | some t ↦ if truthy (get t "send") then ok t else err (unregistered provider)
      ]
      else err (unregistered provider)

  abbrev send_payload : Delivery → Settings → List Pdf → Value → Fields
  send_payload d settings pdfs provider = site_payload F (
      field "provider" provider (
        field "recipient" (str d.recipient) (
          field "recipient_type" (str (sent_type d.recipient_type)) (
            field "text" (str d.message_text) (
              field "pdfs" (list (pdf_items pdfs)) (
                field "idempotency_key" (str d.idempotency_key)
                  (field "throttle_ms" (int (throttle_ms settings.throttle_seconds)) end)))))))

  -- `send_via_bundled_gateway`.
  unfoldable pub send_via_bundled_gateway :
      Delivery → Settings → List Pdf → Fields → Action (World F) Value
  send_via_bundled_gateway d settings pdfs transport w =
      elim (find_key transport "gateway_provider") [
        | none ↦ (err (crash "'gateway_provider'"), w)
        | some provider ↦ gateway_request F "/v1/send" (send_payload d settings pdfs provider) w
      ]

  -- A sender of another app, by its dotted path.
  abbrev call_custom : String → Delivery → Settings → List Pdf → Fields → Action (World F) Value
  call_custom path d settings pdfs transport w = (
    F.custom_sender w.tick path d settings pdfs transport,
    record w { log = w.log ++ custom path d.name ∷ []; tick = suc w.tick },
  )

  -- `frappe.get_attr(transport["send"])`, and the call of it.
  unfoldable pub call_sender :
      Value → Delivery → Settings → List Pdf → Fields → Action (World F) Value
  call_sender send d settings pdfs transport w = elim (as_str send) [
    | none ↦ (err (crash "invalid dotted path"), w)
    | some path ↦
        if str_eq path bundled_sender
        then send_via_bundled_gateway d settings pdfs transport w
        else call_custom path d settings pdfs transport w
  ]

  unfoldable pub send_delivery : Delivery → Settings → List Pdf → Action (World F) Value
  unfolding call_sender
  send_delivery d settings pdfs w = elim (get_transport d.provider) [
    | err e ↦ (err e, w)
    | ok transport ↦ call_sender (get transport "send") d settings pdfs transport w
  ]
