-- ===== src/Site/World.antt =====
-- The site's mutable state, and the calls that read or change it.
use erpnext_whatsapp_connect.Base.{
  ℕ, suc, ◌++◌, String, Bool, true, false, none, some, List, [], ◌∷◌, if◌then◌else◌,
}
use erpnext_whatsapp_connect.Py.Result.{Result, ok, err}
use erpnext_whatsapp_connect.Py.Action.{Action}
use erpnext_whatsapp_connect.Site.Records.{Delivery, Settings, Job, Request, Template}
use erpnext_whatsapp_connect.Site.Frappe.{Frappe}

-- What has left the site: a request on the gateway's socket, or the call of another app's sender for
-- a delivery.
pub data Event : Type 0 where
  request : Request → Event
  custom : String → String → Event

pub record World (F : Frappe) : Type 0 where
  pub table : F.Table
  pub files : F.Files
  pub templates : List Template
  pub settings : Settings
  pub user : String
  pub jobs : List Job
  pub log : List Event
  pub tick : ℕ

module _ (F : Frappe) where
  -- `now_datetime()`.
  abbrev pub now_datetime : Action (World F) ℕ
  now_datetime w = (ok (F.clock w.tick), record w { tick = suc w.tick })

  -- `frappe.db.set_value(HISTORY_DOCTYPE, name, values, update_modified=False)`.
  abbrev pub update_row : String → (Delivery → Delivery) → F.Table → F.Table
  update_row n f t = elim (F.find t n) [ none ↦ t | some d ↦ F.put t (f d) ]

  abbrev pub set_value : String → (Delivery → Delivery) → Action (World F) (Unit {0})
  set_value n f w = (ok tt, record w { table = update_row n f w.table })

  -- `frappe.enqueue(...)`, which raises where the queue cannot be reached.
  unfoldable pub enqueue : Job → Action (World F) (Unit {0})
  enqueue j w = elim (F.enqueue_error w.tick j) [
    | none ↦ (ok tt, record w { jobs = w.jobs ++ j ∷ []; tick = suc w.tick })
    | some e ↦ (err e, record w { tick = suc w.tick })
  ]

  -- A job with `deduplicate=True`, by what the queue says of its identity: noted unless it is there.
  abbrev pub unless_enqueued : Result Bool → Job → Action (World F) (Unit {0})
  unless_enqueued (err e) j w = (err e, w)
  unless_enqueued (ok true) j w = (ok tt, w)
  unless_enqueued (ok false) j w = (ok tt, record w { jobs = w.jobs ++ j ∷ [] })

  -- `frappe.enqueue(..., enqueue_after_commit=True)`, which only notes the job, but with
  -- `deduplicate=True` asks the queue at once.
  abbrev pub enqueue_after_commit : Job → Action (World F) (Unit {0})
  enqueue_after_commit j w =
      if j.deduplicate
      then unless_enqueued (F.is_job_enqueued w.tick j) j (record w { tick = suc w.tick })
      else (ok tt, record w { jobs = w.jobs ++ j ∷ [] })
