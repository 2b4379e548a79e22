-- ===== src/Tests/Disposable.antt =====
-- The queue, the fixture and the evidence of the disposable site, at concrete inputs.
use mathlib.Core.List.{append-nil}
use erpnext_whatsapp_connect.Base.{
  pos, ◌≤◌, String, true, some, none, List, [], ◌∷◌, ◌≡◌, ◌↔◌, refl, sym, contains, if◌then◌else◌,
  arith, eq_iff,
}
use erpnext_whatsapp_connect.Py.Result.{crash, ok}
use erpnext_whatsapp_connect.Py.Action.{for_each}
use erpnext_whatsapp_connect.Py.Value.{int, str, dict, Fields, field, end}
use erpnext_whatsapp_connect.Py.Equality.{value_eq}
use erpnext_whatsapp_connect.Site.Frappe.{Frappe, IsLawful}
use erpnext_whatsapp_connect.Acceptance.Jobs.{
  Rq, IsLawfulRq, JobArguments, Host, delivery_method, worker_once,
}
use erpnext_whatsapp_connect.Acceptance.Finished.{worked, IsReliable, worker_once-finishes}
use erpnext_whatsapp_connect.Acceptance.Installed.{
  TestSite, Native, fixture_row, snapshot_of, add_preset, add_fixture, prepare_prerequisites,
  prepare_group_preservation, validate_group_preservation,
}
use erpnext_whatsapp_connect.Acceptance.Preserved.{IsPreserved, validate_group_preservation_iff}
use erpnext_whatsapp_connect.Acceptance.Url.{
  diagnostic_path, strip_controls, drop_unsafe, behind_colon, before, from,
}
use erpnext_whatsapp_connect.Acceptance.Browser.{
  Received, timeout, message, closed, new_browser, read,
}
use erpnext_whatsapp_connect.Acceptance.Clean.{IsClean}
use erpnext_whatsapp_connect.Acceptance.Redacted.{read-IsClean}
use erpnext_whatsapp_connect.Release.Evidence.{evidence, verify, split_lines, after_first}
use erpnext_whatsapp_connect.Release.Accepted.{IsRecord, IsPassing, verify_iff}
use erpnext_whatsapp_connect.Tests.Site.{site, site-IsLawful}

-- A queue in which every job is a delivery of the site and ends well.
record Queue : Type 0 where
  jobs : List String
  finished : List String

abbrev run_first : List String → List String → Queue
run_first [] finished = record { jobs = []; finished = finished }
run_first (j ∷ jobs) finished = record { jobs = jobs; finished = j ∷ finished }

abbrev arguments : JobArguments
arguments = record { site = some "integration.local"; method = some delivery_method }

abbrev good_queue : Rq
good_queue = record {
  State = Queue;
  waiting = λ q. q.jobs;
  get_job = λ q k. some arguments;
  status = λ q k. if contains k q.finished then "finished" else "queued";
  work = λ q. run_first q.jobs q.finished;
}

self_contained : (j : String) (js : List String) → contains j (j ∷ js) ≡ true
self_contained j js = ground (arith, eq_iff j j)

good_queue-IsLawfulRq : IsLawfulRq good_queue
good_queue-IsLawfulRq = record {
  waiting-work = λ s j rest h. ([], rw h (sym (append-nil rest)));
  status-work = λ s j k rest h ne. rw (h, ne) refl;
  get_job-work = λ s k a h. h;
}

reliable : (s : Queue) (j : String) → IsReliable good_queue good_queue-IsLawfulRq s j
reliable s j = record {
  arguments = arguments;
  known = refl;
  here = refl;
  finishes = λ t rest h. rw (h, self_contained j t.finished) refl;
}

abbrev two_jobs : Queue
two_jobs = record { jobs = "index" ∷ "whatsapp:WA-1" ∷ []; finished = [] }

abbrev fixture_host : Host
fixture_host = record { site = "integration.local"; acceptance = true }

worker_once-finishes_example :
    (worker_once good_queue fixture_host "whatsapp:WA-1" two_jobs
      ≡ (ok tt, worked good_queue good_queue-IsLawfulRq 2 two_jobs))
    × (good_queue.status (worked good_queue good_queue-IsLawfulRq 2 two_jobs) "whatsapp:WA-1"
        ≡ "finished")
    × (2 ≤ 50)
worker_once-finishes_example =
    worker_once-finishes good_queue good_queue-IsLawfulRq fixture_host ("index" ∷ []) []
      "whatsapp:WA-1" two_jobs refl refl refl refl (omega arith) refl
      (reliable two_jobs "index", tt) (reliable two_jobs "whatsapp:WA-1")

abbrev stored_row : Fields
stored_row = field "name" (str "row-1") fixture_row

-- The disposable site, with one snapshot that is read back.
abbrev fixture_frappe : Frappe
fixture_frappe = record site {
  site = "integration.local";
  parse_json = λ s. ok (dict (snapshot_of stored_row));
}

fixture_frappe-IsLawful : IsLawful fixture_frappe
fixture_frappe-IsLawful = record {
  find-put = site-IsLawful.find-put;
  find-name = site-IsLawful.find-name;
  matching_sound = site-IsLawful.matching_sound;
  in_order_sound = site-IsLawful.in_order_sound;
  matching_complete = site-IsLawful.matching_complete;
  dumps-not_empty = site-IsLawful.dumps-not_empty;
  new_name_fresh = site-IsLawful.new_name_fresh;
  get-add_file = site-IsLawful.get-add_file;
  add_file_keeps = site-IsLawful.add_file_keeps;
}

abbrev native : Native
native = record {
  presets = λ country.
      field "doctype" (str "Warehouse Type") (field "name" (str "Transit") end)
      ∷ field "doctype" (str "Company") end
      ∷ [];
  insert_error = λ name. none;
  save_row = λ row. ok (field "name" (str "row-1") row);
}

abbrev empty_site : TestSite
empty_site = record {
  roles = [];
  doctypes = [];
  templates = [];
  warehouse_types = [];
  companies = [];
  company_groups = [];
  snapshot = none;
}

fixture_prepared : (prepare_group_preservation fixture_frappe native empty_site).0 ≡ ok tt
unfolding prepare_group_preservation prepare_prerequisites add_preset add_fixture for_each value_eq
fixture_prepared = refl

-- A site on which a migration has removed the row.
abbrev emptied : TestSite
emptied = record (prepare_group_preservation fixture_frappe native empty_site).1 {
  company_groups = [];
}

validate_group_preservation_iff_example :
    ((prepare_group_preservation fixture_frappe native empty_site).1.company_groups
      ≡ stored_row ∷ [])
    × ((validate_group_preservation fixture_frappe emptied ≡ ok tt) ↔ IsPreserved stored_row [])
validate_group_preservation_iff_example =
    validate_group_preservation_iff fixture_frappe native empty_site emptied tt stored_row
      fixture_frappe-IsLawful refl refl fixture_prepared refl

abbrev printed_log : String
printed_log = "starting\r\nWHATSAPP_NATIVE_GROUP_ACCEPTANCE={\"site\": \"integration.local\"}\n"

-- A site on which a marked line holds the evidence.
abbrev evidence_site : Frappe
evidence_site = record site { parse_json = λ s. ok (dict (evidence "1.0.0")) }

evidence_accepted : verify evidence_site printed_log "1.0.0" ≡ ok (evidence "1.0.0")
unfolding verify split_lines after_first value_eq
evidence_accepted = refl

verify_iff_example :
    (verify evidence_site printed_log "1.0.0" ≡ ok (evidence "1.0.0"))
    ↔ (IsRecord evidence_site printed_log (evidence "1.0.0") × IsPassing "1.0.0" (evidence "1.0.0"))
verify_iff_example = verify_iff evidence_site printed_log "1.0.0" (evidence "1.0.0")

-- A request that failed, an exception in a script of another host, and the end of the connection.
abbrev reported : List Received
reported =
    message (
      dict (
        field "method" (str "Network.responseReceived") (
          field "params"
            (dict (
              field "response"
                (dict (
                  field "status" (int (pos 403))
                    (field "url" (str "http://integration.local:8000/api/method/ping?user=x") end)))
                end))
            end)))
    ∷ timeout
    ∷ message (
        dict (
          field "method" (str "Runtime.exceptionThrown") (
            field "params"
              (dict (
                field "exceptionDetails" (dict (field "url" (str "https://example.com/a") end))
                  end))
              end)))
    ∷ closed (crash "connection closed")
    ∷ []

read-IsClean_example : IsClean (read (λ host. true) reported new_browser)
read-IsClean_example = read-IsClean (λ host. true) reported

ping_shown :
    diagnostic_path (λ host. true) "http://integration.local:8000/api/method/ping?user=x"
    ≡ ok "/api/method/ping"
unfolding diagnostic_path strip_controls drop_unsafe behind_colon before from
ping_shown = refl
