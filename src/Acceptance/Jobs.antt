-- ===== src/Acceptance/Jobs.antt =====
-- The worker of the acceptance run, which runs the jobs of the long queue up to one delivery:
-- `worker_once` of erpnext_whatsapp_connection/group_acceptance.py.
use erpnext_whatsapp_connect.Base.{
  ℕ, zero, suc, String, Bool, false, not, ◌&&◌, Option, none, some, List, [], ◌∷◌, ◌++◌, ◌≡◌, leb,
  ltb, length, str_eq, if◌then◌else◌,
}
use erpnext_whatsapp_connect.Py.Result.{Error, crash, Result, ok, err}
use erpnext_whatsapp_connect.Py.Action.{Action}
use erpnext_whatsapp_connect.Py.Text.{concat}
use erpnext_whatsapp_connect.Acceptance.Peer.{fixture_site}

-- What RQ knows of a job: `job.kwargs.get('site')` and `job.kwargs.get('method')`.
pub record JobArguments : Type 0 where
  pub site : Option String
  pub method : Option String

-- RQ and its long queue. `waiting` lists the identities of the queued jobs, the next one first, and
-- `work` is a burst of a worker that runs one job.
pub record Rq : Type 1 where
  pub State : Type 0
  pub waiting : State → List String
  pub get_job : State → String → Option JobArguments
  pub status : State → String → String
  pub work : State → State

-- The documented behaviour: the worker takes the first job, what a job queues comes last, and jobs
-- keep their arguments; a job that did not run keeps its status.
pub record IsLawfulRq (Q : Rq) : Type 0 where
  pub waiting-work :
      (s : Q.State) (j : String) (rest : List String)
      → Q.waiting s ≡ j ∷ rest
      → (added : List String) × (Q.waiting (Q.work s) ≡ rest ++ added)
  pub status-work :
      (s : Q.State) (j k : String) (rest : List String)
      → Q.waiting s ≡ j ∷ rest
      → str_eq k j ≡ false
      → Q.status (Q.work s) k ≡ Q.status s k
  pub get_job-work :
      (s : Q.State) (k : String) (a : JobArguments)
      → Q.get_job s k ≡ some a
      → Q.get_job (Q.work s) k ≡ some a

abbrev pub is_text : String → Option String → Bool
is_text s none = false
is_text s (some t) = str_eq t s

-- The site and the switch of `require_fixture_site`.
pub record Host : Type 0 where
  pub site : String
  pub acceptance : Bool

abbrev pub is_fixture : Host → Bool
is_fixture host = str_eq host.site fixture_site && host.acceptance

abbrev pub not_fixture : Error
not_fixture = crash "Group acceptance requires the explicitly enabled disposable site"

abbrev pub not_queued : Error
not_queued = crash "Expected native delivery is not queued on the disposable site"

abbrev pub bad_backlog : Error
bad_backlog = crash "Unexpected disposable long-queue backlog"

abbrev pub foreign_job : Error
foreign_job = crash "Missing or foreign job before expected native delivery"

abbrev pub job_failed : Error
job_failed = crash "Native queued job failed before expected delivery completed"

abbrev pub delivery_failed : Error
delivery_failed = crash "Expected native delivery did not finish successfully"

abbrev pub too_many : Error
too_many = crash "Native delivery exceeded the disposable job bound"

abbrev pub delivery_method : String
delivery_method = "erpnext_whatsapp_connection.outbound.process_outbound_message"

-- The queued job of a delivery, and of a retry with its number as a text.
abbrev pub job_of : String → Option String → String
job_of name none = concat "whatsapp:" name
job_of name (some attempt) = concat "whatsapp-retry:" (concat name (concat ":" attempt))

abbrev pub is_here : Option JobArguments → Bool
is_here none = false
is_here (some a) = is_text fixture_site a.site

abbrev pub is_delivery : Option JobArguments → Bool
is_delivery none = false
is_delivery (some a) = is_text fixture_site a.site && is_text delivery_method a.method

module _ (Q : Rq) where
  -- The job that the queue has next, if it is one of the site's.
  abbrev pub next_job : List String → Q.State → Option String
  next_job [] s = none
  next_job (j ∷ rest) s = if is_here (Q.get_job s j) then some j else none

  -- The loop: one job in each round, until the delivery has run.
  unfoldable pub rounds : ℕ → String → Action Q.State (Unit {0})
  rounds zero id s = (err too_many, s)
  rounds (suc n) id s = elim (next_job (Q.waiting s) s) [
    | none ↦ (err foreign_job, s)
    | some j ↦
        let rest = rounds n id (Q.work s) in
        if not (str_eq (Q.status (Q.work s) j) "finished")
        then (err job_failed, Q.work s)
        else if str_eq (Q.status (Q.work s) id) "finished"
        then (ok tt, Q.work s)
        else if not (str_eq (Q.status (Q.work s) id) "queued")
        then (err delivery_failed, Q.work s)
        else rest
  ]

  unfoldable pub worker_once : Host → String → Action Q.State (Unit {0})
  unfolding rounds
  worker_once host id s =
      if not (is_fixture host)
      then (err not_fixture, s)
      else if not (is_delivery (Q.get_job s id) && str_eq (Q.status s id) "queued")
      then (err not_queued, s)
      else if not (ltb 0 (length (Q.waiting s)) && leb (length (Q.waiting s)) 50)
      then (err bad_backlog, s)
      else rounds 50 id s

  -- What becomes of the child process, whose exit status is a text.
  abbrev pub on_exit : (Error → String) → Result (Unit {0}) × Q.State → Result (Unit {0}) × Q.State
  on_exit status (ok u, s) = (ok u, s)
  on_exit status (err e, s) =
      (err (crash (concat "Native isolated RQ worker failed; exit=" (status e))), s)

  -- `run_worker`, which runs `worker_once` in a process of its own.
  unfoldable pub run_worker :
      Host → (Error → String) → String → Option String → Action Q.State (Unit {0})
  unfolding worker_once
  run_worker host status name attempt s =
      if not (is_fixture host)
      then (err not_fixture, s)
      else on_exit status (worker_once host (job_of name attempt) s)
