-- ===== src/Acceptance/Finished.antt =====
-- What `worker_once` of erpnext_whatsapp_connection/group_acceptance.py does with a queue.
use mathlib.Core.List.{append_assoc}
use erpnext_whatsapp_connect.Base.{
  ℕ, zero, suc, ◌+◌, ◌≤◌, ◌<◌, String, true, false, some, List, [], ◌∷◌, ◌++◌, ◌≡◌, refl, sym, ap,
  ◌∙◌, leb, ltb, length, length-append, contains, All, arith,
}
use erpnext_whatsapp_connect.Py.Result.{ok}
use erpnext_whatsapp_connect.Acceptance.Jobs.{
  Rq, IsLawfulRq, JobArguments, Host, is_fixture, is_here, is_delivery, rounds, worker_once,
}

module _ (Q : Rq) (L : IsLawfulRq Q) where
  -- A number of jobs, one after the other.
  abbrev pub worked : ℕ → Q.State → Q.State
  worked zero s = s
  worked (suc n) s = worked n (Q.work s)

  -- A job of the site that ends well whenever it is the next one.
  pub record IsReliable (s : Q.State) (j : String) : Type 0 where
    pub arguments : JobArguments
    pub known : Q.get_job s j ≡ some arguments
    pub here : is_here (some arguments) ≡ true
    pub finishes :
        (t : Q.State) (rest : List String)
        → Q.waiting t ≡ j ∷ rest
        → Q.status (Q.work t) j ≡ "finished"

  work-IsReliable : (s : Q.State) (j : String) → IsReliable s j → IsReliable (Q.work s) j
  work-IsReliable s j r = record {
    arguments = r.arguments;
    known = L.get_job-work s j r.arguments r.known;
    here = r.here;
    finishes = r.finishes;
  }

  work-All :
      (js : List String) (s : Q.State) → All (IsReliable s) js → All (IsReliable (Q.work s)) js
  work-All [] s r = tt
  work-All (j ∷ js) s (r, rs) = (work-IsReliable s j r, work-All js s rs)

  rounds-finish :
      (ahead behind : List String) (n : ℕ) (id : String) (s : Q.State)
      → length ahead < n
      → contains id ahead ≡ false
      → Q.waiting s ≡ ahead ++ id ∷ behind
      → Q.status s id ≡ "queued"
      → All (IsReliable s) ahead
      → IsReliable s id
      → (rounds Q n id s ≡ (ok tt, worked (suc (length ahead)) s))
        × (Q.status (worked (suc (length ahead)) s) id ≡ "finished")
  unfolding rounds
  rounds-finish ahead behind zero id s k apart queue st rs r = absurd (omega arith)
  rounds-finish [] behind (suc n) id s k apart queue st rs r =
      let done = r.finishes s behind queue in (rw (queue, rounds, r.known, r.here, done) refl, done)
  rounds-finish (j ∷ ahead) behind (suc n) id s k apart queue st (rj, rs) r =
      let (added, queue') = L.waiting-work s j (ahead ++ id ∷ behind) queue in
      let done = rj.finishes s (ahead ++ id ∷ behind) queue in
      let still = L.status-work s j id (ahead ++ id ∷ behind) queue (ground (arith, apart)) ∙ st in
      let (ran, end) =
        rounds-finish ahead (behind ++ added) n id (Q.work s) (omega arith) (ground (arith, apart))
          (queue' ∙ append_assoc ahead (id ∷ behind) added) still (work-All ahead s rs)
          (work-IsReliable s id r) in
      (rw (queue, rounds, rj.known, rj.here, done, still) ran, end)

  -- `worker_once` returns: given a delivery that is queued, in a queue of at most fifty jobs of the
  -- site of which those up to the delivery end well when they run, it ends without an error after the
  -- round in which the delivery has run, one job in each round, and the delivery is then finished,
  -- whatever jobs the others have queued meanwhile.
  pub worker_once-finishes :
      (host : Host) (ahead behind : List String) (id : String) (s : Q.State)
      → is_fixture host ≡ true
      → is_delivery (Q.get_job s id) ≡ true
      → Q.status s id ≡ "queued"
      → Q.waiting s ≡ ahead ++ id ∷ behind
      → length (Q.waiting s) ≤ 50
      → contains id ahead ≡ false
      → All (IsReliable s) ahead
      → IsReliable s id
      → (worker_once Q host id s ≡ (ok tt, worked (suc (length ahead)) s))
        × (Q.status (worked (suc (length ahead)) s) id ≡ "finished")
        × (suc (length ahead) ≤ 50)
  unfolding worker_once
  worker_once-finishes host ahead behind id s fixture delivery st queue short apart rs r =
      let size : length ahead + suc (length behind) ≡ length (Q.waiting s) =
        sym (length-append ahead (id ∷ behind)) ∙ sym (ap length queue) in
      let below : length ahead < 50 = omega arith in
      let (ran, end) = rounds-finish ahead behind 50 id s below apart queue st rs r in
      let some_jobs : ltb 0 (length (Q.waiting s)) ≡ true = ground arith in
      let few_jobs : leb (length (Q.waiting s)) 50 ≡ true = ground arith in
      (rw (fixture, worker_once, delivery, st, some_jobs, few_jobs) ran, end, omega arith)
