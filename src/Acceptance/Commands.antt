-- ===== src/Acceptance/Commands.antt =====
-- A command to the browser and its answer: `Browser.command` of
-- erpnext_whatsapp_connection/group_browser_acceptance.py.
use erpnext_whatsapp_connect.Base.{
  ℕ, suc, String, Bool, Option, none, some, List, [], ◌∷◌, is_some, if◌then◌else◌, pos,
}
use erpnext_whatsapp_connect.Py.Result.{Error, crash, Result, ok, err}
use erpnext_whatsapp_connect.Py.Action.{Action}
use erpnext_whatsapp_connect.Py.Value.{Value, int, dict, Fields, end, get, find_key}
use erpnext_whatsapp_connect.Py.Equality.{value_eq}
use erpnext_whatsapp_connect.Py.Text.{concat}
use erpnext_whatsapp_connect.Acceptance.Browser.{Browser}

-- A round of the wait in `command`: the reader's error at its start, and what the queue gave in time.
pub record Round : Type 0 where
  pub failed : Option Error
  pub response : Option Fields

abbrev pub is_answer : ℕ → Fields → Bool
is_answer sequence response = value_eq (get response "id") (int (pos sequence))

abbrev pub or_empty : Option Value → Value
or_empty none = dict end
or_empty (some v) = v

-- `response.get('result', {})`, unless the browser reports an error.
abbrev pub result_of : String → Fields → Result Value
result_of method response =
    if is_some (find_key response "error")
    then err (crash (concat "Browser protocol command failed: " method))
    else ok (or_empty (find_key response "result"))

-- The loop; it ends at the deadline, after the last round.
unfoldable pub await_answer : ℕ → String → List Round → Result Value
await_answer sequence method [] = err (crash (concat "Browser command timed out: " method))
await_answer sequence method (r ∷ rest) = elim r.failed [
  | some _ ↦ err (crash "Browser protocol reader failed")
  | none ↦ elim r.response [
    | none ↦ await_answer sequence method rest
    | some response ↦
        let later = await_answer sequence method rest in
        if is_answer sequence response then result_of method response else later
  ]
]

-- `command`, which numbers what it sends.
unfoldable pub command : String → List Round → Action Browser Value
unfolding await_answer
command method rounds b =
    (await_answer (suc b.sequence) method rounds, record b { sequence = suc b.sequence })
