-- ===== src/Event.antt =====
-- internal/event/event.go: the event of the webhook, and the check of its required fields.
pub mod Laws
use argocd_notifier.Prelude.{Option, none, some, List, [], ◌∷◌, ◌++◌, if◌then◌else◌}
use argocd_notifier.Text.{GoString, is_empty}
use argocd_notifier.Maps.{GoMap}

pub data ValidationError : Type 0 where
  missing_group_key missing_app_name missing_trigger : ValidationError
  missing_revision missing_recipient missing_backend : ValidationError

pub record Event : Type 0 where
  pub group_key : GoString
  pub app_name : GoString
  pub trigger : GoString
  pub revision : GoString
  pub recipient : GoString
  pub backend : GoString
  pub labels : GoMap GoString GoString
  pub target : GoString
  pub health_status : GoString
  pub sync_phase : GoString
  pub sync_status : GoString
  pub operation_msg : GoString
  pub repo_url : GoString
  pub images : List GoString
  pub initiated_by : GoString
  pub argocd_url : GoString
  pub target_revision : GoString

-- `if field == "" { errs = append(errs, err) }`
require : GoString → ValidationError → List ValidationError → List ValidationError
require field err errs = if is_empty field then errs ++ err ∷ [] else errs

-- `errors.Join`: no error at all for an empty list. (The list holds no nil.)
unfoldable pub join_errors {ℓ} : {E : Type ℓ} → List E → Option (List E)
join_errors [] = none
join_errors (e ∷ es) = some (e ∷ es)

unfoldable pub validation_errors : Event → List ValidationError
unfolding require
validation_errors ev =
    let errs = require ev.group_key missing_group_key [] in
    let errs = require ev.app_name missing_app_name errs in
    let errs = require ev.trigger missing_trigger errs in
    let errs = require ev.revision missing_revision errs in
    let errs = require ev.recipient missing_recipient errs in
    require ev.backend missing_backend errs

unfoldable pub validate : Event → Option (List ValidationError)
unfolding join_errors validation_errors
validate ev = join_errors (validation_errors ev)
