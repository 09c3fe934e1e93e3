-- ===== src/Event/Laws.antt =====
-- What `Event.Validate` accepts and reports.
use argocd_notifier.Prelude.{◌≡◌, ◌≢◌, ◌↔◌, none, List, [], ◌∷◌, arith, keep}
use argocd_notifier.Text.{GoString, is_empty, is_empty_iff}
use argocd_notifier.Event.{
  Event, ValidationError, missing_group_key, missing_app_name, missing_trigger, missing_revision,
  missing_recipient, missing_backend, validation_errors, validate,
}

-- The six fields that an event must have.
pub record IsComplete (ev : Event) : Type 0 where
  pub has_group_key : ev.group_key ≢ []
  pub has_app_name : ev.app_name ≢ []
  pub has_trigger : ev.trigger ≢ []
  pub has_revision : ev.revision ≢ []
  pub has_recipient : ev.recipient ≢ []
  pub has_backend : ev.backend ≢ []

-- The field that an error speaks of.
abbrev pub field_of : ValidationError → Event → GoString
field_of missing_group_key ev = ev.group_key
field_of missing_app_name ev = ev.app_name
field_of missing_trigger ev = ev.trigger
field_of missing_revision ev = ev.revision
field_of missing_recipient ev = ev.recipient
field_of missing_backend ev = ev.backend

-- `Validate` returns no error exactly when all six required fields are there.
pub validate_iff-IsComplete : (ev : Event) → (validate ev ≡ none) ↔ IsComplete ev
unfolding validate
validate_iff-IsComplete ev = ground (
  arith,
  is_empty_iff ev.group_key,
  is_empty_iff ev.app_name,
  is_empty_iff ev.trigger,
  is_empty_iff ev.revision,
  is_empty_iff ev.recipient,
  is_empty_iff ev.backend,
)

abbrev pub all_errors : List ValidationError
all_errors =
    missing_group_key ∷ missing_app_name ∷ missing_trigger ∷ missing_revision ∷ missing_recipient
    ∷ missing_backend ∷ []

-- The errors found are those of the fields that are empty: each once, in the order of the fields.
pub validation_errors-eq-keep :
    (ev : Event) → validation_errors ev ≡ keep (λ err. is_empty (field_of err ev)) all_errors
unfolding validation_errors
validation_errors-eq-keep ev = ground arith
