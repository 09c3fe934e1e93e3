-- ===== src/Slack/Template.antt =====
-- internal/slack/template.go: `TemplateRenderer`. The template engine and `json.Valid` are parameters.
use argocd_notifier.Prelude.{Bool, Option, none, some, [], ◌++◌, if◌then◌else◌}
use argocd_notifier.Text.{GoString, bytes, trim_space, is_empty}
use argocd_notifier.Notification.{Notification}
use argocd_notifier.Aggregator.Backends.{Outcome, success, failure}

-- Renderer: the text and the raw attachments, empty for nil
abbrev pub Renderer : Type 0
Renderer = Notification → Outcome (GoString × GoString)

-- A block of a parsed template: what its execution writes.
abbrev pub Block : Type 0
Block = Notification → Outcome GoString

-- A parsed template, by the two blocks that are looked up in it.
pub record Parsed : Type 0 where
  pub text : Option Block
  pub attachments : Option Block

pub record TemplateRenderer : Type 0 where
  pub text : Block
  pub attachments : Block

unfoldable pub require_blocks : Option Block → Option Block → Outcome TemplateRenderer
require_blocks none attachments =
    failure (bytes "template missing required {{define \"text\"}}...{{end}} block")
require_blocks (some text) none =
    failure (bytes "template missing required {{define \"attachments\"}}...{{end}} block")
require_blocks (some text) (some attachments) =
    success (record { text = text; attachments = attachments })

unfoldable pub parsed_renderer : Outcome Parsed → Outcome TemplateRenderer
unfolding require_blocks
parsed_renderer (failure e) = failure (bytes "parse template: " ++ e)
parsed_renderer (success t) = require_blocks t.text t.attachments

unfoldable pub parse_template_renderer :
    (GoString → Outcome Parsed) → GoString → Outcome TemplateRenderer
unfolding parsed_renderer
parse_template_renderer parse src = parsed_renderer (parse src)

unfoldable pub checked_attachments :
    (GoString → Bool) → GoString → GoString → Outcome (GoString × GoString)
checked_attachments is_json text trimmed =
    if is_empty trimmed
    then success (text, [])
    else if is_json trimmed
    then success (text, trimmed)
    else failure (bytes "attachments template did not produce valid JSON: " ++ trimmed)

unfoldable pub written_attachments :
    (GoString → Bool) → GoString → Outcome GoString → Outcome (GoString × GoString)
unfolding checked_attachments
written_attachments is_json text (failure e) = failure (bytes "execute attachments template: " ++ e)
written_attachments is_json text (success raw) = checked_attachments is_json text (trim_space raw)

unfoldable pub written_text :
    (GoString → Bool) → Block → Notification → Outcome GoString → Outcome (GoString × GoString)
unfolding written_attachments
written_text is_json attachments n (failure e) = failure (bytes "execute text template: " ++ e)
written_text is_json attachments n (success text) = written_attachments is_json text (attachments n)

-- `Render`
unfoldable pub render_template : (GoString → Bool) → TemplateRenderer → Renderer
unfolding written_text
render_template is_json r n = written_text is_json r.attachments n (r.text n)
