-- ===== src/Slack/Watcher.antt =====
-- internal/slack/watcher.go: `TemplateWatcher`. The file is a parameter: what `os.Stat` and
-- `os.ReadFile` say of it at each moment.
pub mod Reloads
use argocd_notifier.Prelude.{
  ℕ, Bool, true, false, ◌&&◌, Option, none, some, List, [], ◌∷◌, ◌==◌, nat_eq, if◌then◌else◌,
}
use argocd_notifier.Text.{GoString}
use argocd_notifier.Notification.{Notification}
use argocd_notifier.Aggregator.Clock.{Time}
use argocd_notifier.Aggregator.Backends.{Outcome, success, failure}
use argocd_notifier.Slack.Template.{
  Renderer, Parsed, TemplateRenderer, parse_template_renderer, render_template,
}

pub record Watcher : Type 0 where
  pub fallback_to_default : Bool
  pub mod_time : Time
  pub current : Option TemplateRenderer

-- NewTemplateWatcher
unfoldable pub new_watcher : Bool → Watcher
new_watcher fallback = record { fallback_to_default = fallback; mod_time = 0; current = none }

-- The file at the moment of a reload: its time and its contents.
pub record File : Type 0 where
  pub stat : Outcome Time
  pub read : Outcome GoString

unfoldable pub is_loaded : Option TemplateRenderer → Bool
is_loaded none = false
is_loaded (some r) = true

unfoldable pub store_parsed : Time → Outcome TemplateRenderer → Watcher → Watcher
store_parsed mod_time (failure e) w = w
store_parsed mod_time (success r) w = record w { mod_time = mod_time; current = some r }

unfoldable pub load_source :
    (GoString → Outcome Parsed) → Time → Outcome GoString → Watcher → Watcher
unfolding store_parsed
load_source parse mod_time (failure e) w = w
load_source parse mod_time (success src) w =
    store_parsed mod_time (parse_template_renderer parse src) w

unfoldable pub reload_at :
    (GoString → Outcome Parsed) → Outcome Time → Outcome GoString → Watcher → Watcher
unfolding load_source is_loaded
reload_at parse (failure e) read w = w
reload_at parse (success mod_time) read w =
    if is_loaded w.current && (mod_time == w.mod_time) then w else load_source parse mod_time read w

-- `Reload`
unfoldable pub reload : (GoString → Outcome Parsed) → File → Watcher → Watcher
unfolding reload_at
reload parse file w = reload_at parse file.stat file.read w

-- `Run`: a reload at first and one at each tick, up to the end of the context
unfoldable pub run : (GoString → Outcome Parsed) → List File → Watcher → Watcher
unfolding reload
run parse [] w = w
run parse (file ∷ files) w = run parse files (reload parse file w)

unfoldable pub render_failed :
    Bool → Renderer → Notification → Outcome (GoString × GoString) → Outcome (GoString × GoString)
render_failed fallback default_render n (success out) = success out
render_failed fallback default_render n (failure e) =
    if fallback then default_render n else failure e

unfoldable pub render_current :
    (GoString → Bool) → Renderer → Bool → Option TemplateRenderer → Renderer
unfolding render_failed
render_current is_json default_render fallback none n = default_render n
render_current is_json default_render fallback (some r) n =
    render_failed fallback default_render n (render_template is_json r n)

-- `Render`
unfoldable pub render : (GoString → Bool) → Renderer → Watcher → Renderer
unfolding render_current
render is_json default_render w n =
    render_current is_json default_render w.fallback_to_default w.current n
