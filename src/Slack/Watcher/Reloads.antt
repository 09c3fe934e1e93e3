-- ===== src/Slack/Watcher/Reloads.antt =====
-- What reloads do to the template in use.
use argocd_notifier.Prelude.{
  ◌≡◌, refl, Bool, true, ◌&&◌, Option, none, some, List, [], ◌∷◌, ◌==◌, nat_eq, Bool-cases, inl,
  inr,
}
use argocd_notifier.Text.{GoString}
use argocd_notifier.Notification.{Notification}
use argocd_notifier.Aggregator.Clock.{Time}
use argocd_notifier.Aggregator.Backends.{Outcome, success, failure}
use argocd_notifier.Slack.Template.{
  Renderer, Parsed, TemplateRenderer, parse_template_renderer, render_template,
}
use argocd_notifier.Slack.Watcher.{
  Watcher, File, is_loaded, store_parsed, load_source, reload_at, reload, run, render_failed,
  render_current, render,
}

module _ (parse : GoString → Outcome Parsed) where
  -- A template is in use from some reload on.
  abbrev pub IsLoaded : Watcher → Type 0
  IsLoaded w = is_loaded w.current ≡ true

  store_parsed-IsLoaded :
      (t : Time) (o : Outcome TemplateRenderer) (w : Watcher)
      → IsLoaded w
      → IsLoaded (store_parsed t o w)
  unfolding store_parsed is_loaded
  store_parsed-IsLoaded t (failure e) w h = h
  store_parsed-IsLoaded t (success r) w h = refl

  load_source-IsLoaded :
      (t : Time) (o : Outcome GoString) (w : Watcher)
      → IsLoaded w
      → IsLoaded (load_source parse t o w)
  unfolding load_source
  load_source-IsLoaded t (failure e) w h = h
  load_source-IsLoaded t (success src) w h =
      store_parsed-IsLoaded t (parse_template_renderer parse src) w h

  reload_at-IsLoaded :
      (s : Outcome Time) (o : Outcome GoString) (w : Watcher)
      → IsLoaded w
      → IsLoaded (reload_at parse s o w)
  unfolding reload_at
  reload_at-IsLoaded (failure e) o w h = h
  reload_at-IsLoaded (success t) o w h =
      elim (Bool-cases (is_loaded w.current && (t == w.mod_time))) [
        | inl q ↦ rw q h
        | inr q ↦ rw q (load_source-IsLoaded t o w h)
      ]

  -- Once a template is in use, no reload, however bad the file is, leaves the watcher without one.
  pub run-IsLoaded : (files : List File) (w : Watcher) → IsLoaded w → IsLoaded (run parse files w)
  unfolding run reload
  run-IsLoaded [] w h = h
  run-IsLoaded (file ∷ files) w h =
      run-IsLoaded files (reload parse file w) (reload_at-IsLoaded file.stat file.read w h)

module _ (default_render : Renderer) (n : Notification) (out : GoString × GoString) where
  abbrev Shows : Outcome (GoString × GoString) → Type 0
  Shows o = (shown : GoString × GoString) × (o ≡ success shown)

  failed-Shows :
      (fallback : Bool) (o : Outcome (GoString × GoString))
      → fallback ≡ true
      → default_render n ≡ success out
      → Shows (render_failed fallback default_render n o)
  unfolding render_failed
  failed-Shows fallback (success shown) on ok = (shown, refl)
  failed-Shows fallback (failure e) on ok = (out, rw on ok)

  current-Shows :
      (is_json : GoString → Bool) (fallback : Bool) (o : Option TemplateRenderer)
      → fallback ≡ true
      → default_render n ≡ success out
      → Shows (render_current is_json default_render fallback o n)
  unfolding render_current
  current-Shows is_json fallback none on ok = (out, ok)
  current-Shows is_json fallback (some r) on ok =
      failed-Shows fallback (render_template is_json r n) on ok

-- With the fallback on, a message can be rendered whenever the default renderer can render it, be the
-- template in use good or bad.
pub render_fallback :
    (is_json : GoString → Bool) (default_render : Renderer) (w : Watcher) (n : Notification)
    (out : GoString × GoString)
    → w.fallback_to_default ≡ true
    → default_render n ≡ success out
    → (shown : GoString × GoString) × (render is_json default_render w n ≡ success shown)
unfolding render
render_fallback is_json default_render w n out on ok =
    current-Shows default_render n out is_json w.fallback_to_default w.current on ok
