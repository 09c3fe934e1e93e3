-- ===== src/SlackBackend/Process.antt =====
-- cmd/slack-backend/main.go, and the client that it makes (internal/slack/client.go): the parts of the
-- Slack backend put together.
pub mod EditInPlace
pub mod AtSlack
pub mod SameMessage
use argocd_notifier.Prelude.{Bool, true, Option, some, List, [], ◌∷◌, ◌++◌, arith, if◌then◌else◌}
use argocd_notifier.Prelude.Int.{ℤ}
use argocd_notifier.Text.{GoString, is_empty, bytes, text_eq}
use argocd_notifier.Aggregator.Clock.{Duration}
use argocd_notifier.Aggregator.Backends.{Outcome, success, failure}
use argocd_notifier.Slack.Client
use argocd_notifier.Slack.Client.{Http, Message}
use argocd_notifier.Slack.Render
use argocd_notifier.Slack.Render.{Attachment}
use argocd_notifier.Slack.Template.{Renderer, Parsed}
use argocd_notifier.Slack.Watcher
use argocd_notifier.Slack.Watcher.{Watcher, File, new_watcher}
use argocd_notifier.SlackBackend.{Target}
use argocd_notifier.SlackBackend.Config.{Config}
use argocd_notifier.SlackBackend.Registrar.{Registrar, new_registrar, has_registered}

abbrev pub supports_thread_reply : Bool
supports_thread_reply = true

-- The renderer of a client: the built-in one, or the watcher.
pub data RendererChoice : Type 0 where
  default_renderer : RendererChoice
  watched : RendererChoice

-- slack.Client; of its HTTP client it has the timeout.
pub record SlackClient : Type 0 where
  pub timeout : Duration
  pub token : GoString
  pub base_url : GoString
  pub max_retries : ℤ
  pub renderer : RendererChoice

abbrev pub ClientOption : Type 0
ClientOption = SlackClient → SlackClient

-- WithBaseURL
unfoldable pub with_base_url : GoString → ClientOption
with_base_url url c = record c { base_url = url }

-- WithRenderer
unfoldable pub with_renderer : RendererChoice → ClientOption
with_renderer r c = record c { renderer = r }

unfoldable pub apply_options : List ClientOption → SlackClient → SlackClient
apply_options [] c = c
apply_options (opt ∷ opts) c = apply_options opts (opt c)

abbrev pub default_base_url : GoString
default_base_url = bytes "https://slack.com/api"

-- `NewClient`
unfoldable pub new_client : GoString → Duration → ℤ → List ClientOption → SlackClient
unfolding apply_options
new_client token timeout max_retries opts = apply_options opts (record {
  timeout = timeout;
  token = token;
  base_url = default_base_url;
  max_retries = max_retries;
  renderer = default_renderer;
})

-- The state of the process, and what is outside of it.
pub record Process (Net : Type 0) : Type 0 where
  pub client : SlackClient
  pub watcher : Watcher
  pub registrar : Registrar
  pub net : Net

unfoldable pub client_options : Config → List ClientOption
unfolding with_renderer
client_options cfg =
    if is_empty cfg.message_template_path then [] else (λ c. with_renderer watched c) ∷ []

-- NewRegistrar, behind what NewClientWithResponses returned for the core's address
unfoldable pub boot_with : {C Net : Type 0} → Config → Net → Outcome C → Outcome (Process Net)
unfolding new_client client_options
boot_with cfg net (failure e) = failure (bytes "build core client: " ++ e)
boot_with cfg net (success core_client) = success (record {
  client =
      new_client cfg.slack_bot_token cfg.slack_request_timeout cfg.slack_max_retries
        (client_options cfg);
  watcher = new_watcher cfg.message_template_fallback_to_default;
  registrar = new_registrar cfg.backend_name cfg.public_base_url supports_thread_reply;
  net = net;
})

-- `main`, up to the start of the server; on an error the process ends. The watcher is there in any case,
-- and does nothing unless the client renders by it.
unfoldable pub boot :
    {C Net : Type 0} → (GoString → Outcome C) → Config → Net → Outcome (Process Net)
unfolding boot_with
boot new_core_client cfg net = boot_with cfg net (new_core_client cfg.core_url)

unfoldable pub is_ready : {Net : Type 0} → Process Net → Bool
unfolding has_registered
is_ready p = has_registered p.registrar

-- The libraries that the renderers and the client stand on.
pub record Library : Type 0 where
  pub marshal_attachments : List Attachment → Outcome GoString
  pub is_json : GoString → Bool
  pub parse_template : GoString → Outcome Parsed
  pub marshal_message : Message → Outcome GoString

module _ (lib : Library) where
  unfoldable pub render_by : RendererChoice → Watcher → Renderer
  render_by default_renderer w n = Render.render lib.marshal_attachments n
  render_by watched w n = Watcher.render lib.is_json (Render.render lib.marshal_attachments) w n

  -- c.renderer.Render
  unfoldable pub renderer_of : {Net : Type 0} → Process Net → Renderer
  unfolding render_by
  renderer_of p n = render_by p.client.renderer p.watcher n

  -- A reload of the template
  unfoldable pub reload : {Net : Type 0} → File → Process Net → Process Net
  reload file p = record p { watcher = Watcher.reload lib.parse_template file p.watcher }

  -- HTTP, by the client's timeout, token and base URL
  module _ {Net : Type 0} (http : SlackClient → Http Net) where
    -- What a call of the client comes to, in the process.
    unfoldable pub in_process :
        {A : Type 0} → Process Net → Outcome A × Net → Outcome A × Process Net
    in_process p (o, net) = (o, record p { net = net })

    -- The handler's backend: the client, which is an Updater and a ThreadReplier.
    unfoldable pub slack_target : Target (Process Net)
    unfolding in_process renderer_of
    slack_target = record {
      post = λ recipient n p. in_process p (
          Client.post (http p.client) lib.marshal_message p.client.max_retries (renderer_of p)
            recipient n p.net);
      update = some (λ recipient ref n p. in_process p (
          Client.update (http p.client) lib.marshal_message p.client.max_retries (renderer_of p)
            recipient ref n p.net));
      post_thread_reply = some (λ recipient ref text p. in_process p (
          Client.post_thread_reply (http p.client) lib.marshal_message p.client.max_retries
            (renderer_of p) recipient ref text p.net));
    }
