-- ===== src/Slack/Client.antt =====
-- internal/slack/client.go: `Client`. HTTP, JSON and the renderer are parameters; the wait between two
-- attempts ends when its timer fires or when the context is done.
pub mod Retry
pub mod MessageRef
use argocd_notifier.Prelude.{
  ℕ, suc, zero, ◌+◌, ◌*◌, ◌-◌, ◌^◌, ◌%◌, Bool, true, false, ◌||◌, leb, ltb, Option, none, some,
  List, [], ◌∷◌, ◌++◌, ◌==◌, nat_eq, if◌then◌else◌,
}
use argocd_notifier.Prelude.Int.{ℤ, pos, negsuc, ltb_ℤ}
use argocd_notifier.Text.{GoString, text_eq, bytes, cut}
use argocd_notifier.Notification.{Notification}
use argocd_notifier.Aggregator.Clock.{Duration}
use argocd_notifier.Aggregator.Backends.{Outcome, success, failure, Call}

-- The separator of a ref, "|".
abbrev pub ref_separator : ℕ
ref_separator = 124

unfoldable pub encode_ref : GoString → GoString → GoString
encode_ref channel ts = channel ++ ref_separator ∷ ts

-- (channel, ts)
unfoldable pub decode_ref : GoString → GoString → GoString × GoString
decode_ref ref recipient = elim (cut ref ref_separator) [
  | none ↦ (recipient, ref)
  | some (channel, ts) ↦ (channel, ts)
]

unfoldable pub is_retryable : ℕ → GoString → Bool
is_retryable status_code api_err =
    (status_code == 429) || (leb 500 status_code || (api_err == bytes "ratelimited"))

-- The int64 that a product of two int64 is, for a product that is not negative.
unfoldable pub wrap_int64 : ℕ → ℤ
wrap_int64 n = let m = n % 2 ^ 64 in if ltb m (2 ^ 63) then pos m else negsuc (2 ^ 64 - 1 - m)

abbrev pub millisecond : ℕ
millisecond = 1000000

abbrev pub max_backoff : Duration
max_backoff = pos (2000 * millisecond)

unfoldable pub backoff : ℕ → Duration
unfolding wrap_int64
backoff attempt =
    let d = wrap_int64 (attempt * (200 * millisecond)) in
    if ltb_ℤ max_backoff d then max_backoff else d

pub record ApiResponse : Type 0 where
  pub ok : Bool
  pub error : GoString
  pub ts : GoString
  pub channel : GoString

abbrev pub zero_response : ApiResponse
zero_response = record { ok = false; error = []; ts = []; channel = [] }

-- What one HTTP exchange comes to.
pub data Exchange : Type 0 where
  no_request : GoString → Exchange
  no_answer : GoString → Exchange
  undecodable : GoString → Exchange
  decoded : ℕ → ApiResponse → Exchange

-- (out, retryable, err)
pub data Attempted : Type 0 where
  done : ApiResponse → Attempted
  failed : Bool → GoString → Attempted

unfoldable pub attempt_result : Exchange → Attempted
unfolding is_retryable
attempt_result (no_request e) = failed false (bytes "build request: " ++ e)
attempt_result (no_answer e) = failed true e
attempt_result (undecodable e) = failed true (bytes "decode response: " ++ e)
attempt_result (decoded status_code out) =
    if out.ok
    then done out
    else failed (is_retryable status_code out.error) (bytes "slack api error: " ++ out.error)

pub record Http (W : Type 0) : Type 0 where
  -- a POST of a body to a method of the API
  pub exchange : GoString → GoString → W → Exchange × W
  -- the wait: an error if the context is done first
  pub wait : Duration → W → Option GoString × W

-- The messages to the API.
pub data Message : Type 0 where
  post_message :
      (channel : GoString)
      → (thread_ts : GoString) → (text : GoString) → (attachments : GoString) → Message
  update_message :
      (channel : GoString)
      → (ts : GoString) → (text : GoString) → (attachments : GoString) → Message

-- What `lastErr` holds when the loop ends: nil if the loop never ran.
unfoldable pub last_outcome : Option GoString → Outcome ApiResponse
last_outcome none = success zero_response
last_outcome (some e) = failure e

-- The rounds of `for attempt := 0; attempt <= c.maxRetries; attempt++`
unfoldable pub rounds : ℤ → ℕ
rounds (pos max_retries) = suc max_retries
rounds (negsuc n) = 0

module _ {W : Type 0} (http : Http W) (method body : GoString) where
  unfoldable pub attempt_once : W → Attempted × W
  unfolding attempt_result
  attempt_once w = let (x, w') = http.exchange method body w in (attempt_result x, w')

  -- The wait before an attempt but the first.
  unfoldable pub pause : ℕ → W → Option GoString × W
  unfolding backoff
  pause zero w = (none, w)
  pause (suc n) w = http.wait (backoff (suc n)) w

  unfoldable pub after_attempt :
      (GoString → W → Outcome ApiResponse × W) → Attempted × W → Outcome ApiResponse × W
  after_attempt next (done out, w) = (success out, w)
  after_attempt next (failed false e, w) = (failure e, w)
  after_attempt next (failed true e, w) = next e w

  unfoldable pub after_pause :
      (W → Outcome ApiResponse × W) → Option GoString × W → Outcome ApiResponse × W
  after_pause go (some e, w) = (failure e, w)
  after_pause go (none, w) = go w

  -- The loop, with the rounds that are left, the number of the attempt and `lastErr`.
  unfoldable pub attempts : ℕ → ℕ → Option GoString → W → Outcome ApiResponse × W
  unfolding pause attempt_once after_attempt after_pause last_outcome
  attempts zero attempt last w = (last_outcome last, w)
  attempts (suc n) attempt last w =
      after_pause
        (λ w'. after_attempt (λ e w''. attempts n (suc attempt) (some e) w'') (attempt_once w'))
        (pause attempt w)

module _ {W : Type 0} (http : Http W) (marshal : Message → Outcome GoString) (max_retries : ℤ) where
  unfoldable pub call_marshalled : GoString → Outcome GoString → W → Outcome ApiResponse × W
  unfolding attempts rounds
  call_marshalled method (failure e) w = (failure (bytes "marshal request: " ++ e), w)
  call_marshalled method (success body) w = attempts http method body (rounds max_retries) 0 none w

  unfoldable pub call : GoString → Message → W → Outcome ApiResponse × W
  unfolding call_marshalled
  call method message w = call_marshalled method (marshal message) w

  unfoldable pub posted : Outcome ApiResponse × W → Outcome GoString × W
  unfolding encode_ref
  posted (failure e, w) = (failure e, w)
  posted (success out, w) = (success (encode_ref out.channel out.ts), w)

  unfoldable pub no_result : Outcome ApiResponse × W → Outcome (Unit {0}) × W
  no_result (failure e, w) = (failure e, w)
  no_result (success out, w) = (success tt, w)

  unfoldable pub post_rendered : GoString → Outcome (GoString × GoString) → W → Outcome GoString × W
  unfolding call posted
  post_rendered recipient (failure e) w = (failure (bytes "render notification: " ++ e), w)
  post_rendered recipient (success (text, attachments)) w =
      posted (call (bytes "chat.postMessage") (post_message recipient [] text attachments) w)

  unfoldable pub update_rendered :
      GoString × GoString → Outcome (GoString × GoString) → W → Outcome (Unit {0}) × W
  unfolding call no_result
  update_rendered target (failure e) w = (failure (bytes "render notification: " ++ e), w)
  update_rendered (channel, ts) (success (text, attachments)) w =
      no_result (call (bytes "chat.update") (update_message channel ts text attachments) w)

  unfoldable pub reply_in : GoString × GoString → GoString → W → Outcome (Unit {0}) × W
  unfolding call no_result
  reply_in (channel, ts) text w =
      no_result (call (bytes "chat.postMessage") (post_message channel ts text []) w)

  module _ (render : Notification → Outcome (GoString × GoString)) where
    unfoldable pub post : GoString → Notification → Call W GoString
    unfolding post_rendered
    post recipient n w = post_rendered recipient (render n) w

    unfoldable pub update : GoString → GoString → Notification → Call W (Unit {0})
    unfolding update_rendered decode_ref
    update recipient ref n w = update_rendered (decode_ref ref recipient) (render n) w

    unfoldable pub post_thread_reply : GoString → GoString → GoString → Call W (Unit {0})
    unfolding reply_in decode_ref
    post_thread_reply recipient ref text w = reply_in (decode_ref ref recipient) text w
