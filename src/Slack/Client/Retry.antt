-- ===== src/Slack/Client/Retry.antt =====
-- How often `call` tries, and what it makes of the results.
use argocd_notifier.Prelude.{
  ℕ, suc, zero, ◌+◌, ◌*◌, ◌≤◌, ◌^◌, ◌≡◌, refl, true, false, Option, none, some, arith, ltb,
  if◌then◌else◌, inl, inr, ◌⊎◌,
}
use argocd_notifier.Prelude.Int.{pos, negsuc}
use argocd_notifier.Text.{GoString}
use argocd_notifier.Aggregator.Backends.{Outcome, success, failure}
use argocd_notifier.Slack.Client.{
  ApiResponse, zero_response, Attempted, done, failed, Http, Message, attempt_once, pause, attempts,
  last_outcome, rounds, backoff, wrap_int64, millisecond, call, call_marshalled,
}

-- The wait before an attempt is 200 ms for each attempt before it and 2 s at most, for any number of
-- attempts up to 2^32.
pub backoff_lem :
    (attempt : ℕ)
    → attempt ≤ 2 ^ 32
    → backoff attempt
      ≡ pos (if ltb attempt 10 then attempt * (200 * millisecond) else 2000 * millisecond)
unfolding backoff wrap_int64
backoff_lem attempt h = ground arith

pause-cases :
    {W : Type 0} (x : Option GoString × W)
    → ((y : GoString × W) × (x ≡ (some y.0, y.1))) ⊎ ((w : W) × (x ≡ (none, w)))
pause-cases (none, w) = inr (w, refl)
pause-cases (some e, w) = inl ((e, w), refl)

data AttemptCases {W : Type 0} (x : Attempted × W) : Type 0 where
  answer : (out : ApiResponse) (w : W) → x ≡ (done out, w) → AttemptCases x
  refusal : (e : GoString) (w : W) → x ≡ (failed false e, w) → AttemptCases x
  retryable : (e : GoString) (w : W) → x ≡ (failed true e, w) → AttemptCases x

attempt-cases : {W : Type 0} (x : Attempted × W) → AttemptCases x
attempt-cases (done out, w) = answer out w refl
attempt-cases (failed false e, w) = refusal e w refl
attempt-cases (failed true e, w) = retryable e w refl

module _ {W : Type 0} (http : Http W) (method body : GoString) where
  -- Attempts that failed and can be tried again, one behind the other, each behind its wait: from the
  -- attempt `i` in `w` to the attempt `j` in `w'`, which is still to be made. `last` is the last error.
  pub data Retries (i : ℕ) (w : W) (start : Option GoString)
      : ℕ → W → Option GoString → Type 0 where
    here : Retries i w start i w start
    retry :
        {j : ℕ} {v v' w' : W} {last : Option GoString} {e : GoString}
        → Retries i w start j v last
        → pause http method body j v ≡ (none, v')
        → attempt_once http method body v' ≡ (failed true e, w')
        → Retries i w start (suc j) w' (some e)

  -- How the loop ends behind such retries, with `m` for the number of retries that are allowed: by an
  -- answer, by an error that no retry would mend, by the end of the context, or with the last error
  -- when no retry is left.
  pub data Ends (m j : ℕ) (w : W) (last : Option GoString) : Outcome ApiResponse × W → Type 0 where
    answered :
        {v u : W} {out : ApiResponse}
        → j ≤ m
        → pause http method body j w ≡ (none, v)
        → attempt_once http method body v ≡ (done out, u)
        → Ends m j w last (success out, u)
    refused :
        {v u : W} {e : GoString}
        → j ≤ m
        → pause http method body j w ≡ (none, v)
        → attempt_once http method body v ≡ (failed false e, u)
        → Ends m j w last (failure e, u)
    cancelled :
        {v : W} {e : GoString}
        → j ≤ m
        → pause http method body j w ≡ (some e, v)
        → Ends m j w last (failure e, v)
    exhausted : {e : GoString} → j ≡ suc m → last ≡ some e → Ends m j w last (failure e, w)

  -- A whole run of the loop that starts in `w`.
  pub record Run (m : ℕ) (w : W) (r : Outcome ApiResponse × W) : Type 0 where
    pub attempt : ℕ
    pub world : W
    pub last : Option GoString
    pub retries : Retries 0 w none attempt world last
    pub ends : Ends m attempt world last r

  exhausted-Run :
      {m j : ℕ} {w v : W} {last : Option GoString}
      → Retries 0 w none j v last
      → j ≡ suc m
      → Run m w (last_outcome last, v)
  unfolding last_outcome
  exhausted-Run here h = absurd (omega (arith, h))
  exhausted-Run (retry {last} {e} r p a) h = record {
    attempt = _;
    world = _;
    last = some e;
    retries = retry r p a;
    ends = exhausted h refl;
  }

  attempts-Run :
      (m n j : ℕ) (w v : W) (last : Option GoString)
      → Retries 0 w none j v last
      → n + j ≡ suc m
      → Run m w (attempts http method body n j last v)
  unfolding attempts
  attempts-Run m zero j w v last r h = exhausted-Run r (omega (arith, h))
  attempts-Run m (suc n) j w v last r h =
      let le : j ≤ m = omega (arith, h) in
      elim (pause-cases (pause http method body j v)) [
        | inl ((e, u), p) ↦
            rw p
              (record { attempt = j; world = v; last = last; retries = r; ends = cancelled le p })
        | inr (u, p) ↦ elim (attempt-cases (attempt_once http method body u)) [
          | answer out u' q ↦
              rw (p, q)
                (record {
                  attempt = j;
                  world = v;
                  last = last;
                  retries = r;
                  ends = answered le p q;
                })
          | refusal e u' q ↦
              rw (p, q)
                (record { attempt = j; world = v; last = last; retries = r; ends = refused le p q })
          | retryable e u' q ↦
              rw (p, q) (attempts-Run m n (suc j) w u' (some e) (retry r p q) (omega (arith, h)))
        ]
      ]

-- A call whose message can be written is one run of the loop: at most `m` retries, each behind an
-- attempt that failed in a way that a retry may mend, and then one of the four ends. In each of them
-- it returns, with the answer of the last attempt or with its error.
pub call-Run :
    {W : Type 0} (http : Http W) (marshal : Message → Outcome GoString) (m : ℕ) (method : GoString)
    (message : Message) (body : GoString) (w : W)
    → marshal message ≡ success body
    → Run http method body m w (call http marshal (pos m) method message w)
unfolding call call_marshalled rounds
call-Run http marshal m method message body w h =
    rw h (attempts-Run http method body m (suc m) 0 w w none here (omega arith))

-- With a negative number of retries the loop never runs: the call sends nothing and still reports no
-- error, with an empty answer.
pub call-negative :
    {W : Type 0} (http : Http W) (marshal : Message → Outcome GoString) (n : ℕ) (method : GoString)
    (message : Message) (body : GoString) (w : W)
    → marshal message ≡ success body
    → call http marshal (negsuc n) method message w ≡ (success zero_response, w)
unfolding call call_marshalled rounds attempts last_outcome
call-negative http marshal n method message body w h = rw h refl
