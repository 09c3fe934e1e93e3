-- ===== src/Aggregator/Clock.antt =====
-- internal/aggregator/clock.go over the package `time`: timers that call back, and durations.
-- A callback of an expired timer runs in a goroutine of its own and may wait for a lock, so it can
-- still run after `Stop`: an expired timer moves from `pending` to `started`, where `Stop` does not
-- reach it.
pub mod Outstanding
use argocd_notifier.Prelude.{
  ℕ, suc, ◌-◌, ◌^◌, Bool, Option, none, some, List, [], ◌∷◌, ◌++◌, keep, not, ◌==◌, nat_eq,
  if◌then◌else◌,
}
use argocd_notifier.Prelude.Int.{ℤ, pos, negsuc, ◌+ℤ◌, ltb_ℤ, sub_ℕ}
use argocd_notifier.Text.{GoString}

-- Nanoseconds. A `time.Duration` is an int64.
abbrev pub Duration : Type 0
Duration = ℤ

abbrev pub max_duration : ℤ
max_duration = pos (2 ^ 63 - 1)

abbrev pub min_duration : ℤ
min_duration = negsuc (2 ^ 63 - 1)

-- Readings of the monotonic clock, in nanoseconds.
abbrev pub Time : Type 0
Time = ℕ

-- t.Sub(u), which saturates
unfoldable pub time_sub : Time → Time → Duration
time_sub t u =
    let d = sub_ℕ t u in
    if ltb_ℤ max_duration d then max_duration else if ltb_ℤ d min_duration then min_duration else d

-- now.Sub(last) > ttl
unfoldable pub is_stale : Time → Time → Duration → Bool
unfolding time_sub
is_stale now last ttl = ltb_ℤ ttl (time_sub now last)

-- What the callback `func() { e.onTimerFire(groupKey, gen) }` captures.
pub record Callback : Type 0 where
  pub group_key : GoString
  pub generation : ℕ

pub record Timer : Type 0 where
  pub id : ℕ
  pub deadline : ℤ
  pub callback : Callback

pub record Clock : Type 0 where
  pub now : Time
  pub next_id : ℕ
  pub pending : List Timer
  pub started : List Timer

-- c.AfterFunc(d, f), with the new timer's id
unfoldable pub after_func : Clock → Duration → Callback → ℕ × Clock
after_func c d f = (
  c.next_id,
  record c {
    next_id = suc c.next_id;
    pending = c.pending ++ record { id = c.next_id; deadline = pos c.now +ℤ d; callback = f } ∷ [];
  },
)

-- t.Stop()
unfoldable pub stop : ℕ → Clock → Clock
stop id c = record c { pending = keep (λ t. not (t.id == id)) c.pending }

-- `if t != nil { t.Stop() }`
unfoldable pub stop_if : Option ℕ → Clock → Clock
unfolding stop
stop_if none c = c
stop_if (some id) c = stop id c
