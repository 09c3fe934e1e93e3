-- ===== src/Leader.antt =====
-- internal/leader/elector.go: what an instance knows of the lease. client-go's elector decides when the
-- callbacks run; here they are steps.
pub mod Resolver
pub mod Cached
pub mod Proxy
use argocd_notifier.Prelude.{Bool, true, false, Option, none, some, List, [], ◌∷◌}
use argocd_notifier.Text.{GoString}
use argocd_notifier.Aggregator.Clock.{Duration}

pub record Config : Type 0 where
  pub namespace : GoString
  pub lease_name : GoString
  pub identity : GoString
  pub lease_duration : Duration
  pub renew_deadline : Duration
  pub retry_period : Duration

-- The two atomic fields. `none` is the nil pointer.
pub record Elector : Type 0 where
  pub leading : Bool
  pub current_leader : Option GoString

-- leaderelection.LeaderCallbacks
pub data LeaderCallback : Type 0 where
  on_started_leading : LeaderCallback
  on_stopped_leading : LeaderCallback
  on_new_leader : GoString → LeaderCallback

-- `e := &Elector{}`
abbrev pub zero_elector : Elector
zero_elector = record { leading = false; current_leader = none }

unfoldable pub call_back : LeaderCallback → Elector → Elector
call_back on_started_leading e = record e { leading = true }
call_back on_stopped_leading e = record e { leading = false }
call_back (on_new_leader identity) e = record e { current_leader = some identity }

-- The callbacks that `Run` makes, in their order.
unfoldable pub observe : List LeaderCallback → Elector → Elector
unfolding call_back
observe [] e = e
observe (c ∷ cs) e = observe cs (call_back c e)

unfoldable pub is_leader : Elector → Bool
is_leader e = e.leading

-- identity, ok
unfoldable pub identity_of : Option GoString → GoString × Bool
identity_of none = ([], false)
identity_of (some identity) = (identity, true)

unfoldable pub current_leader : Elector → GoString × Bool
unfolding identity_of
current_leader e = identity_of e.current_leader
