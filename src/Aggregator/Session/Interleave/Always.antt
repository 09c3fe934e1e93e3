-- ===== src/Aggregator/Session/Interleave/Always.antt =====
-- The invariant in every schedule.
use argocd_notifier.Prelude.{
  pick, AllPicked, pick-AllPicked, ◌<◌, ◌≡◌, Option, none, some, List, [], ◌∷◌, nat_eq,
}
use argocd_notifier.Text.{GoString}
use argocd_notifier.Maps.{lookup}
use argocd_notifier.Aggregator.Keys.{SessionKey, session_key_eq, ref_key_eq}
use argocd_notifier.Aggregator.Session.{PublisherConfig, MessageRefs, Session, begin, store_refs}
use argocd_notifier.Aggregator.Session.Interleave.{
  Call, Running, Action, start, finish, finish_call, perform, perform_all, nothing_running, refs_of,
}
use argocd_notifier.Aggregator.Session.Interleave.Opening.{
  begin-Opened, IsConsistent, start-IsConsistent,
}
use argocd_notifier.Aggregator.Session.Interleave.Finishing.{
  store_refs-StoreResult, finish-IsConsistent,
}

finish_call-IsConsistent :
    (o : Option (Call × List Call)) (new_refs : MessageRefs) (r : Running)
    → AllPicked (λ c. c.address < r.publisher.next_address) o
    → IsConsistent r
    → IsConsistent (finish_call o new_refs r)
unfolding finish_call
finish_call-IsConsistent none new_refs r k h = h
finish_call-IsConsistent (some (c, rest)) new_refs r k h =
    finish-IsConsistent (record { call = c; new_refs = new_refs }) r rest
      (store_refs c.key c.address new_refs r.publisher) h k.0 k.1
      (store_refs-StoreResult c.key c.address new_refs r.publisher)

module _ (sha256 : GoString → GoString) (cfg : PublisherConfig) where
  perform-IsConsistent :
      (a : Action) (r : Running) → IsConsistent r → IsConsistent (perform sha256 cfg a r)
  unfolding perform begin
  perform-IsConsistent (start now key events) r h =
      start-IsConsistent key r _ _ h (begin-Opened sha256 cfg now key events r.publisher)
  perform-IsConsistent (finish n new_refs) r h =
      finish_call-IsConsistent (pick n r.in_flight) new_refs r
        (pick-AllPicked (λ c. c.address < r.publisher.next_address) n r.in_flight h.flying) h

  pub perform_all-IsConsistent :
      (schedule : List Action) (r : Running)
      → IsConsistent r
      → IsConsistent (perform_all sha256 cfg schedule r)
  unfolding perform_all
  perform_all-IsConsistent [] r h = h
  perform_all-IsConsistent (a ∷ rest) r h =
      perform_all-IsConsistent rest (perform sha256 cfg a r) (perform-IsConsistent a r h)

new-IsConsistent : IsConsistent nothing_running
unfolding lookup
new-IsConsistent = record { known = λ key s q. cc; flying = tt; past = tt; own = λ key s q. cc }

-- However calls of `Upsert` overlap, a session holds exactly the references that the calls which began
-- with that session brought to their second critical section, a later call's over an earlier one's:
-- none is lost, and none comes from a call that began with a session that is gone.
pub session_refs :
    (sha256 : GoString → GoString) (cfg : PublisherConfig) (schedule : List Action)
    (key : SessionKey) (s : Session)
    → lookup key (perform_all sha256 cfg schedule nothing_running).publisher.sessions ≡ some s
    → s.state.refs ≡ refs_of key s.address (perform_all sha256 cfg schedule nothing_running).history
session_refs sha256 cfg schedule key s there =
    (perform_all-IsConsistent sha256 cfg schedule nothing_running new-IsConsistent).own key s there
