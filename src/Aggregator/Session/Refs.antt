-- ===== src/Aggregator/Session/Refs.antt =====
-- The message references that the deliveries of a batch bring back.
use argocd_notifier.Prelude.{
  ◌≡◌, ◌≢◌, refl, ◌∙◌, Option, none, some, [], ◌∷◌, ◌++◌, nat_eq, All, Option-cases, inl, inr,
}
use argocd_notifier.Text.{GoString, text_eq}
use argocd_notifier.Maps.{
  GoMap, lookup, insert, get_or, keys, Distinct, lookup-insert_self, lookup-insert_ne,
  insert-Distinct,
}
use argocd_notifier.Event.{Event}
use argocd_notifier.Notification.{Notification}
use argocd_notifier.Notification.Build.{BuildResult, build, built, failed}
use argocd_notifier.Aggregator.Keys.{session_key_eq, RefKey, ref_key_eq}
use argocd_notifier.Aggregator.Recipients.{Groups}
use argocd_notifier.Aggregator.Backends.{Outcome, success, failure, Call, Backend, Resolver}
use argocd_notifier.Aggregator.Session.{
  PublishError, MessageRefs, Sent, add_error, record_ref, record_outcome, post_or_update, deliver,
  deliver_to, deliver_built, send_groups,
}

module _ {W : Type 0} where
  pub world-record_ref :
      (rk : RefKey) (err : GoString → PublishError) (o : Outcome GoString × W) (s : Sent W)
      → (record_ref rk err o s).world ≡ o.1
  unfolding record_ref add_error
  world-record_ref rk err (success ref, w) s = refl
  world-record_ref rk err (failure e, w) s = refl

-- The references after a delivery to `rk`: as before, or with a new one for `rk`.
data Touches (rk : RefKey) (before after : MessageRefs) : Type 0 where
  kept : after ≡ before → Touches rk before after
  put : (ref : GoString) → after ≡ insert rk ref before → Touches rk before after

module _ {W : Type 0} (rk : RefKey) where
  record_ref-Touches :
      (err : GoString → PublishError) (o : Outcome GoString × W) (s : Sent W)
      → Touches rk s.new_refs (record_ref rk err o s).new_refs
  unfolding record_ref
  record_ref-Touches err (success ref, w) s = put ref refl
  record_ref-Touches err (failure e, w) s = kept refl

  record_outcome-Touches :
      {A : Type 0} (err : GoString → PublishError) (o : Outcome A × W) (s : Sent W)
      → Touches rk s.new_refs (record_outcome err o s).new_refs
  unfolding record_outcome
  record_outcome-Touches err (success a, w) s = kept refl
  record_outcome-Touches err (failure e, w) s = kept refl

  module _ (n : Notification) (refs : MessageRefs) where
    deliver-Touches :
        (notify : Option (GoString → GoString → Notification → Call W GoString))
        (post : Option (GoString → Notification → Call W GoString))
        (update : Option (GoString → GoString → Notification → Call W (Unit {0}))) (s : Sent W)
        → Touches rk s.new_refs (deliver rk n refs notify post update s).new_refs
    unfolding deliver post_or_update add_error
    deliver-Touches (some f) post update s = record_ref-Touches _ _ s
    deliver-Touches none none update s = kept refl
    deliver-Touches none (some post) none s = record_outcome-Touches _ _ s
    deliver-Touches none (some post) (some update) s = elim (Option-cases (lookup rk refs)) [
      | inl p ↦ rw p (record_ref-Touches _ _ s)
      | inr (ref, p) ↦ rw p (record_outcome-Touches _ _ s)
    ]

    deliver_to-Touches :
        (b : Option (Backend W)) (s : Sent W)
        → Touches rk s.new_refs (deliver_to rk n refs b s).new_refs
    unfolding deliver_to add_error
    deliver_to-Touches none s = kept refl
    deliver_to-Touches (some b) s = deliver-Touches b.notify b.post b.update s

module _ {W : Type 0} (resolve : Resolver W) (refs : MessageRefs) where
  deliver_built-Touches :
      (rk : RefKey) (r : BuildResult) (s : Sent W)
      → Touches rk s.new_refs (deliver_built resolve rk refs r s).new_refs
  unfolding deliver_built add_error
  deliver_built-Touches rk (failed e) s = kept refl
  deliver_built-Touches rk (built n) s = deliver_to-Touches rk n refs (resolve rk.backend s.world) s

  -- A delivery writes the reference of its own destination and no other.
  lookup-deliver_built :
      (rk k : RefKey) (r : BuildResult) (s : Sent W)
      → rk ≢ k
      → lookup k (deliver_built resolve rk refs r s).new_refs ≡ lookup k s.new_refs
  lookup-deliver_built rk k r s ne = elim (deliver_built-Touches rk r s) [
    | kept e ↦ rw e
    | put ref e ↦ rw e (lookup-insert_ne rk k ref s.new_refs ne)
  ]

  Distinct-deliver_built :
      (rk : RefKey) (r : BuildResult) (s : Sent W)
      → Distinct (keys s.new_refs)
      → Distinct (keys (deliver_built resolve rk refs r s).new_refs)
  Distinct-deliver_built rk r s d = elim (deliver_built-Touches rk r s) [
    | kept e ↦ rw e d
    | put ref e ↦ rw e (insert-Distinct rk ref s.new_refs d)
  ]

  pub Distinct-send_groups :
      (gs : Groups) (s : Sent W)
      → Distinct (keys s.new_refs)
      → Distinct (keys (send_groups resolve refs gs s).new_refs)
  unfolding send_groups
  Distinct-send_groups [] s d = d
  Distinct-send_groups ((rk, apps) ∷ rest) s d =
      Distinct-send_groups rest (deliver_built resolve rk refs (build apps) s)
        (Distinct-deliver_built rk (build apps) s d)

  lookup-send_groups_other :
      (k : RefKey) (gs : Groups) (s : Sent W)
      → All (λ j. j ≢ k) (keys gs)
      → lookup k (send_groups resolve refs gs s).new_refs ≡ lookup k s.new_refs
  unfolding send_groups
  lookup-send_groups_other k [] s h = refl
  lookup-send_groups_other k ((rk, apps) ∷ rest) s h =
      lookup-send_groups_other k rest (deliver_built resolve rk refs (build apps) s) h.1
      ∙ lookup-deliver_built rk k (build apps) s h.0

  send_groups-append :
      (gs hs : Groups) (s : Sent W)
      → send_groups resolve refs (gs ++ hs) s
        ≡ send_groups resolve refs hs (send_groups resolve refs gs s)
  unfolding send_groups
  send_groups-append [] hs s = refl
  send_groups-append ((rk, apps) ∷ rest) hs s =
      send_groups-append rest hs (deliver_built resolve rk refs (build apps) s)

  -- A destination whose backend is a Notifier is called with the reference that the session holds for
  -- it, or with an empty one. Where the call succeeds, the reference that it returns is the one that
  -- is kept, whatever became of the destinations before and behind it.
  pub notified_ref :
      (before after : Groups) (rk : RefKey) (apps : GoMap GoString Event) (n : Notification)
      (b : Backend W) (notify : GoString → GoString → Notification → Call W GoString)
      (ref : GoString) (w' : W) (s : Sent W)
      → All (λ j. j ≢ rk) (keys after)
      → build apps ≡ built n
      → resolve rk.backend (send_groups resolve refs before s).world ≡ some b
      → b.notify ≡ some notify
      → notify rk.recipient (get_or rk [] refs) n (send_groups resolve refs before s).world
        ≡ (success ref, w')
      → lookup rk (send_groups resolve refs (before ++ (rk, apps) ∷ after) s).new_refs ≡ some ref
  unfolding send_groups deliver_built deliver_to deliver record_ref
  notified_ref before after rk apps n b notify ref w' s fresh eb er en ec =
      rw (send_groups-append before ((rk, apps) ∷ after) s) (
        lookup-send_groups_other rk after _ fresh
        ∙ rw (eb, er, en, ec) (lookup-insert_self rk ref _))
