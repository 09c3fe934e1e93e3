-- ===== src/Aggregator/Session/Interleave.antt =====
-- Calls of `Upsert` that overlap. Between its two critical sections a call sends, and other calls may
-- pass either of theirs; what a call brings to its second section is left open.
pub mod Opening
pub mod Finishing
pub mod Always
use argocd_notifier.Prelude.{
  pick, ℕ, ap, ◌&&◌, Option, none, some, List, [], ◌∷◌, arith, ◌==◌, nat_eq, if◌then◌else◌,
}
use argocd_notifier.Text.{GoString}
use argocd_notifier.Maps.{copy}
use argocd_notifier.Event.{Event}
use argocd_notifier.Aggregator.Keys.{SessionKey, session_key_eq, ref_key_eq}
use argocd_notifier.Aggregator.Clock.{Time}
use argocd_notifier.Aggregator.Session.{
  PublisherConfig, MessageRefs, Session, Publisher, new_publisher, begin, store_refs,
}

-- A call between its critical sections: its key and the session that it began with.
pub record Call : Type 0 where
  pub key : SessionKey
  pub address : ℕ

-- A second critical section that was passed.
pub record Stored : Type 0 where
  pub call : Call
  pub new_refs : MessageRefs

-- The store, the calls in flight, and the history of the second critical sections, the latest first.
pub record Running : Type 0 where
  pub publisher : Publisher
  pub in_flight : List Call
  pub history : List Stored

-- A call passes its first critical section, or the call at a position passes its second one, with the
-- references that its backends returned.
pub data Action : Type 0 where
  start : Time → SessionKey → List Event → Action
  finish : ℕ → MessageRefs → Action

unfoldable pub finish_call : Option (Call × List Call) → MessageRefs → Running → Running
finish_call none new_refs r = r
finish_call (some (c, rest)) new_refs r = record {
  publisher = store_refs c.key c.address new_refs r.publisher;
  in_flight = rest;
  history = record { call = c; new_refs = new_refs } ∷ r.history;
}

module _ (sha256 : GoString → GoString) (cfg : PublisherConfig) where
  unfoldable pub perform : Action → Running → Running
  unfolding pick finish_call
  perform (start now key events) r =
      let (b, p) = begin sha256 cfg now key events r.publisher in
      record r {
        publisher = p;
        in_flight = record { key = key; address = b.address } ∷ r.in_flight;
      }
  perform (finish n new_refs) r = finish_call (pick n r.in_flight) new_refs r

  unfoldable pub perform_all : List Action → Running → Running
  unfolding perform
  perform_all [] r = r
  perform_all (a ∷ rest) r = perform_all rest (perform a r)

abbrev pub nothing_running : Running
nothing_running = record { publisher = new_publisher; in_flight = []; history = [] }

-- The references that the calls of a session brought back, later ones over earlier ones.
unfoldable pub refs_of : SessionKey → ℕ → List Stored → MessageRefs
refs_of key address [] = []
refs_of key address (x ∷ history) =
    let older = refs_of key address history in
    if (x.call.key == key) && (x.call.address == address) then copy older x.new_refs else older
