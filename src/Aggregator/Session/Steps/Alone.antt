-- ===== src/Aggregator/Session/Steps/Alone.antt =====
-- A call of `Upsert` whose steps no other call interrupts: the two models of it agree.
use argocd_notifier.Prelude.{
  ℕ, suc, ◌+◌, length, ◌≡◌, refl, ap, zero, ◌∙◌, ◌-◌, ◌≤◌, Bool-cases, Option, inl, inr, arith,
  List, [], ◌∷◌, ◌==◌, nat_eq,
}
use argocd_notifier.Text.{GoString, text_eq}
use argocd_notifier.Event.{Event, join_errors}
use argocd_notifier.Aggregator.Keys.{SessionKey}
use argocd_notifier.Aggregator.Clock.{Time}
use argocd_notifier.Aggregator.Recipients.{Groups}
use argocd_notifier.Aggregator.Backends.{Resolver}
use argocd_notifier.Aggregator.Session.{
  PublisherConfig, duplicate_action_thread, MessageRefs, Publisher, PublishError, Begun, Sent,
  nothing_sent, begin, store_refs, send_groups, send_changes, send_replies, reply_all, upsert,
  upsert_events, upsert_begun,
}
use argocd_notifier.Aggregator.Session.Steps.{
  Progress, Stage, opening, sending, storing, replying, returned, sent_of, progress_of, no_progress,
  destinations, repeats_of, step, steps,
}

-- The steps of a loop over the list, its end included, and `n` more.
after_loop : {A : Type 0} → List A → ℕ → ℕ
after_loop [] n = suc n
after_loop (x ∷ xs) n = suc (after_loop xs n)

after_loop-length : {A : Type 0} (xs : List A) (n : ℕ) → after_loop xs n ≡ 1 + length xs + n
unfolding after_loop
after_loop-length [] n = omega arith
after_loop-length (x ∷ xs) n = omega (arith, after_loop-length xs n)

module _ {W : Type 0} (sha256 : GoString → GoString) (format_time : Time → GoString)
    (resolve : Resolver W) (cfg : PublisherConfig) (now : Time) where
  abbrev go : ℕ → Stage × (Publisher × W) → Stage × (Publisher × W)
  go n x = steps sha256 format_time resolve cfg n now x

  go-returned :
      (n : ℕ) (errs : Option (List PublishError)) (s : Publisher × W)
      → go n (returned errs, s) ≡ (returned errs, s)
  unfolding steps step
  go-returned zero errs s = refl
  go-returned (suc n) errs s = go-returned n errs s

  go-sending :
      (n : ℕ) (key : SessionKey) (b : Begun) (gs : Groups) (g : Progress) (p : Publisher) (w : W)
      → let s = send_groups resolve b.refs gs (sent_of g w) in
        go (after_loop gs n) (sending key now b gs g, (p, w))
        ≡ go n (storing key now b (progress_of s), (p, s.world))
  unfolding steps step send_groups sent_of progress_of after_loop
  go-sending n key b [] g p w = refl
  go-sending n key b ((rk, apps) ∷ gs) g p w = go-sending n key b gs _ p _

  go-replying :
      (n : ℕ) (refs : MessageRefs) (evs : List Event) (g : Progress) (p : Publisher) (w : W)
      → let s = reply_all resolve format_time now refs evs (sent_of g w) in
        go (after_loop evs n) (replying now refs evs g, (p, w))
        ≡ (returned (join_errors s.errs), (p, s.world))
  unfolding steps step reply_all sent_of progress_of after_loop
  go-replying n refs [] g p w = go-returned n _ _
  go-replying n refs (ev ∷ evs) g p w = go-replying n refs evs _ p _

  sent_changes :
      (b : Begun) (w : W)
      → send_groups resolve b.refs (destinations b) (nothing_sent w)
        ≡ send_changes resolve b (nothing_sent w)
  unfolding destinations send_changes send_groups
  sent_changes b w = elim (Bool-cases b.changed) [ inl q ↦ rw q refl | inr q ↦ rw q refl ]

  sent_replies :
      (b : Begun) (s : Sent W)
      → reply_all resolve format_time now b.refs (repeats_of cfg b) s
        ≡ send_replies cfg resolve format_time now b s
  unfolding repeats_of send_replies reply_all
  sent_replies b s = elim (Bool-cases (cfg.duplicate_action == duplicate_action_thread)) [
    | inl q ↦ rw q refl
    | inr q ↦ rw q refl
  ]

  go-storing :
      (n : ℕ) (key : SessionKey) (b : Begun) (s : Sent W) (p : Publisher)
      → let d = send_replies cfg resolve format_time now b s in
        go (suc (after_loop (repeats_of cfg b) n)) (storing key now b (progress_of s), (p, s.world))
        ≡ (returned (join_errors d.errs), (store_refs key b.address s.new_refs p, d.world))
  unfolding steps step progress_of sent_of
  go-storing n key b s p =
      let stored = store_refs key b.address s.new_refs p in
      go-replying n b.refs (repeats_of cfg b) (progress_of s) stored s.world
      ∙ ap (λ (d : Sent W). (returned (join_errors d.errs), (stored, d.world))) (sent_replies b s)

  go-begun :
      (n : ℕ) (key : SessionKey) (b : Begun) (p : Publisher) (w : W)
      → let r = upsert_begun sha256 format_time resolve cfg now key w (b, p) in
        go
          (after_loop (destinations b) (suc (after_loop (repeats_of cfg b) n)))
          (sending key now b (destinations b) no_progress, (p, w))
        ≡ (returned r.0, r.1)
  unfolding upsert_begun sent_of
  go-begun n key b p w =
      let left = suc (after_loop (repeats_of cfg b) n) in
      go-sending left key b (destinations b) no_progress p w
      ∙ (ap (λ (s : Sent W). go left (storing key now b (progress_of s), (p, s.world)))
            (sent_changes b w)
          ∙ go-storing n key b (send_changes resolve b (nothing_sent w)) p)

  go-opening :
      (n : ℕ) (key : SessionKey) (ev : Event) (evs : List Event) (p : Publisher) (w : W)
      → let b : Begun = (begin sha256 cfg now key (ev ∷ evs) p).0 in
        let r = upsert sha256 format_time resolve cfg now key (ev ∷ evs) (p, w) in
        go
          (suc (after_loop (destinations b) (suc (after_loop (repeats_of cfg b) n))))
          (opening key (ev ∷ evs), (p, w))
        ≡ (returned r.0, r.1)
  unfolding steps step upsert upsert_events
  go-opening n key ev evs p w =
      let (b, p') = begin sha256 cfg now key (ev ∷ evs) p in go-begun n key b p' w

  -- What the first critical section leaves to do.
  abbrev to_do : SessionKey → List Event → Publisher → ℕ
  to_do key evs p =
      let b : Begun = (begin sha256 cfg now key evs p).0 in
      length (destinations b) + length (repeats_of cfg b)

  -- A call that nothing interrupts comes to its end with the result of `upsert`, within four steps and
  -- one for each destination of a batch that brings something new and for each repeat that gets a
  -- reply.
  pub upsert_alone :
      (n : ℕ) (key : SessionKey) (ev : Event) (evs : List Event) (p : Publisher) (w : W)
      → let b : Begun = (begin sha256 cfg now key (ev ∷ evs) p).0 in
        4 + length (destinations b) + length (repeats_of cfg b) ≤ n
        → let r = upsert sha256 format_time resolve cfg now key (ev ∷ evs) (p, w) in
          steps sha256 format_time resolve cfg n now (opening key (ev ∷ evs), (p, w))
          ≡ (returned r.0, r.1)
  upsert_alone n key ev evs p w le =
      let b : Begun = (begin sha256 cfg now key (ev ∷ evs) p).0 in
      let k = n - (4 + to_do key (ev ∷ evs) p) in
      let exact : n ≡ suc (after_loop (destinations b) (suc (after_loop (repeats_of cfg b) k))) =
        omega (
          arith,
          le,
          after_loop-length (destinations b) (suc (after_loop (repeats_of cfg b) k)),
          after_loop-length (repeats_of cfg b) k,
        ) in
      ap (λ (m : ℕ). go m (opening key (ev ∷ evs), (p, w))) exact ∙ go-opening k key ev evs p w
