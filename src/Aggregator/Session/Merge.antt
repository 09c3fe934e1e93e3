-- ===== src/Aggregator/Session/Merge.antt =====
-- How a batch changes what a session knows of its apps.
use mathlib.Core.List.{append-nil, append_assoc}
use argocd_notifier.Prelude.{
  ◌≡◌, refl, sym, ap, ◌∙◌, true, false, Option, none, some, List, [], ◌∷◌, ◌++◌, arith, ◌==◌, All,
  if◌then◌else◌, Bool-cases, eq_of_==, ne_of_==, Option-cases, inl, inr, subst,
}
use argocd_notifier.Text.{GoString, text_eq}
use argocd_notifier.Maps.{GoMap, lookup, or_else, lookup-insert_self, lookup-insert_ne}
use argocd_notifier.Event.{Event}
use argocd_notifier.Aggregator.Content.{same_hash, content_hash}
use argocd_notifier.Aggregator.Session.{Merged, merge_one, merge, is_duplicate}

-- The last event of a list about an app.
abbrev pub latest : GoString → List Event → Option Event
latest app [] = none
latest app (ev ∷ evs) = or_else (latest app evs) (if ev.app_name == app then some ev else none)

module _ (sha256 : GoString → GoString) where
  abbrev hash : Event → GoString
  hash ev = content_hash sha256 ev

  abbrev hash_of : Option Event → Option GoString
  hash_of none = none
  hash_of (some ev) = some (hash ev)

  -- What is known of an app has the hash of the event, or is what was known before if there is none.
  abbrev pub Agrees : Option Event → Option Event → Option Event → Type 0
  Agrees none before after = after ≡ before
  Agrees (some ev) before after = hash_of after ≡ some (hash ev)

  known-merge_one_self :
      (m : Merged) (ev : Event)
      → hash_of (lookup ev.app_name (merge_one sha256 m ev).per_app) ≡ some (hash ev)
  unfolding merge_one is_duplicate same_hash
  known-merge_one_self m ev = elim (Option-cases (lookup ev.app_name m.per_app)) [
    | inl p ↦ rw p (rw (lookup-insert_self ev.app_name ev m.per_app) refl)
    | inr (prior, p) ↦ elim (Bool-cases (hash prior == hash ev)) [
      | inl q ↦ rw (p, q) (rw p (rw (eq_of_== (hash prior) (hash ev) q)))
      | inr q ↦ rw (p, q) (rw (lookup-insert_self ev.app_name ev m.per_app) refl)
    ]
  ]

  known-merge_one_ne :
      (app : GoString) (m : Merged) (ev : Event)
      → (ev.app_name == app) ≡ false
      → lookup app (merge_one sha256 m ev).per_app ≡ lookup app m.per_app
  unfolding merge_one
  known-merge_one_ne app m ev ne =
      ground (arith, lookup-insert_ne ev.app_name app ev m.per_app (ne_of_== ev.app_name app ne))

  -- After a batch, what the session knows of an app has the content hash of the last event about it,
  -- and of an app that the batch does not name it knows what it knew.
  pub merge-Agrees :
      (app : GoString) (m : Merged) (evs : List Event)
      → Agrees (latest app evs) (lookup app m.per_app) (lookup app (merge sha256 m evs).per_app)
  unfolding merge
  merge-Agrees app m [] = refl
  merge-Agrees app m (ev ∷ evs) =
      let m' : Merged = merge_one sha256 m ev in
      let ih = merge-Agrees app m' evs in
      elim (Option-cases (latest app evs)) [
        | inr (e, p) ↦ rw p (rw p at ih)
        | inl p ↦
            let same : lookup app (merge sha256 m' evs).per_app ≡ lookup app m'.per_app =
              rw p at ih in
            elim (Bool-cases (ev.app_name == app)) [
              | inl q ↦
                  rw (p, q, same)
                    (subst (λ a. hash_of (lookup a m'.per_app) ≡ some (hash ev))
                      (eq_of_== ev.app_name app q) (known-merge_one_self m ev))
              | inr q ↦ rw (p, q) (same ∙ known-merge_one_ne app m ev q)
            ]
      ]

  -- An event that repeats what the session knows.
  abbrev pub IsRepeat : GoMap GoString Event → Event → Type 0
  IsRepeat per_app ev = is_duplicate sha256 (lookup ev.app_name per_app) ev ≡ true

  -- A batch of repeats changes nothing, and all of it is kept as duplicates.
  pub merge-repeats :
      (m : Merged) (evs : List Event)
      → All (IsRepeat m.per_app) evs
      → merge sha256 m evs ≡ record m { duplicates = m.duplicates ++ evs }
  unfolding merge
  merge-repeats m [] h = ap (λ d. record m { duplicates = d }) (sym (append-nil m.duplicates))
  merge-repeats m (ev ∷ evs) h =
      let m' : Merged = record m { duplicates = m.duplicates ++ ev ∷ [] } in
      let step : merge_one sha256 m ev ≡ m' = unfold merge_one in rw h.0 in
      rw step (
        merge-repeats m' evs h.1
        ∙ ap (λ d. record m { duplicates = d }) (append_assoc m.duplicates (ev ∷ []) evs))
