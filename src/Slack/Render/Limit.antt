-- ===== src/Slack/Render/Limit.antt =====
-- Which items a message shows.
use argocd_notifier.Prelude.{
  All-append, ℕ, ◌+◌, ◌-◌, ◌≤◌, ◌≡◌, refl, Option, none, some, List, [], ◌∷◌, ◌++◌, length, take,
  length-append, length-take, ltb, arith, ◌⊎◌, inl, inr, if◌then◌else◌, Bool-cases, Option-cases,
  All, subst, ◌≢◌,
}
use argocd_notifier.Text.{GoString, text_eq}
use argocd_notifier.Maps.{GoMap, lookup}
use argocd_notifier.Event.{Event}
use argocd_notifier.Notification.{Notification, Item}
use argocd_notifier.Notification.Build.{build, built, assemble, item_of, build_items}
use argocd_notifier.Notification.Build.Items.{trigger_builder}
use argocd_notifier.Notification.Build.Contents.{Describes, item_of-Describes}
use argocd_notifier.Slack.Render.{
  Attachment, trigger_renderer, render_one, render_items, more_attachment, limit,
  render_notification,
}

-- A message has at most 100 attachments. They are all of the items' attachments, or the first 99 of them
-- and one that says how many are left out.
pub limit_lem :
    (n : Notification)
    → (length (render_notification n).1 ≤ 100)
      × (((render_notification n).1 ≡ render_items n.items)
          ⊎ ((k : ℕ) × ((render_notification n).1
                ≡ take 99 (render_items n.items) ++ more_attachment k ∷ [])
              × (99 + k ≡ length (render_items n.items))))
unfolding render_notification limit
limit_lem n = elim (Bool-cases (ltb 100 (length (render_items n.items)))) [
  | inr few ↦ rw few (ground (arith, few), inl refl)
  | inl many ↦
      let k : ℕ = length (render_items n.items) - 99 in
      let left : List Attachment = take 99 (render_items n.items) in
      rw many (
        omega (
          arith,
          length-append left (more_attachment k ∷ []),
          length-take 99 (render_items n.items),
        ),
        inr (k, refl, ground (arith, many)),
      )
]

-- A trigger with a builder has a renderer.
same_triggers : (t : GoString) → (trigger_builder t ≡ none) ⊎ (trigger_renderer t ≢ none)
unfolding trigger_builder trigger_renderer
same_triggers t = ground arith

-- The item's trigger has a renderer.
abbrev pub IsRendered : Item → Type 0
IsRendered i = trigger_renderer i.trigger ≢ none

All-IsRendered :
    (ev : Event) (items : List Item)
    → trigger_renderer ev.trigger ≢ none
    → All (Describes ev) items
    → All IsRendered items
All-IsRendered ev [] h d = tt
All-IsRendered ev (i ∷ items) h d = (rw d.0.same_trigger h, All-IsRendered ev items h d.1)

item_of-All : (o : Option Event) → All IsRendered (item_of o)
unfolding item_of
item_of-All none = tt
item_of-All (some ev) = elim (same_triggers ev.trigger) [
  | inl q ↦ let none_built : item_of (some ev) ≡ [] = rw (q, item_of) refl in rw none_built tt
  | inr q ↦ All-IsRendered ev (item_of (some ev)) q (item_of-Describes ev)
]

build_items-All :
    (m : GoMap GoString Event) (names : List GoString) → All IsRendered (build_items m names)
unfolding build_items
build_items-All m [] = tt
build_items-All m (name ∷ names) =
    All-append IsRendered (item_of (lookup name m)) (build_items m names)
      (item_of-All (lookup name m)) (build_items-All m names)

length-render_items :
    (items : List Item) → All IsRendered items → length (render_items items) ≡ length items
unfolding render_items render_one
length-render_items [] h = refl
length-render_items (i ∷ items) h = elim (Option-cases (trigger_renderer i.trigger)) [
  | inl q ↦ absurd (h.0 q)
  | inr (render, q) ↦ rw q (omega (arith, length-render_items items h.1))
]

items_of_built :
    (m : GoMap GoString Event) (n : Notification) → build m ≡ built n → All IsRendered n.items
unfolding build assemble
items_of_built [] n h = cc
items_of_built (x ∷ m) n h =
    let e : assemble (x ∷ m) ≡ n = cc h in
    subst (λ (k : Notification). All IsRendered k.items) e (build_items-All (x ∷ m) _)

length-limit :
    (all : List Attachment)
    → length (limit all) ≡ (if ltb 100 (length all) then 100 else length all)
unfolding limit
length-limit all = elim (Bool-cases (ltb 100 (length all))) [
  | inr few ↦ rw few refl
  | inl many ↦
      let lt : 101 ≤ length all = ground (arith, many) in
      rw many (
        omega (
          arith,
          lt,
          length-append (take 99 all) (more_attachment (length all - 99) ∷ []),
          length-take 99 all,
        ))
]

-- No item of a notification that `Build` made is skipped by the renderer: a message has one attachment
-- for each of them, or 100 if there are more than 100.
pub built-length :
    (m : GoMap GoString Event) (n : Notification)
    → build m ≡ built n
    → length (render_notification n).1 ≡ (if ltb 100 (length n.items) then 100 else length n.items)
unfolding render_notification
built-length m n h =
    subst (λ k. length (limit (render_items n.items)) ≡ (if ltb 100 k then 100 else k))
      (length-render_items n.items (items_of_built m n h)) (length-limit (render_items n.items))
