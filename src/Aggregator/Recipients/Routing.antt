-- ===== src/Aggregator/Recipients/Routing.antt =====
-- Which apps each destination gets.
use argocd_notifier.Prelude.{
  ◌≡◌, ◌≢◌, refl, ◌∙◌, Bool, false, ◌&&◌, ◌||◌, Option, none, some, List, [], ◌∷◌, arith, ◌==◌,
  eq_of_==, subst, if◌then◌else◌, All, Bool-cases, inl, inr,
}
use argocd_notifier.Text.{GoString, text_eq, str_eq_iff, is_empty_iff, trim_space, split}
use argocd_notifier.Maps.{
  GoMap, lookup, insert, get_or, get_or-insert, lookup-insert, keys, values, Distinct,
  lookup-none_of_All-ne, All-insert, insert-ne-nil,
}
use argocd_notifier.Event.{Event}
use argocd_notifier.Aggregator.Keys.{RefKey, ref_key_eq, ref_key_beq_iff}
use argocd_notifier.Aggregator.Recipients.{
  Groups, trimmed_parts, split_recipients, add_app, add_to_recipients, group_into, group_apps,
}

unfoldable pub contains : GoString → List GoString → Bool
contains x [] = false
contains x (y ∷ ys) = (y == x) || contains x ys

-- The event names this destination.
unfoldable pub is_addressed : Event → RefKey → Bool
is_addressed ev rk =
    (ev.backend == rk.backend) && contains rk.recipient (split_recipients ev.recipient)

-- No recipient is empty.
trimmed_parts-All : (ps : List GoString) → All (λ r. r ≢ []) (trimmed_parts ps)
unfolding trimmed_parts
trimmed_parts-All [] = tt
trimmed_parts-All (p ∷ ps) = ground (arith, trimmed_parts-All ps, is_empty_iff (trim_space p))

pub split_recipients-All : (raw : GoString) → All (λ r. r ≢ []) (split_recipients raw)
unfolding split_recipients
split_recipients-All raw = ground (arith, trimmed_parts-All (split raw b';'))

-- What a destination has for an app.
abbrev pub entry : RefKey → GoString → Groups → Option Event
entry rk app out = lookup app (get_or rk [] out)

entry-add_app :
    (rk k : RefKey) (app a : GoString) (ev : Event) (out : Groups)
    → entry k a (add_app rk app ev out)
      ≡ (if (rk == k) && (app == a) then some ev else entry k a out)
unfolding add_app
entry-add_app rk k app a ev out = ground (
  arith,
  get_or-insert rk k [] (insert app ev (get_or rk [] out)) out,
  lookup-insert app a ev (get_or rk [] out),
  ref_key_beq_iff rk k,
)

entry-add_to_recipients :
    (k : RefKey) (app a : GoString) (ev : Event) (rs : List GoString) (out : Groups)
    → entry k a (add_to_recipients app ev rs out) ≡ (
        if (app == a) && ((ev.backend == k.backend) && contains k.recipient rs)
        then some ev
        else entry k a out)
unfolding add_to_recipients contains
entry-add_to_recipients k app a ev [] out = ground arith
entry-add_to_recipients k app a ev (r ∷ rs) out =
    let rk : RefKey = record { backend = ev.backend; recipient = r } in
    ground (
      arith,
      entry-add_to_recipients k app a ev rs (add_app rk app ev out),
      entry-add_app rk k app a ev out,
      ref_key_beq_iff rk k,
      str_eq_iff ev.backend k.backend,
      str_eq_iff r k.recipient,
    )

-- What the events say of a destination and an app.
abbrev pub addressed_event : RefKey → Option Event → Option Event → Option Event
addressed_event k none old = old
addressed_event k (some ev) old = if is_addressed ev k then some ev else old

entry-group_into :
    (k : RefKey) (a : GoString) (m : GoMap GoString Event) (out : Groups)
    → Distinct (keys m)
    → entry k a (group_into m out) ≡ addressed_event k (lookup a m) (entry k a out)
unfolding group_into is_addressed lookup
entry-group_into k a [] out d = refl
entry-group_into k a ((app, ev) ∷ rest) out d =
    let out' : Groups = add_to_recipients app ev (split_recipients ev.recipient) out in
    elim (Bool-cases (app == a)) [
      | inl p ↦
          let e : app ≡ a = eq_of_== app a p in
          rw
            (
              p,
              entry-group_into k a rest out' d.1,
              lookup-none_of_All-ne a rest (subst (λ b. All (λ j. j ≢ b) (keys rest)) e d.0),
              entry-add_to_recipients k app a ev (split_recipients ev.recipient) out,
              p,
            )
            refl
      | inr p ↦
          rw
            (
              p,
              entry-group_into k a rest out' d.1,
              entry-add_to_recipients k app a ev (split_recipients ev.recipient) out,
              p,
            )
            refl
    ]

-- A destination gets exactly the apps whose latest event names its backend and, among the recipients,
-- its recipient; and it gets that event.
pub group_apps-entry :
    (k : RefKey) (a : GoString) (m : GoMap GoString Event)
    → Distinct (keys m)
    → entry k a (group_apps m) ≡ addressed_event k (lookup a m) none
unfolding group_apps
group_apps-entry k a m d = entry-group_into k a m [] d ∙ unfold get_or lookup in refl

abbrev AllFull : Groups → Type 0
AllFull out = All (λ apps. apps ≢ []) (values out)

add_to_recipients-AllFull :
    (app : GoString) (ev : Event) (rs : List GoString) (out : Groups)
    → AllFull out
    → AllFull (add_to_recipients app ev rs out)
unfolding add_to_recipients add_app
add_to_recipients-AllFull app ev [] out h = h
add_to_recipients-AllFull app ev (r ∷ rs) out h =
    let rk : RefKey = record { backend = ev.backend; recipient = r } in
    add_to_recipients-AllFull app ev rs (add_app rk app ev out) (
      All-insert (λ apps. apps ≢ []) rk (insert app ev (get_or rk [] out)) out h
        (insert-ne-nil app ev (get_or rk [] out)))

group_into-AllFull :
    (m : GoMap GoString Event) (out : Groups) → AllFull out → AllFull (group_into m out)
unfolding group_into
group_into-AllFull [] out h = h
group_into-AllFull ((app, ev) ∷ rest) out h =
    group_into-AllFull rest (add_to_recipients app ev (split_recipients ev.recipient) out)
      (add_to_recipients-AllFull app ev (split_recipients ev.recipient) out h)

-- No destination gets a notification about no app: `Build` does not fail with `ErrNoEvents`.
pub group_apps-full : (m : GoMap GoString Event) → All (λ apps. apps ≢ []) (values (group_apps m))
unfolding group_apps
group_apps-full m = group_into-AllFull m [] tt
