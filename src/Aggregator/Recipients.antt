-- ===== src/Aggregator/Recipients.antt =====
-- Routing in internal/aggregator/session.go: `splitRecipients` and `groupAppsByBackendRecipient`.
pub mod Routing
use argocd_notifier.Prelude.{Bool, true, false, List, [], ◌∷◌, ◌==◌, if◌then◌else◌, ◌&&◌, ◌||◌}
use argocd_notifier.Text.{GoString, text_eq, is_empty, trim_space, split}
use argocd_notifier.Maps.{GoMap, insert, get_or}
use argocd_notifier.Event.{Event}
use argocd_notifier.Aggregator.Keys.{RefKey, ref_key_eq}

-- `if p = strings.TrimSpace(p); p != "" { out = append(out, p) }`
unfoldable pub trimmed_parts : List GoString → List GoString
trimmed_parts [] = []
trimmed_parts (p ∷ ps) =
    let rest = trimmed_parts ps in let t = trim_space p in if is_empty t then rest else t ∷ rest

unfoldable pub split_recipients : GoString → List GoString
unfolding trimmed_parts
split_recipients raw = if is_empty raw then [] else trimmed_parts (split raw b';')

abbrev pub Groups : Type 0
Groups = GoMap RefKey (GoMap GoString Event)

-- out[rk][appName] = ev, where out[rk] is made if it is nil
unfoldable pub add_app : RefKey → GoString → Event → Groups → Groups
add_app rk app ev out = insert rk (insert app ev (get_or rk [] out)) out

-- The inner loop, over the recipients of one event.
unfoldable pub add_to_recipients : GoString → Event → List GoString → Groups → Groups
unfolding add_app
add_to_recipients app ev [] out = out
add_to_recipients app ev (recipient ∷ rest) out =
    add_to_recipients app ev rest
      (add_app (record { backend = ev.backend; recipient = recipient }) app ev out)

unfoldable pub group_into : GoMap GoString Event → Groups → Groups
unfolding add_to_recipients split_recipients
group_into [] out = out
group_into ((app, ev) ∷ rest) out =
    group_into rest (add_to_recipients app ev (split_recipients ev.recipient) out)

unfoldable pub group_apps : GoMap GoString Event → Groups
unfolding group_into
group_apps per_app = group_into per_app []
