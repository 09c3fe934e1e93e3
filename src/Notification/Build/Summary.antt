-- ===== src/Notification/Build/Summary.antt =====
-- The text of a summary: which triggers it names, in which order, and the count beside each.
use argocd_notifier.Prelude.{
  ℕ, ◌+◌, ◌≤◌, ◌≡◌, refl, ◌↔◌, List, [], ◌∷◌, ◌++◌, map, arith, All, In, Reorders, same, skip, swap,
  chain, fun_ext,
}
use argocd_notifier.Text.{
  GoString, text_eq, str_eq_iff, bytes, join, trim_prefix, itoa, sort_strings,
}
use argocd_notifier.Text.Order.{IsSorted, sort_strings-IsSorted, Reorders-sort_strings}
use argocd_notifier.Maps.{
  GoMap, lookup, get_or, keys, values, Distinct, Distinct-Reorders, insert-Distinct, All-insert,
}
use argocd_notifier.Event.{Event}
use argocd_notifier.Notification.{Notification}
use argocd_notifier.Notification.Build.{
  increment, count_part, summary, Gathered, gather, gather_one, nothing_gathered, assemble, build,
  built,
}
use argocd_notifier.Notification.Build.Deterministic.{OfGroup, gathered_group_key}
use argocd_notifier.Notification.Build.Contents.{apps_with, count_exact}

In-Reorders : {xs ys : List GoString} (t : GoString) → Reorders xs ys → In t xs ↔ In t ys
In-Reorders t same = ((λ i. i), (λ i. i))
In-Reorders t (skip r) = ground (arith, In-Reorders t r)
In-Reorders t swap = ground arith
In-Reorders t (chain r s) = ground (arith, In-Reorders t r, In-Reorders t s)

-- No trigger is counted without an event that has it.
abbrev Positive : GoMap GoString ℕ → Type 0
Positive c = All (λ n. 1 ≤ n) (values c)

In-keys : (t : GoString) (c : GoMap GoString ℕ) → Positive c → In t (keys c) ↔ (1 ≤ get_or t 0 c)
unfolding get_or lookup
In-keys t [] p = ground arith
In-keys t ((u, n) ∷ c) p = ground (arith, str_eq_iff u t, In-keys t c p.1)

abbrev IsCounted : Gathered → Type 0
IsCounted g = Positive g.counts × Distinct (keys g.counts)

gather-IsCounted : (g : Gathered) (m : GoMap GoString Event) → IsCounted g → IsCounted (gather g m)
unfolding gather gather_one increment
gather-IsCounted g [] h = h
gather-IsCounted g ((k, ev) ∷ m) h =
    let n = get_or ev.trigger 0 g.counts + 1 in
    gather-IsCounted (gather_one g k ev) m (
      All-insert (λ i. 1 ≤ i) ev.trigger n g.counts h.0 (omega arith),
      insert-Distinct ev.trigger n g.counts h.1,
    )

-- The triggers that at least one app has as its latest, each once, in the order of their bytes.
pub record Reported (m : GoMap GoString Event) (ts : List GoString) : Type 0 where
  pub sorted : IsSorted ts
  pub distinct : Distinct ts
  pub exact : (t : GoString) → In t ts ↔ (1 ≤ apps_with t m)

sort_strings-Reported :
    (m : GoMap GoString Event) → Reported m (sort_strings (keys (gather nothing_gathered m).counts))
sort_strings-Reported m =
    let g = gather nothing_gathered m in
    let counted = gather-IsCounted nothing_gathered m (tt, tt) in
    let order = Reorders-sort_strings (keys g.counts) in
    record {
      sorted = sort_strings-IsSorted (keys g.counts);
      distinct = Distinct-Reorders order counted.1;
      exact =
          λ t. ground (arith, In-Reorders t order, In-keys t g.counts counted.0, count_exact t m);
    }

-- "2 deployed"
abbrev pub reported_text : GoMap GoString Event → GoString → GoString
reported_text m t = itoa (apps_with t m) ++ (32 ∷ trim_prefix t (bytes "on-"))

count_part_lem :
    (m : GoMap GoString Event) (t : GoString)
    → count_part (gather nothing_gathered m).counts t ≡ reported_text m t
unfolding count_part
count_part_lem m t = rw (count_exact t m) refl

-- The summary of the events of a group is the group's key, an em dash between blanks, and behind
-- commas, for each trigger that at least one app has as its latest, in their order and each once, the
-- number of such apps and the trigger without its prefix "on-".
pub build-summary :
    (gk : GoString) (m : GoMap GoString Event) (n : Notification)
    → OfGroup gk m
    → build m ≡ built n
    → (ts : List GoString) × Reported m ts
      × (n.summary
          ≡ gk ++ (32 ∷ 0xe2 ∷ 0x80 ∷ 0x94 ∷ 32 ∷ join (bytes ", ") (map (reported_text m) ts)))
unfolding build assemble summary
build-summary gk [] n o h = cc
build-summary gk (x ∷ m) n o h = (
  sort_strings (keys (gather nothing_gathered (x ∷ m)).counts),
  sort_strings-Reported (x ∷ m),
  cc (h, gathered_group_key gk (x ∷ m) (λ e. cc) o, fun_ext (count_part_lem (x ∷ m))),
)
