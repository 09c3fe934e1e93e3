-- ===== src/Notification/Build/Deterministic.antt =====
-- `Build` ranges over a map: two orders of one map.
mod Counts
use mathlib.Core.List.{append-nil, append_assoc}
use argocd_notifier.Prelude.{
  ℕ, ◌≡◌, refl, ap, ◌∙◌, sym, List, [], ◌∷◌, ◌++◌, map, arith, All, Reorders, Reorders-map,
  length-Reorders, ◌≢◌, All-Reorders,
}
use argocd_notifier.Text.{GoString, text_eq, sort_strings}
use argocd_notifier.Text.Order.{sort_strings-Reorders}
use argocd_notifier.Maps.{GoMap, lookup, keys, Distinct, lookup-Reorders}
use argocd_notifier.Event.{Event}
use argocd_notifier.Notification.Build.{
  Gathered, gather, gather_one, assemble, nothing_gathered, build_items, item_of, summary, build,
  built,
}
use Counts.{SameCounts-count_all, summary-SameCounts}
unfoldable pub use Counts.{count_all}

abbrev pub triggers : GoMap GoString Event → List GoString
triggers m = map (λ e. e.1.trigger) m

pub gather-names :
    (g : Gathered) (m : GoMap GoString Event) → (gather g m).names ≡ g.names ++ keys m
unfolding gather gather_one
gather-names g [] = sym (append-nil g.names)
gather-names g ((k, ev) ∷ m) =
    gather-names (gather_one g k ev) m ∙ append_assoc g.names (k ∷ []) (keys m)

pub gather-counts :
    (g : Gathered) (m : GoMap GoString Event)
    → (gather g m).counts ≡ count_all g.counts (triggers m)
unfolding gather gather_one count_all
gather-counts g [] = refl
gather-counts g ((k, ev) ∷ m) = gather-counts (gather_one g k ev) m

-- Every event of the map is one of the group.
abbrev pub OfGroup : GoString → GoMap GoString Event → Type 0
OfGroup gk m = All (λ e. e.1.group_key ≡ gk) m

gather-group_key :
    (g : Gathered) (gk : GoString) (m : GoMap GoString Event)
    → g.group_key ≡ gk
    → OfGroup gk m
    → (gather g m).group_key ≡ gk
unfolding gather gather_one
gather-group_key g gk [] h o = h
gather-group_key g gk ((k, ev) ∷ m) h o = gather-group_key (gather_one g k ev) gk m o.0 o.1

build_items-congr :
    (m m' : GoMap GoString Event) (names : List GoString)
    → ((k : GoString) → lookup k m ≡ lookup k m')
    → build_items m names ≡ build_items m' names
unfolding build_items
build_items-congr m m' [] h = refl
build_items-congr m m' (k ∷ names) h = rw (h k, build_items-congr m m' names h)

pub gathered_group_key :
    (gk : GoString) (m : GoMap GoString Event)
    → m ≢ []
    → OfGroup gk m
    → (gather nothing_gathered m).group_key ≡ gk
unfolding gather gather_one
gathered_group_key gk [] ne o = absurd (ne refl)
gathered_group_key gk ((k, ev) ∷ m) ne o =
    gather-group_key (gather_one nothing_gathered k ev) gk m o.0 o.1

assemble-Reorders :
    (gk : GoString) {m m' : GoMap GoString Event}
    → Reorders m m'
    → Distinct (keys m)
    → OfGroup gk m
    → m ≢ []
    → m' ≢ []
    → assemble m ≡ assemble m'
unfolding assemble
assemble-Reorders gk {m} {m'} r d o ne ne' = cc (
  gathered_group_key gk m ne o,
  gathered_group_key gk m' ne' (All-Reorders (λ e. e.1.group_key ≡ gk) r o),
  gather-counts nothing_gathered m,
  gather-counts nothing_gathered m',
  summary-SameCounts gk (SameCounts-count_all [] (Reorders-map (λ e. e.1.trigger) r)),
  gather-names nothing_gathered m,
  gather-names nothing_gathered m',
  sort_strings-Reorders (Reorders-map (λ e. e.0) r),
  build_items-congr m m' (sort_strings (keys m')) (λ k. lookup-Reorders k r d),
)

-- Two ranges over one map of events, in any two orders, build one notification: the events being of
-- one group, as those of a session are.
pub build-Reorders :
    (gk : GoString) {m m' : GoMap GoString Event}
    → Reorders m m'
    → Distinct (keys m)
    → OfGroup gk m
    → build m ≡ build m'
unfolding build
build-Reorders gk {m = []} {m' = []} r d o = refl
build-Reorders gk {m = []} {m' = y ∷ ys} r d o = absurd (omega (arith, length-Reorders r))
build-Reorders gk {m = x ∷ xs} {m' = []} r d o = absurd (omega (arith, length-Reorders r))
build-Reorders gk {m = x ∷ xs} {m' = y ∷ ys} r d o =
    ap built (assemble-Reorders gk r d o (λ e. cc) (λ e. cc))
