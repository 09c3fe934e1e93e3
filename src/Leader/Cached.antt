-- ===== src/Leader/Cached.antt =====
-- What `Resolve` returns and keeps, with calls that overlap and without.
use argocd_notifier.Prelude.{
  pick, ◌≡◌, ◌≢◌, sym, ap, subst, ◌∙◌, inl, inr, false, Option, none, some, ℕ, List, [], ◌∷◌, arith,
  All, All-append, Bool-cases, Option-cases,
}
use argocd_notifier.Text.{GoString, text_eq, str_eq_iff, is_empty, is_empty_iff}
use argocd_notifier.Aggregator.Backends.{Outcome, success, failure, Call}
use argocd_notifier.Leader.Resolver.{
  Resolved, address, unresolved, PodAddressResolver, cached, store, after_get, fetch,
  resolve_cached, resolve, Calls, CallStep, begin, answer, begin_call, end_call, call_step,
  call_steps,
}

-- What is known to the cache.
pub cached-some :
    (identity addr : GoString) (r : PodAddressResolver)
    → cached identity r ≡ some addr
    → (r.identity ≡ identity) × (r.addr ≡ addr) × (addr ≢ [])
unfolding cached
cached-some identity addr r q = ground (arith, str_eq_iff identity r.identity, is_empty_iff r.addr)

cached-store :
    (identity ip : GoString) (r : PodAddressResolver)
    → is_empty ip ≡ false
    → cached identity (store identity ip r) ≡ some ip
unfolding cached store
cached-store identity ip r h = ground (arith, str_eq_iff identity identity)

module _ (P : GoString → GoString → Type 0) where
  -- The API's answer to the call that it is given to.
  abbrev pub Told : Outcome GoString → Option (GoString × List GoString) → Type 0
  Told o none = Unit
  Told (failure e) (some _) = Unit
  Told (success ip) (some (identity, rest)) = P identity ip

  -- Each address that the API answers with is one that `P` has for the identity that was asked for.
  abbrev pub Truthful : List CallStep → Calls → Type 0
  Truthful [] c = Unit
  Truthful (begin identity ∷ rest) c = Truthful rest (call_step (begin identity) c).0
  Truthful (answer n o ∷ rest) c =
      Told o (pick n c.asking) × Truthful rest (call_step (answer n o) c).0

  abbrev pub Fits : GoString × Resolved → Type 0
  Fits (identity, address a) = P identity a
  Fits (identity, unresolved e) = Unit

  abbrev pub CacheFits : PodAddressResolver → Type 0
  CacheFits r = r.addr ≢ [] → P r.identity r.addr

  cached-Fits :
      (identity addr : GoString) (r : PodAddressResolver)
      → CacheFits r
      → cached identity r ≡ some addr
      → P identity addr
  unfolding cached
  cached-Fits identity addr r h q =
      let known = cached-some identity addr r q in
      subst (λ (a : GoString). P identity a) known.1
        (subst (λ (i : GoString). P i r.addr) known.0 (h (λ e. known.2 (sym known.1 ∙ e))))

  after_get-Fits :
      (identity : GoString) (o : Outcome GoString) (rest : List GoString) (r : PodAddressResolver)
      → Told o (some (identity, rest))
      → CacheFits r
      → Fits (identity, (after_get identity o r).0) × CacheFits (after_get identity o r).1
  unfolding after_get store
  after_get-Fits identity (failure e) rest r t h = (tt, h)
  after_get-Fits identity (success ip) rest r t h = elim (Bool-cases (is_empty ip)) [
    | inl p ↦ rw p (tt, h)
    | inr p ↦ rw p (t, λ _. t)
  ]

  end_call-Fits :
      (o : Outcome GoString) (next : Option (GoString × List GoString)) (c : Calls)
      → Told o next
      → CacheFits c.resolver
      → All Fits (end_call o next c).1 × CacheFits (end_call o next c).0.resolver
  unfolding end_call
  end_call-Fits o none c t h = (tt, h)
  end_call-Fits o (some (identity, rest)) c t h =
      let k = after_get-Fits identity o rest c.resolver t h in ((k.0, tt), k.1)

  begin_call-Fits :
      (identity : GoString) (c : Calls)
      → CacheFits c.resolver
      → All Fits (call_step (begin identity) c).1
        × CacheFits (call_step (begin identity) c).0.resolver
  unfolding call_step begin_call
  begin_call-Fits identity c h = elim (Option-cases (cached identity c.resolver)) [
    | inl q ↦ rw q (tt, h)
    | inr (addr, q) ↦ rw q ((cached-Fits identity addr c.resolver h q, tt), h)
  ]

  answer-Fits :
      (n : ℕ) (o : Outcome GoString) (c : Calls)
      → Told o (pick n c.asking)
      → CacheFits c.resolver
      → All Fits (call_step (answer n o) c).1 × CacheFits (call_step (answer n o) c).0.resolver
  unfolding call_step
  answer-Fits n o c t h = end_call-Fits o (pick n c.asking) c t h

  -- However calls of `Resolve` overlap: where each address in an answer of the API is right for the
  -- identity that the call asked for, each address that a call returns is right for its own identity,
  -- be it from the API or from the cache, and so is the address that the cache holds at the end, for
  -- the identity beside it.
  pub returned-Fits :
      (steps : List CallStep) (c : Calls)
      → CacheFits c.resolver
      → Truthful steps c
      → All Fits (call_steps steps c).1 × CacheFits (call_steps steps c).0.resolver
  unfolding call_steps
  returned-Fits [] c h t = (tt, h)
  returned-Fits (begin identity ∷ rest) c h t =
      let k = begin_call-Fits identity c h in
      let ih = returned-Fits rest (call_step (begin identity) c).0 k.1 t in
      (All-append Fits _ _ k.0 ih.0, ih.1)
  returned-Fits (answer n o ∷ rest) c h t =
      let k = answer-Fits n o c t.0 h in
      let ih = returned-Fits rest (call_step (answer n o) c).0 k.1 t.1 in
      (All-append Fits _ _ k.0 ih.0, ih.1)

module _ {W : Type 0} (get_pod : GoString → Call W GoString) (identity : GoString) where
  pub resolve_hit :
      (addr : GoString) (r : PodAddressResolver) (w : W)
      → cached identity r ≡ some addr
      → resolve get_pod identity (r, w) ≡ (address addr, (r, w))
  unfolding resolve resolve_cached
  resolve_hit addr r w q = rw q

  cached-after_get :
      (addr : GoString) (o : Outcome GoString) (r : PodAddressResolver)
      → (after_get identity o r).0 ≡ address addr
      → cached identity (after_get identity o r).1 ≡ some addr
  unfolding after_get
  cached-after_get addr (failure e) r h = absurd (ground arith)
  cached-after_get addr (success ip) r h = elim (Bool-cases (is_empty ip)) [
    | inl p ↦ absurd (ground arith)
    | inr p ↦ ground (arith, cached-store identity ip r p)
  ]

  cached-resolve :
      (addr : GoString) (r : PodAddressResolver) (w : W)
      → (resolve get_pod identity (r, w)).0 ≡ address addr
      → cached identity (resolve get_pod identity (r, w)).1.0 ≡ some addr
  unfolding resolve resolve_cached fetch
  cached-resolve addr r w h = elim (Option-cases (cached identity r)) [
    | inl q ↦ rw q (cached-after_get addr (get_pod identity w).0 r (rw q at h))
    | inr (a, q) ↦
        let same : address a ≡ address addr = rw q at h in
        rw q (let e : a ≡ addr = ground arith in q ∙ ap some e)
  ]

  -- Once a call has found an address, calls for the same identity return it and do not ask the API.
  resolve_again :
      (addr : GoString) (r : PodAddressResolver) (w later : W)
      → (resolve get_pod identity (r, w)).0 ≡ address addr
      → resolve get_pod identity ((resolve get_pod identity (r, w)).1.0, later)
        ≡ (address addr, ((resolve get_pod identity (r, w)).1.0, later))
  resolve_again addr r w later h = resolve_hit addr _ later (cached-resolve addr r w h)
