-- ===== src/Aggregator/Clock/Outstanding.antt =====
-- A timer whose callback has not run yet: it is pending, or started.
use argocd_notifier.Prelude.{
  ℕ, ◌≡◌, ◌≢◌, refl, ◌⊎◌, inl, inr, Bool, true, not, Option, none, some, List, [], ◌∷◌, ◌++◌, arith,
  keep, In, ap, ◌==◌, nat_eq,
}
use argocd_notifier.Prelude.Int.{pos, ◌+ℤ◌}
use argocd_notifier.Aggregator.Clock.{Duration, Callback, Timer, Clock, after_func, stop, stop_if}

pub In-append_left : {A : Type 0} (a : A) (xs ys : List A) → In a xs → In a (xs ++ ys)
In-append_left a [] ys h = absurd h
In-append_left a (x ∷ xs) ys (inl e) = inl e
In-append_left a (x ∷ xs) ys (inr h) = inr (In-append_left a xs ys h)

pub In-append_right : {A : Type 0} (a : A) (xs ys : List A) → In a ys → In a (xs ++ ys)
In-append_right a [] ys h = h
In-append_right a (x ∷ xs) ys h = inr (In-append_right a xs ys h)

pub In-keep :
    {A : Type 0} (p : A → Bool) (a : A) (xs : List A) → p a ≡ true → In a xs → In a (keep p xs)
In-keep p a [] h m = absurd m
In-keep p a (x ∷ xs) h (inl e) = ground (arith, ap p e)
In-keep p a (x ∷ xs) h (inr m) = ground (arith, In-keep p a xs h m)

-- The timer is pending, or started.
abbrev pub Stands : Timer → Clock → Type 0
Stands t c = In t c.pending ⊎ In t c.started

pub Stands-after_func :
    (t : Timer) (c : Clock) (d : Duration) (g : Callback)
    → Stands t c
    → Stands t (after_func c d g).1
unfolding after_func
Stands-after_func t c d g (inl m) = inl (In-append_left t c.pending _ m)
Stands-after_func t c d g (inr m) = inr m

Stands-stop : (t : Timer) (i : ℕ) (c : Clock) → i ≢ t.id → Stands t c → Stands t (stop i c)
unfolding stop
Stands-stop t i c ne (inl m) = inl (In-keep (λ u. not (u.id == i)) t c.pending (ground arith) m)
Stands-stop t i c ne (inr m) = inr m

pub Stands-stop_if :
    (t : Timer) (o : Option ℕ) (c : Clock)
    → ((i : ℕ) → o ≡ some i → i ≢ t.id)
    → Stands t c
    → Stands t (stop_if o c)
unfolding stop_if
Stands-stop_if t none c ne h = h
Stands-stop_if t (some i) c ne h = Stands-stop t i c (ne i refl) h

pub record Outstanding (id : ℕ) (f : Callback) (c : Clock) : Type 0 where
  pub timer : Timer
  pub same_id : timer.id ≡ id
  pub same_callback : timer.callback ≡ f
  pub there : Stands timer c

pub next_id-stop_if : (o : Option ℕ) (c : Clock) → (stop_if o c).next_id ≡ c.next_id
unfolding stop_if
next_id-stop_if none c = refl
next_id-stop_if (some i) c = refl

-- The timer that `after_func` makes.
abbrev pub new_timer : Clock → Duration → Callback → Timer
new_timer c d f = record { id = c.next_id; deadline = pos c.now +ℤ d; callback = f }

pub Stands-new :
    (c : Clock) (d : Duration) (f : Callback) → Stands (new_timer c d f) (after_func c d f).1
unfolding after_func
Stands-new c d f = inl (In-append_right _ c.pending _ (inl refl))

pub Outstanding-new :
    (c : Clock) (d : Duration) (f : Callback) → Outstanding c.next_id f (after_func c d f).1
Outstanding-new c d f = record {
  timer = new_timer c d f;
  same_id = refl;
  same_callback = refl;
  there = Stands-new c d f;
}

pub Outstanding-after_func :
    {id : ℕ} {f : Callback} {c : Clock} (d : Duration) (g : Callback)
    → Outstanding id f c
    → Outstanding id f (after_func c d g).1
Outstanding-after_func {c} d g o = record {
  timer = o.timer;
  same_id = o.same_id;
  same_callback = o.same_callback;
  there = Stands-after_func o.timer c d g o.there;
}

pub Outstanding-stop_if :
    {id : ℕ} {f : Callback} {c : Clock} (o : Option ℕ)
    → ((i : ℕ) → o ≡ some i → i ≢ id)
    → Outstanding id f c
    → Outstanding id f (stop_if o c)
Outstanding-stop_if {c} o ne h = record {
  timer = h.timer;
  same_id = h.same_id;
  same_callback = h.same_callback;
  there = Stands-stop_if h.timer o c (λ i q. let k = ne i q in rw h.same_id k) h.there;
}
