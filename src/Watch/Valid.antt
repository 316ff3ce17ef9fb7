-- ===== src/Watch/Valid.antt =====
-- What holds of a watch after anything that may happen (frontend/public/module/k8s/k8s-actions.ts).
use web_ui.Base.{
  ℕ, zero, suc, ◌<◌, ◌≡◌, refl, sym, ap, ◌∙◌, subst, Bool, Option, none, some, List, [], ◌∷◌,
  get_elem?, ==_refl, Option-cases, inl, inr, arith,
}
use mathlib.Core.Option.{some-injective, none-ne-some}
use web_ui.Watch.Cell.{
  Maker, by_list, Handle, Cell, idle, without, without_held, set_refs, open_socket, start_timer,
  ensure_timer, set_loads, set_gets, poll_and_watch, clean_up, socket_after_load,
}

-- What goes on is at most what the field holds.
unfoldable pub Held : Option Handle → List Handle → Type 0
Held o [] = Unit {0}
Held none (k ∷ ks) = ⊥
Held (some h) (k ∷ []) = h ≡ k
Held (some h) (k ∷ j ∷ ks) = ⊥

unfoldable pub Positive : Option ℕ → Type 0
Positive none = Unit {0}
Positive (some n) = 0 < n

-- Without a count nothing goes on.
unfoldable pub Quiet : Option ℕ → List Handle → List Handle → Type 0
Quiet none sockets timers = (sockets ≡ []) × (timers ≡ [])
Quiet (some n) sockets timers = Unit {0}

-- Without a count nothing is stored in WS.
unfoldable pub Unstored : Option ℕ → Option Handle → Type 0
Unstored none o = o ≡ none
Unstored (some n) o = Unit {0}

pub record IsValid (c : Cell) : Type 0 where
  pub positive : Positive c.refs
  pub sockets_held : Held c.socket c.sockets
  pub timers_held : Held c.timer c.timers
  pub quiet : Quiet c.refs c.sockets c.timers
  pub unstored : Unstored c.refs c.socket

Held-none : (hs : List Handle) → Held none hs → hs ≡ []
unfolding Held
Held-none [] h = refl
Held-none (k ∷ ks) h = absurd h

without-one : (h : Handle) → without h.serial (h ∷ []) ≡ []
without-one h = rw (==_refl h.serial) refl

pub Held-without_held : (o : Option Handle) (hs : List Handle) → Held o hs → without_held o hs ≡ []
unfolding Held
Held-without_held none [] h = refl
Held-without_held (some k) [] h = refl
Held-without_held none (k ∷ ks) h = absurd h
Held-without_held (some h) (k ∷ []) e = ap (λ j. without h.serial (j ∷ [])) (sym e) ∙ without-one h
Held-without_held (some h) (k ∷ j ∷ ks) e = absurd e

pub Held-get_elem? :
    (o : Option Handle) (hs : List Handle) (n : ℕ) (h : Handle)
    → Held o hs
    → get_elem? hs n ≡ some h
    → without h.serial hs ≡ []
unfolding Held
Held-get_elem? o [] n h v e = refl
Held-get_elem? none (k ∷ ks) n h v e = absurd v
Held-get_elem? (some j) (k ∷ []) zero h v e =
    ap (λ i. without h.serial (i ∷ [])) (some-injective k h e) ∙ without-one h
Held-get_elem? (some j) (k ∷ []) (suc n) h v e = absurd (none-ne-some h e)
Held-get_elem? (some j) (k ∷ i ∷ ks) n h v e = absurd v

pub Held-empty : (o : Option Handle) (hs : List Handle) → hs ≡ [] → Held o hs
unfolding Held
Held-empty o hs e = subst (Held o) (sym e) tt

pub Quiet-empty : (o : Option ℕ) (ss ts : List Handle) → ss ≡ [] → ts ≡ [] → Quiet o ss ts
unfolding Quiet
Quiet-empty none ss ts e f = (e, f)
Quiet-empty (some n) ss ts e f = tt

Held-cons : (h : Handle) (hs : List Handle) → hs ≡ [] → Held (some h) (h ∷ hs)
unfolding Held
Held-cons h hs e = subst (λ ks. Held (some h) (h ∷ ks)) (sym e) refl

Quiet-counted : (o : Option ℕ) (n : ℕ) (ss ts : List Handle) → o ≡ some n → Quiet o ss ts
unfolding Quiet
Quiet-counted none n ss ts e = absurd (none-ne-some n e)
Quiet-counted (some m) n ss ts e = tt

pub Quiet-sockets :
    (o : Option ℕ) (ss us ts : List Handle) → us ≡ [] → Quiet o ss ts → Quiet o us ts
unfolding Quiet
Quiet-sockets none ss us ts e q = (e, q.1)
Quiet-sockets (some n) ss us ts e q = tt

pub Quiet-timers : (o : Option ℕ) (ss ts us : List Handle) → us ≡ [] → Quiet o ss ts → Quiet o ss us
unfolding Quiet
Quiet-timers none ss ts us e q = (q.0, e)
Quiet-timers (some n) ss ts us e q = tt

pub Unstored-none : (o : Option ℕ) → Unstored o none
unfolding Unstored
Unstored-none none = refl
Unstored-none (some n) = tt

Unstored-counted : (o : Option ℕ) (n : ℕ) (h : Option Handle) → o ≡ some n → Unstored o h
unfolding Unstored
Unstored-counted none n h e = absurd (none-ne-some n e)
Unstored-counted (some m) n h e = tt

get_elem?-empty : {A : Type 0} (xs : List A) (n : ℕ) (a : A) → xs ≡ [] → get_elem? xs n ≡ some a → ⊥
get_elem?-empty [] n a e f = none-ne-some a f
get_elem?-empty (x ∷ xs) n a e f = ground (arith, e)

pub idle-IsValid : IsValid idle
unfolding idle Held Quiet Positive Unstored
idle-IsValid = record {
  positive = tt;
  sockets_held = tt;
  timers_held = tt;
  quiet = (refl, refl);
  unstored = refl;
}

module _ (c : Cell) (v : IsValid c) where
  -- Without a count nothing goes on.
  pub uncounted : c.refs ≡ none → (c.sockets ≡ []) × (c.timers ≡ [])
  unfolding Quiet
  uncounted e = subst (λ o. Quiet o c.sockets c.timers) e v.quiet

  pub unstored_of : c.refs ≡ none → c.socket ≡ none
  unfolding Unstored
  unstored_of e = subst (λ o. Unstored o c.socket) e v.unstored

  -- While a socket is there, somebody watches.
  pub counted : (n : ℕ) (h : Handle) → get_elem? c.sockets n ≡ some h → (k : ℕ) × (c.refs ≡ some k)
  counted n h e = elim (Option-cases c.refs) [
    | inl absent ↦ absurd (get_elem?-empty c.sockets n h (uncounted absent).0 e)
    | inr present ↦ present
  ]

  pub set_loads-IsValid : (ls : List Bool) → IsValid (set_loads ls c)
  unfolding set_loads
  set_loads-IsValid ls = record {
    positive = v.positive;
    sockets_held = v.sockets_held;
    timers_held = v.timers_held;
    quiet = v.quiet;
    unstored = v.unstored;
  }

  pub set_gets-IsValid : (n : ℕ) → IsValid (set_gets n c)
  unfolding set_gets
  set_gets-IsValid n = record {
    positive = v.positive;
    sockets_held = v.sockets_held;
    timers_held = v.timers_held;
    quiet = v.quiet;
    unstored = v.unstored;
  }

  pub clean_up-IsValid : IsValid (clean_up c)
  unfolding clean_up Positive Unstored
  clean_up-IsValid = record {
    positive = tt;
    sockets_held = Held-empty none _ (Held-without_held c.socket c.sockets v.sockets_held);
    timers_held = Held-empty none _ (Held-without_held c.timer c.timers v.timers_held);
    quiet =
        Quiet-empty none _ _ (Held-without_held c.socket c.sockets v.sockets_held)
          (Held-without_held c.timer c.timers v.timers_held);
    unstored = refl;
  }

  pub set_refs-IsValid : (n : ℕ) → 0 < n → IsValid (set_refs (some n) c)
  unfolding set_refs Positive Quiet Unstored
  set_refs-IsValid n p = record {
    positive = p;
    sockets_held = v.sockets_held;
    timers_held = v.timers_held;
    quiet = tt;
    unstored = tt;
  }

  pub open_socket-IsValid :
      (m : Maker) (n : ℕ) → c.refs ≡ some n → c.sockets ≡ [] → IsValid (open_socket m c)
  unfolding open_socket
  open_socket-IsValid m n r e = record {
    positive = v.positive;
    sockets_held = Held-cons _ c.sockets e;
    timers_held = v.timers_held;
    quiet = Quiet-counted c.refs n _ _ r;
    unstored = Unstored-counted c.refs n _ r;
  }

  pub start_timer-IsValid :
      (m : Maker) (n : ℕ) → c.refs ≡ some n → c.timers ≡ [] → IsValid (start_timer m c)
  unfolding start_timer
  start_timer-IsValid m n r e = record {
    positive = v.positive;
    sockets_held = v.sockets_held;
    timers_held = Held-cons _ c.timers e;
    quiet = Quiet-counted c.refs n _ _ r;
    unstored = v.unstored;
  }

  pub ensure_timer-IsValid :
      (n : ℕ) → c.refs ≡ some n → (o : Option Handle) → c.timer ≡ o → IsValid (ensure_timer c o)
  unfolding ensure_timer
  ensure_timer-IsValid n r none e =
      start_timer-IsValid by_list n r
        (Held-none c.timers (subst (λ o. Held o c.timers) e v.timers_held))
  ensure_timer-IsValid n r (some h) e = v

  pub socket_after_load-IsValid :
      (n : ℕ)
      → c.refs ≡ some n
      → (o : Option Handle) → c.socket ≡ o
      → IsValid (socket_after_load c o)
  unfolding socket_after_load
  socket_after_load-IsValid n r none e =
      open_socket-IsValid by_list n r
        (Held-none c.sockets (subst (λ o. Held o c.sockets) e v.sockets_held))
  socket_after_load-IsValid n r (some h) e = v

  pub poll_and_watch-IsValid : c.timers ≡ [] → IsValid (poll_and_watch c)
  unfolding poll_and_watch
  poll_and_watch-IsValid e = record {
    positive = v.positive;
    sockets_held = v.sockets_held;
    timers_held = Held-empty none c.timers e;
    quiet = v.quiet;
    unstored = v.unstored;
  }
