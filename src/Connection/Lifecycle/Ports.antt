-- ===== src/Connection/Lifecycle/Ports.antt =====
-- The ports of the router that a connection holds, whatever `open` and `close` run into.
use pyads_agile.Prelude.{
  ◌⊎◌, ℕ, ◌==◌, ==→eq, eq→==, ◌||◌, ◌&&◌, not, Bool-cases, ◌≡◌, refl, sym, ap, ◌∙◌, subst, Bool,
  true, false, if◌then◌else◌, inl, inr, Option, none, some, Result, ok, err, Error, ads_error,
  Result-cases,
}
use pyads_agile.Python.Exec.{◌>>=◌, pure, raise, >>=-ok, >>=-err}
use pyads_agile.Connection.Lifecycle.{
  Router, Link, on_router, set_port, set_open, set_net_id, find_net_id, after_route, add_route,
  open_found, open_closed, unless, open_connection, del_route, close_port, close_opened,
  close_connection,
}

-- Which ports of a router are open, and how the calls change it: a port that is opened was not open
-- before, a port that is open is closed without an error, adding a route fails with an ADSError only, and
-- nothing else opens or closes a port.
pub record PortLaw {D : Type 0} (calls : Router D) : Type 0 where
  pub has_port : D → ℕ → Bool
  pub opened :
      (d : D) {p : ℕ}
      → (calls.open_port d).0 ≡ ok p
      → (has_port d p ≡ false)
        × ((q : ℕ) → has_port (calls.open_port d).1 q ≡ (p == q || has_port d q))
  pub not_opened :
      (d : D) {x : Error}
      → (calls.open_port d).0 ≡ err x
      → (q : ℕ) → has_port (calls.open_port d).1 q ≡ has_port d q
  pub closes :
      (p : ℕ) (d : D)
      → has_port d p ≡ true
      → ((calls.close_port p d).0 ≡ ok tt)
        × ((q : ℕ) → has_port (calls.close_port p d).1 q ≡ (not (p == q) && has_port d q))
  pub add_keeps : (d : D) (q : ℕ) → has_port (calls.add_route d).1 q ≡ has_port d q
  pub add_fails : (d : D) {x : Error} → (calls.add_route d).0 ≡ err x → (n : ℕ) × (x ≡ ads_error n)
  pub del_keeps : (d : D) (q : ℕ) → has_port (calls.del_route d).1 q ≡ has_port d q
  pub find_keeps : (d : D) (q : ℕ) → has_port (calls.net_id_for_plc d).1 q ≡ has_port d q

module _ (linux : Bool) {D : Type 0} (calls : Router D) (law : PortLaw calls) where
  -- The router has the ports of others.
  abbrev pub HoldsOthers : (ℕ → Bool) → D → Type 0
  HoldsOthers others d = (q : ℕ) → law.has_port d q ≡ others q

  -- The router has the ports of others, and one more.
  abbrev pub Holds : (ℕ → Bool) → ℕ → D → Type 0
  Holds others p d = (others p ≡ false) × ((q : ℕ) → law.has_port d q ≡ (p == q || others q))

  -- An open connection has a port, which the router has open beside the ports of others; a closed one has
  -- none, and the router has the ports of others only.
  unfoldable pub IsBalanced : (ℕ → Bool) → Link D → Type 0
  IsBalanced others s =
      ((s.is_open ≡ true) × ((p : ℕ) × (s.port ≡ some p) × Holds others p s.router))
      ⊎ ((s.is_open ≡ false) × (s.port ≡ none) × HoldsOthers others s.router)

  closes-Holds :
      (others : ℕ → Bool) (p : ℕ) (d : D)
      → Holds others p d
      → ((calls.close_port p d).0 ≡ ok tt) × HoldsOthers others (calls.close_port p d).1
  closes-Holds others p d (free, all) =
      let has = all p ∙ ap (λ b. b || others p) (eq→== p p refl) in
      let (a, b) = law.closes p d has in
      (a, λ q. b q ∙ ap (λ c. not (p == q) && c) (all q) ∙ left_over q free)
    where
      left_over : (q : ℕ) → others p ≡ false → (not (p == q) && (p == q || others q)) ≡ others q
      left_over q free = elim (Bool-cases (p == q)) [
        | inl same ↦ rw same (sym free ∙ ap others (==→eq p q same))
        | inr other ↦ rw other refl
      ]

  kept-Holds :
      (others : ℕ → Bool) (p : ℕ) (d d' : D)
      → ((q : ℕ) → law.has_port d' q ≡ law.has_port d q)
      → Holds others p d
      → Holds others p d'
  kept-Holds others p d d' same (free, all) = (free, λ q. same q ∙ all q)

  same_port :
      (others : ℕ → Bool) (q p : ℕ) (d : D) → some q ≡ some p → Holds others p d → Holds others q d
  same_port others q p d e h = let f : p ≡ q = cc in subst (λ k. Holds others k d) f h

  close_rest-IsBalanced :
      (o : Option ℕ) (others : ℕ → Bool) (s : Link D) (p : ℕ)
      → o ≡ some p
      → Holds others p s.router
      → IsBalanced others ((close_port linux calls o >>= λ _. set_open false) s).1
  unfolding IsBalanced close_port
  close_rest-IsBalanced none others s p e c = cc
  close_rest-IsBalanced (some q) others s p e c =
      let (a, b) = closes-Holds others q s.router (same_port others q p s.router e c) in
      let closing = on_router (calls.close_port q) in
      let t = record s { router = (calls.close_port q s.router).1; port = none } in
      let inner : (closing >>= λ _. set_port none) s ≡ (ok tt, t) =
        >>=-ok closing (λ _. set_port none) s a in
      let ends =
        >>=-ok (closing >>= λ _. set_port none) (λ _. set_open false) s (ap (λ r. r.0) inner)
        ∙ ap (λ r. set_open false r.1) inner in
      subst (λ r. IsBalanced others r.1) (sym ends) (inr (refl, refl, b))

  close_opened-IsBalanced :
      (b : Bool) (others : ℕ → Bool) (s : Link D) (p : ℕ)
      → s.is_open ≡ true
      → s.port ≡ some p
      → Holds others p s.router
      → IsBalanced others
          ((del_route linux calls b >>= λ _. close_port linux calls s.port >>= λ _. set_open false)
            s).1
  unfolding IsBalanced del_route
  close_opened-IsBalanced false others s p o e c =
      let rest = λ (u : Unit {0}). close_port linux calls s.port >>= λ _. set_open false in
      subst (λ r. IsBalanced others r.1) (sym (>>=-ok (del_route linux calls false) rest s refl))
        (close_rest-IsBalanced s.port others s p e c)
  close_opened-IsBalanced true others s p o e c =
      let rest = λ (u : Unit {0}). close_port linux calls s.port >>= λ _. set_open false in
      let t = record s { router = (calls.del_route s.router).1 } in
      let kept =
        kept-Holds others p s.router (calls.del_route s.router).1 (law.del_keeps s.router) c in
      elim (Result-cases (calls.del_route s.router).0) [
        | inl (u, f) ↦
            subst (λ r. IsBalanced others r.1) (sym (>>=-ok (del_route linux calls true) rest s f))
              (close_rest-IsBalanced s.port others t p e kept)
        | inr (x, f) ↦
            subst (λ r. IsBalanced others r.1) (sym (>>=-err (del_route linux calls true) rest s f))
              (inl (o, (p, e, kept)))
      ]

  after_route-IsBalanced :
      (r : Result (Unit {0})) (p : ℕ) (others : ℕ → Bool) (u : Link D)
      → ((x : Error) → r ≡ err x → (m : ℕ) × (x ≡ ads_error m))
      → u.is_open ≡ false
      → u.port ≡ some p
      → Holds others p u.router
      → IsBalanced others ((after_route linux calls p r >>= λ _. set_open true) u).1
  unfolding IsBalanced after_route pure raise
  after_route-IsBalanced (ok v) p others u only o e c =
      subst (λ r. IsBalanced others r.1) (sym (>>=-ok (pure tt) (λ _. set_open true) u refl))
        (inl (refl, (p, e, c)))
  after_route-IsBalanced (err x) p others u only o e c =
      let (m, same) = only x refl in
      subst
        (λ y. IsBalanced others ((after_route linux calls p (err y) >>= λ _. set_open true) u).1)
        (sym same)
        (let (a, b) = closes-Holds others p u.router c in
          let closing = on_router (calls.close_port p) in
          let t = record u { router = (calls.close_port p u.router).1; port = none } in
          let inner : after_route linux calls p (err (ads_error m)) u ≡ (err (ads_error m), t) =
            >>=-ok closing (λ _. set_port none >>= λ _. raise (ads_error m)) u a
            ∙ >>=-ok (set_port none) (λ _. raise (ads_error m))
                (record u { router = (calls.close_port p u.router).1 }) refl in
          let ends =
            >>=-err (after_route linux calls p (err (ads_error m))) (λ _. set_open true) u
              (ap (λ r. r.0) inner) in
          subst (λ r. IsBalanced others r.1) (sym (ends ∙ ap (λ r. (err (ads_error m), r.1)) inner))
            (inr (o, refl, b)))

  add_route-IsBalanced :
      (b : Bool) (p : ℕ) (others : ℕ → Bool) (u : Link D)
      → u.is_open ≡ false
      → u.port ≡ some p
      → Holds others p u.router
      → IsBalanced others ((add_route linux calls b p >>= λ _. set_open true) u).1
  unfolding add_route IsBalanced ◌>>=◌
  add_route-IsBalanced false p others u o e c = inl (refl, (p, e, c))
  add_route-IsBalanced true p others u o e c =
      after_route-IsBalanced (calls.add_route u.router).0 p others
        (record u { router = (calls.add_route u.router).1 }) (λ x f. law.add_fails u.router f) o e
        (kept-Holds others p u.router (calls.add_route u.router).1 (law.add_keeps u.router) c)

  opens-Holds :
      (others : ℕ → Bool) (p : ℕ) (d : D)
      → (calls.open_port d).0 ≡ ok p
      → HoldsOthers others d
      → Holds others p (calls.open_port d).1
  opens-Holds others p d f c =
      let (free, all) = law.opened d f in
      (sym (c p) ∙ free, λ q. all q ∙ ap (λ b. p == q || b) (c q))

  opened-IsBalanced :
      (others : ℕ → Bool) (t : Link D)
      → t.is_open ≡ false
      → t.port ≡ none
      → HoldsOthers others t.router
      → IsBalanced others (open_found linux calls t).1
  unfolding IsBalanced open_found
  opened-IsBalanced others t o e c =
      let rest = λ (port : ℕ).
        set_port (some port) >>= λ _. add_route linux calls linux port >>= λ _. set_open true in
      let u = record t { router = (calls.open_port t.router).1 } in
      elim (Result-cases (calls.open_port t.router).0) [
        | inl (p, f) ↦
            subst (λ r. IsBalanced others r.1)
              (sym (
                >>=-ok (on_router calls.open_port) rest t f
                ∙ >>=-ok (set_port (some p))
                    (λ _. add_route linux calls linux p >>= λ _. set_open true) u refl))
              (add_route-IsBalanced linux p others (record u { port = some p }) o refl
                (opens-Holds others p t.router f c))
        | inr (x, f) ↦
            subst (λ r. IsBalanced others r.1) (sym (>>=-err (on_router calls.open_port) rest t f))
              (inr (o, e, (λ q. law.not_opened t.router f q ∙ c q)))
      ]

  open_closed-IsBalanced :
      (o : Option ℕ) (others : ℕ → Bool) (s : Link D)
      → s.is_open ≡ false
      → s.port ≡ none
      → HoldsOthers others s.router
      → IsBalanced others ((find_net_id linux calls o >>= λ _. open_found linux calls) s).1
  unfolding IsBalanced find_net_id pure
  open_closed-IsBalanced (some m) others s o e c =
      subst (λ r. IsBalanced others r.1)
        (sym (>>=-ok (pure tt) (λ _. open_found linux calls) s refl))
        (opened-IsBalanced others s o e c)
  open_closed-IsBalanced none others s o e c =
      let t = record s { router = (calls.net_id_for_plc s.router).1 } in
      let kept = λ (q : ℕ). law.find_keeps s.router q ∙ c q in
      elim (Result-cases (calls.net_id_for_plc s.router).0) [
        | inl (m, f) ↦
            subst (λ r. IsBalanced others r.1)
              (sym (
                >>=-ok (on_router calls.net_id_for_plc >>= set_net_id) (λ _. open_found linux calls)
                  s (ap (λ r. r.0) (>>=-ok (on_router calls.net_id_for_plc) set_net_id s f))
                ∙ ap (λ r. open_found linux calls r.1)
                    (>>=-ok (on_router calls.net_id_for_plc) set_net_id s f)))
              (opened-IsBalanced others (record t { net_id = some m }) o e kept)
        | inr (x, f) ↦
            let inner = >>=-err (on_router calls.net_id_for_plc) set_net_id s f in
            subst (λ r. IsBalanced others r.1)
              (sym (
                >>=-err (on_router calls.net_id_for_plc >>= set_net_id)
                  (λ _. open_found linux calls) s (ap (λ r. r.0) inner)
                ∙ ap (λ r. (err x, r.1)) inner))
              (inr (o, e, kept))
      ]

  unless_open-IsBalanced :
      (b : Bool) (others : ℕ → Bool) (s : Link D)
      → s.is_open ≡ b
      → IsBalanced others s
      → IsBalanced others (unless linux calls b (open_closed linux calls) s).1
  unfolding open_closed IsBalanced
  unless_open-IsBalanced true others s at balanced = balanced
  unless_open-IsBalanced false others s at (inl (o, _)) = cc
  unless_open-IsBalanced false others s at (inr (o, e, c)) =
      open_closed-IsBalanced s.net_id others s o e c

  if_open-IsBalanced :
      (b : Bool) (others : ℕ → Bool) (s : Link D)
      → s.is_open ≡ b
      → IsBalanced others s
      → IsBalanced others (if b then close_opened linux calls s else (ok tt, s)).1
  unfolding close_opened IsBalanced
  if_open-IsBalanced false others s at balanced = balanced
  if_open-IsBalanced true others s at (inl (o, (p, e, c))) =
      close_opened-IsBalanced linux others s p o e c
  if_open-IsBalanced true others s at (inr (o, _, _)) = cc

  -- Where the router answers as `PortLaw` says, a call of `open` or of `close` keeps a connection balanced,
  -- also one that raises: an open connection has a port, which the router has open beside the ports of
  -- others; a closed connection has no port, and the router has the ports of others only.
  pub open_close-IsBalanced :
      (others : ℕ → Bool) (s : Link D)
      → IsBalanced others s
      → IsBalanced others (open_connection linux calls s).1
        × IsBalanced others (close_connection linux calls s).1
  unfolding open_connection close_connection
  open_close-IsBalanced others s balanced = (
    unless_open-IsBalanced s.is_open others s refl balanced,
    if_open-IsBalanced s.is_open others s refl balanced,
  )
