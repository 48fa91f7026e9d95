-- ===== src/Async/Queue/Futures.antt =====
-- A future is set at most once, and every call that the worker is done with has its future done or
-- its outcome on the way to the event loop.
use pyads_agile.Prelude.{
  ℕ, ◌≡◌, refl, sym, ap, subst, ==→eq, eq→==, ◌∙◌, List, [], ◌∷◌, ◌++◌, Bool, true, false, Result,
  ◌==◌, Bool-cases, inl, inr, All, All-append, ◌⊎◌,
}
use pyads_agile.Python.Exec.{Exec}
use pyads_agile.Async.Queue.{
  update, Future, pending, cancelled, resolved, is_pending, is_cancelled, State, new_connection,
  Event, run,
}
use pyads_agile.Async.Queue.Effects.{
  Effect, flagged_closed, marked, queued, signalled, ended, skipped, started, finished, delivered,
  dropped, revoked, run-keeps,
}

-- The outcome of this call waits for the event loop.
abbrev pub IsPosted : {V : Type 0} → ℕ → List (ℕ × Result V) → Type 0
IsPosted i [] = ⊥
IsPosted i ((j, r) ∷ ps) = (i ≡ j) ⊎ IsPosted i ps

-- The future is done, or its outcome waits for the event loop.
abbrev pub IsServed : {S V : Type 0} → State S V → ℕ → Type 0
IsServed s i = (is_pending (s.futures i) ≡ false) ⊎ IsPosted i s.posted

abbrev pub AllServed : {S V : Type 0} → State S V → Type 0
AllServed s = All (IsServed s) s.handled

not_both : {b : Bool} → b ≡ true → b ≡ false → ⊥
not_both p q = cc

cancelled-is_pending : {V : Type 0} (f : Future V) → is_cancelled f ≡ true → is_pending f ≡ false
cancelled-is_pending pending e = cc
cancelled-is_pending cancelled e = refl
cancelled-is_pending (resolved r) e = refl

All-weaken :
    {A : Type 0} (P Q : A → Type 0) (xs : List A) → ((x : A) → P x → Q x) → All P xs → All Q xs
All-weaken P Q [] f h = tt
All-weaken P Q (x ∷ xs) f h = (f x h.0, All-weaken P Q xs f h.1)

module _ {V : Type 0} where
  IsPosted-append_left :
      (i : ℕ) (ps more : List (ℕ × Result V)) → IsPosted i ps → IsPosted i (ps ++ more)
  IsPosted-append_left i [] more h = absurd h
  IsPosted-append_left i (p ∷ ps) more (inl e) = inl e
  IsPosted-append_left i (p ∷ ps) more (inr h) = inr (IsPosted-append_left i ps more h)

  IsPosted-last : (i : ℕ) (r : Result V) (ps : List (ℕ × Result V)) → IsPosted i (ps ++ (i, r) ∷ [])
  IsPosted-last i r [] = inl refl
  IsPosted-last i r (p ∷ ps) = inr (IsPosted-last i r ps)

  -- setting a future that was pending leaves the done ones as they are
  update-final :
      (futures : ℕ → Future V) (i j : ℕ) (f g : Future V)
      → is_pending (futures i) ≡ true
      → is_pending f ≡ false
      → futures j ≡ f
      → update i g futures j ≡ f
  update-final futures i j f g p q e = elim (Bool-cases (i == j)) [
    | inl same ↦ absurd (not_both p (rw (==→eq i j same) (ap is_pending e ∙ q)))
    | inr other ↦ rw other e
  ]

  update-is_pending :
      (futures : ℕ → Future V) (i j : ℕ) (g : Future V)
      → is_pending g ≡ false
      → is_pending (futures j) ≡ false
      → is_pending (update i g futures j) ≡ false
  update-is_pending futures i j g p q = elim (Bool-cases (i == j)) [
    | inl same ↦ rw same p
    | inr other ↦ rw other q
  ]

  update-same : (futures : ℕ → Future V) (i j : ℕ) (g : Future V) → j ≡ i → update i g futures j ≡ g
  update-same futures i j g e = rw (e, eq→== i i refl) refl

module _ {S V : Type 0} where
  Effect-final :
      (i : ℕ) (f : Future V)
      → is_pending f ≡ false
      → (s t : State S V) → Effect s t
      → s.futures i ≡ f
      → t.futures i ≡ f
  Effect-final i f q s _ (flagged_closed e) h = h
  Effect-final i f q s _ (marked es g p) h = h
  Effect-final i f q s _ (queued fn es g p) h = h
  Effect-final i f q s _ (signalled j e) h = h
  Effect-final i f q s _ (ended rest e g) h = h
  Effect-final i f q s _ (skipped j fn rest e g gone) h = h
  Effect-final i f q s _ (started j fn rest e g) h = h
  Effect-final i f q s _ (finished j fn e) h = h
  Effect-final i f q s _ (delivered j r rest e p) h =
      update-final s.futures j i f (resolved r) p q h
  Effect-final i f q s _ (dropped j r rest e p) h = h
  Effect-final i f q s _ (revoked j l p) h = update-final s.futures j i f cancelled p q h

  -- A future that is done keeps what it was set to, or stays cancelled, whatever happens next.
  pub run-futures :
      (close : Exec S V) (es : List (Event S V)) (s : State S V) (i : ℕ)
      → is_pending (s.futures i) ≡ false
      → (run close es s).futures i ≡ s.futures i
  run-futures close es s i q =
      run-keeps close (λ t. t.futures i ≡ s.futures i) (Effect-final i (s.futures i) q) es s refl

  delivered-IsServed :
      (s : State S V) (i j : ℕ) (r : Result V) (rest : List (ℕ × Result V))
      → s.posted ≡ (i, r) ∷ rest
      → IsServed s j
      → (is_pending (update i (resolved r) s.futures j) ≡ false) ⊎ IsPosted j rest
  delivered-IsServed s i j r rest e (inl h) =
      inl (update-is_pending s.futures i j (resolved r) refl h)
  delivered-IsServed s i j r rest e (inr h) = elim (subst (IsPosted j) e h) [
    | inl same ↦ inl (ap is_pending (update-same s.futures i j (resolved r) same))
    | inr later ↦ inr later
  ]

  dropped-IsServed :
      (s : State S V) (i j : ℕ) (r : Result V) (rest : List (ℕ × Result V))
      → s.posted ≡ (i, r) ∷ rest
      → is_pending (s.futures i) ≡ false
      → IsServed s j
      → (is_pending (s.futures j) ≡ false) ⊎ IsPosted j rest
  dropped-IsServed s i j r rest e p (inl h) = inl h
  dropped-IsServed s i j r rest e p (inr h) = elim (subst (IsPosted j) e h) [
    | inl same ↦ inl (subst (λ k. is_pending (s.futures k) ≡ false) (sym same) p)
    | inr later ↦ inr later
  ]

  Effect-AllServed : (s t : State S V) → Effect s t → AllServed s → AllServed t
  Effect-AllServed s _ (flagged_closed e) h = h
  Effect-AllServed s _ (marked es g p) h = h
  Effect-AllServed s _ (queued fn es g p) h = h
  Effect-AllServed s _ (signalled i e) h = h
  Effect-AllServed s _ (ended rest e f) h = h
  Effect-AllServed s _ (skipped i fn rest e f gone) h =
      All-append (IsServed s) s.handled (i ∷ []) h
        (inl (cancelled-is_pending (s.futures i) gone), tt)
  Effect-AllServed s _ (started i fn rest e f) h = h
  Effect-AllServed s _ (finished i fn e) h =
      let r = (fn s.sync).0 in
      All-append (λ j. (is_pending (s.futures j) ≡ false) ⊎ IsPosted j (s.posted ++ (i, r) ∷ []))
        s.handled (i ∷ [])
        (All-weaken (IsServed s)
          (λ j. (is_pending (s.futures j) ≡ false) ⊎ IsPosted j (s.posted ++ (i, r) ∷ [])) s.handled
          (λ j g. elim g [
            | inl p ↦ inl p
            | inr p ↦ inr (IsPosted-append_left j s.posted ((i, r) ∷ []) p)
          ])
          h)
        (inr (IsPosted-last i r s.posted), tt)
  Effect-AllServed s _ (delivered i r rest e p) h =
      All-weaken (IsServed s)
        (λ j. (is_pending (update i (resolved r) s.futures j) ≡ false) ⊎ IsPosted j rest) s.handled
        (λ j. delivered-IsServed s i j r rest e) h
  Effect-AllServed s _ (dropped i r rest e p) h =
      All-weaken (IsServed s) (λ j. (is_pending (s.futures j) ≡ false) ⊎ IsPosted j rest) s.handled
        (λ j. dropped-IsServed s i j r rest e p) h
  Effect-AllServed s _ (revoked i l p) h =
      All-weaken (IsServed s)
        (λ j. (is_pending (update i cancelled s.futures j) ≡ false) ⊎ IsPosted j s.posted) s.handled
        (λ j g. elim g [
          | inl q ↦ inl (update-is_pending s.futures i j cancelled refl q)
          | inr q ↦ inr q
        ])
        h

  -- Every call that the worker is done with has its future done, or its outcome posted.
  pub run-AllServed :
      (close : Exec S V) (es : List (Event S V)) (sync : S)
      → AllServed (run close es (new_connection sync))
  run-AllServed close es sync =
      run-keeps close AllServed Effect-AllServed es (new_connection sync)
        (unfold new_connection in tt)
