-- ===== src/Async/Queue/Stranded.antt =====
-- What happens to a call that is put behind the shutdown signal.
use pyads_agile.Prelude.{
  ◌≤◌, length, length-append, ℕ, zero, suc, ◌+◌, ◌≡◌, refl, sym, subst, List, [], ◌∷◌, ◌++◌, Result,
  inl, inr, arith, ◌⊎◌,
}
use pyads_agile.Python.Exec.{Exec}
use pyads_agile.Async.Queue.{
  resolved, call, shutdown, Worker, idle, stopped, running, State, new_connection, Event, run,
}
use pyads_agile.Async.Queue.Effects.{
  Effect, flagged_closed, marked, queued, signalled, ended, skipped, started, finished, delivered,
  dropped, revoked, run-append, run-keeps,
}
use pyads_agile.Async.Queue.Order.{
  upto, queue_ids, worker_ids, IsOrdered, run-IsOrdered, queue_ids-append,
}
use pyads_agile.Async.Queue.Serial.{IsLogged, IsSerial, run-IsSerial}

-- a number that stands in a list
abbrev pub IsIn : ℕ → List ℕ → Type 0
IsIn i [] = ⊥
IsIn i (x ∷ xs) = (i ≡ x) ⊎ IsIn i xs

-- every logged outcome is one of a handled call
record IsHandledLog {S V : Type 0} (s : State S V) : Type 0 where
  handled : (i : ℕ) (r : Result V) → IsLogged i r s.outcomes → IsIn i s.handled

-- the call waits behind a worker that has returned
record IsStranded {S V : Type 0} (i : ℕ) (s : State S V) : Type 0 where
  worker : s.worker ≡ stopped
  queued : IsIn i (queue_ids s.queue)

IsIn-left : (i : ℕ) (xs ys : List ℕ) → IsIn i xs → IsIn i (xs ++ ys)
IsIn-left i [] ys h = absurd h
IsIn-left i (x ∷ xs) ys (inl e) = inl e
IsIn-left i (x ∷ xs) ys (inr h) = inr (IsIn-left i xs ys h)

IsIn-right : (i : ℕ) (xs ys : List ℕ) → IsIn i ys → IsIn i (xs ++ ys)
IsIn-right i [] ys h = h
IsIn-right i (x ∷ xs) ys h = inr (IsIn-right i xs ys h)

IsIn-split : (i : ℕ) (xs ys : List ℕ) → IsIn i (xs ++ ys) → IsIn i xs ⊎ IsIn i ys
IsIn-split i [] ys h = inr h
IsIn-split i (x ∷ xs) ys (inl e) = inl (inl e)
IsIn-split i (x ∷ xs) ys (inr h) = elim (IsIn-split i xs ys h) [
  | inl a ↦ inl (inr a)
  | inr b ↦ inr b
]

-- the numbers ascend from this one
IsFrom : ℕ → List ℕ → Type 0
IsFrom k [] = Unit {0}
IsFrom k (x ∷ xs) = (x ≡ k) × IsFrom (suc k) xs

IsFrom-snoc : (k : ℕ) (xs : List ℕ) → IsFrom k xs → IsFrom k (xs ++ (k + length xs) ∷ [])
unfolding IsFrom
IsFrom-snoc k [] h = (omega arith, tt)
IsFrom-snoc k (x ∷ xs) h =
    (h.0, subst (λ m. IsFrom (suc k) (xs ++ m ∷ [])) (omega arith) (IsFrom-snoc (suc k) xs h.1))

length-upto : (n : ℕ) → length (upto n) ≡ n
length-upto zero = refl
length-upto (suc n) = rw (length-append (upto n) (n ∷ []), length-upto n) (omega arith)

upto-IsFrom : (n : ℕ) → IsFrom 0 (upto n)
unfolding IsFrom
upto-IsFrom zero = tt
upto-IsFrom (suc n) =
    subst (λ m. IsFrom 0 (upto n ++ m ∷ [])) (omega (arith, length-upto n))
      (IsFrom-snoc 0 (upto n) (upto-IsFrom n))

IsFrom-least : (k i : ℕ) (xs : List ℕ) → IsFrom k xs → IsIn i xs → k ≤ i
unfolding IsFrom
IsFrom-least k i [] h p = absurd p
IsFrom-least k i (x ∷ xs) h (inl e) = let f = h.0 in omega arith
IsFrom-least k i (x ∷ xs) h (inr p) = let f = IsFrom-least (suc k) i xs h.1 p in omega arith

-- ascending numbers do not repeat
IsFrom-once : (k i : ℕ) (xs ys : List ℕ) → IsFrom k (xs ++ ys) → IsIn i xs → IsIn i ys → ⊥
unfolding IsFrom
IsFrom-once k i [] ys h p q = p
IsFrom-once k i (x ∷ xs) ys h (inl e) q =
    let f = h.0 in
    let g = IsFrom-least (suc k) i (xs ++ ys) h.1 (IsIn-right i xs ys q) in omega arith
IsFrom-once k i (x ∷ xs) ys h (inr p) q = IsFrom-once (suc k) i xs ys h.1 p q

module _ {V : Type 0} where
  IsLogged-split :
      (i : ℕ) (r : Result V) (os : List (ℕ × Result V)) (j : ℕ) (q : Result V)
      → IsLogged i r (os ++ (j, q) ∷ [])
      → IsLogged i r os ⊎ (i ≡ j)
  IsLogged-split i r [] j q (inl e) = inr e.0
  IsLogged-split i r [] j q (inr h) = absurd h
  IsLogged-split i r (o ∷ os) j q (inl e) = inl (inl e)
  IsLogged-split i r (o ∷ os) j q (inr h) = elim (IsLogged-split i r os j q h) [
    | inl a ↦ inl (inr a)
    | inr b ↦ inr b
  ]

module _ {S V : Type 0} where
  Effect-IsHandledLog : (s t : State S V) → Effect s t → IsHandledLog s → IsHandledLog t
  Effect-IsHandledLog s _ (flagged_closed e) h = record { handled = h.handled }
  Effect-IsHandledLog s _ (marked es g p) h = record { handled = h.handled }
  Effect-IsHandledLog s _ (queued fn es g p) h = record { handled = h.handled }
  Effect-IsHandledLog s _ (signalled i e) h = record { handled = h.handled }
  Effect-IsHandledLog s _ (ended rest e f) h = record { handled = h.handled }
  Effect-IsHandledLog s _ (skipped i fn rest e f gone) h = record {
    handled = λ j r l. IsIn-left j s.handled (i ∷ []) (h.handled j r l);
  }
  Effect-IsHandledLog s _ (started i fn rest e f) h = record { handled = h.handled }
  Effect-IsHandledLog s _ (finished i fn e) h = record {
    handled = λ j r l. elim (IsLogged-split j r s.outcomes i (fn s.sync).0 l) [
      | inl a ↦ IsIn-left j s.handled (i ∷ []) (h.handled j r a)
      | inr b ↦ IsIn-right j s.handled (i ∷ []) (inl b)
    ];
  }
  Effect-IsHandledLog s _ (delivered i r rest e p) h = record { handled = h.handled }
  Effect-IsHandledLog s _ (dropped i r rest e p) h = record { handled = h.handled }
  Effect-IsHandledLog s _ (revoked i l p) h = record { handled = h.handled }

  run-IsHandledLog :
      (close : Exec S V) (es : List (Event S V)) (sync : S)
      → IsHandledLog (run close es (new_connection sync))
  run-IsHandledLog close es sync =
      run-keeps close IsHandledLog Effect-IsHandledLog es (new_connection sync)
        (unfold new_connection in record { handled = λ i r l. absurd l })

  stopped_not_idle : {w : Worker S V} → w ≡ stopped → w ≡ idle → ⊥
  stopped_not_idle p q = cc

  stopped_not_running :
      {w : Worker S V} {i : ℕ} {fn : Exec S V} → w ≡ stopped → w ≡ running i fn → ⊥
  stopped_not_running p q = cc

  Effect-IsStranded : (i : ℕ) (s t : State S V) → Effect s t → IsStranded i s → IsStranded i t
  Effect-IsStranded i s _ (flagged_closed e) h = record { worker = h.worker; queued = h.queued }
  Effect-IsStranded i s _ (marked es g p) h = record { worker = h.worker; queued = h.queued }
  Effect-IsStranded i s _ (queued fn es g p) h = record {
    worker = h.worker;
    queued =
        rw (queue_ids-append s.queue (call s.next fn ∷ []))
          (IsIn-left i (queue_ids s.queue) (s.next ∷ []) h.queued);
  }
  Effect-IsStranded i s _ (signalled j e) h = record {
    worker = h.worker;
    queued =
        rw (queue_ids-append s.queue (shutdown ∷ [])) (IsIn-left i (queue_ids s.queue) [] h.queued);
  }
  Effect-IsStranded i s _ (ended rest e f) h = absurd (stopped_not_idle h.worker e)
  Effect-IsStranded i s _ (skipped j fn rest e f gone) h = absurd (stopped_not_idle h.worker e)
  Effect-IsStranded i s _ (started j fn rest e f) h = absurd (stopped_not_idle h.worker e)
  Effect-IsStranded i s _ (finished j fn e) h = absurd (stopped_not_running h.worker e)
  Effect-IsStranded i s _ (delivered j r rest e p) h = record {
    worker = h.worker;
    queued = h.queued;
  }
  Effect-IsStranded i s _ (dropped j r rest e p) h = record { worker = h.worker; queued = h.queued }
  Effect-IsStranded i s _ (revoked j l p) h = record { worker = h.worker; queued = h.queued }

  handled-queued :
      (s : State S V) (i : ℕ) → IsOrdered s → IsIn i s.handled → IsIn i (queue_ids s.queue) → ⊥
  handled-queued s i o p q =
      IsFrom-once 0 i s.handled (worker_ids s.worker ++ queue_ids s.queue)
        (subst (IsFrom 0) (sym o) (upto-IsFrom s.next)) p
        (IsIn-right i (worker_ids s.worker) (queue_ids s.queue) q)

  -- From a new connection, in whatever order the threads have taken their steps: once the worker has
  -- returned, the future of a call that is still queued never gets a result nor an exception,
  -- whatever happens next.
  pub run-futures-stranded :
      (close : Exec S V) (es more : List (Event S V)) (sync : S) (i : ℕ) (r : Result V)
      → (run close es (new_connection sync)).worker ≡ stopped
      → IsIn i (queue_ids (run close es (new_connection sync)).queue)
      → ¬ (run close more (run close es (new_connection sync))).futures i ≡ resolved r
  run-futures-stranded close es more sync i r e q f =
      let start = new_connection sync in
      let s = run close es start in
      let t = run close more s in
      let same = run-append close es more start in
      let h =
        run-keeps close (IsStranded i) (Effect-IsStranded i) more s
          (record { worker = e; queued = q }) in
      let serial = subst (IsSerial sync) same (run-IsSerial sync close (es ++ more)) in
      let log = subst IsHandledLog same (run-IsHandledLog close (es ++ more) sync) in
      handled-queued t i (subst IsOrdered same (run-IsOrdered close (es ++ more) sync))
        (log.handled i r (serial.futures i r f)) h.queued
