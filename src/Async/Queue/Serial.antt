-- ===== src/Async/Queue/Serial.antt =====
-- The connection behind the worker sees the calls one after the other, as if the worker's log were a
-- program of its own, and a future is only ever set to what its call returned or raised there.
use pyads_agile.Prelude.{
  ℕ, ◌≡◌, refl, sym, ap, subst, ==→eq, List, [], ◌∷◌, ◌++◌, Result, ◌==◌, Bool-cases, inl, inr, All,
  All-append, ◌⊎◌,
}
use pyads_agile.Python.Exec.{Exec}
use pyads_agile.Async.Queue.{
  update, Future, pending, cancelled, resolved, idle, State, new_connection, Event, run,
}
use pyads_agile.Async.Queue.Effects.{
  Effect, flagged_closed, marked, queued, signalled, ended, skipped, started, finished, delivered,
  dropped, revoked, run-keeps,
}

-- The calls of a log made one after the other on a connection: what each returned or raised, and the
-- connection afterwards.
abbrev pub replay : {S V : Type 0} → List (ℕ × Exec S V) → S → List (ℕ × Result V) × S
replay [] s = ([], s)
replay ((i, fn) ∷ ps) s = ((i, (fn s).0) ∷ (replay ps (fn s).1).0, (replay ps (fn s).1).1)

-- The log has this outcome for this call.
abbrev pub IsLogged : {V : Type 0} → ℕ → Result V → List (ℕ × Result V) → Type 0
IsLogged i r [] = ⊥
IsLogged i r ((j, q) ∷ os) = ((i ≡ j) × (r ≡ q)) ⊎ IsLogged i r os

pub record IsSerial {S V : Type 0} (start : S) (s : State S V) : Type 0 where
  pub outcomes : s.outcomes ≡ (replay s.performed start).0
  pub sync : s.sync ≡ (replay s.performed start).1
  pub posted : All (λ p. IsLogged p.0 p.1 s.outcomes) s.posted
  pub futures : (i : ℕ) (r : Result V) → s.futures i ≡ resolved r → IsLogged i r s.outcomes

pending_not : {V : Type 0} {r : Result V} → pending ≡ resolved r → ⊥
pending_not e = cc

cancelled_not : {V : Type 0} {r : Result V} → cancelled ≡ resolved r → ⊥
cancelled_not e = cc

resolved_inj : {V : Type 0} {q r : Result V} → resolved q ≡ resolved r → q ≡ r
resolved_inj e = cc

module _ {V : Type 0} where
  IsLogged-append_left :
      (i : ℕ) (r : Result V) (os more : List (ℕ × Result V))
      → IsLogged i r os
      → IsLogged i r (os ++ more)
  IsLogged-append_left i r [] more h = absurd h
  IsLogged-append_left i r (o ∷ os) more (inl e) = inl e
  IsLogged-append_left i r (o ∷ os) more (inr h) = inr (IsLogged-append_left i r os more h)

  IsLogged-last :
      (i : ℕ) (r : Result V) (os : List (ℕ × Result V)) → IsLogged i r (os ++ (i, r) ∷ [])
  IsLogged-last i r [] = inl (refl, refl)
  IsLogged-last i r (o ∷ os) = inr (IsLogged-last i r os)

  grow :
      (ps os more : List (ℕ × Result V))
      → All (λ p. IsLogged p.0 p.1 os) ps
      → All (λ p. IsLogged p.0 p.1 (os ++ more)) ps
  grow [] os more h = tt
  grow ((i, r) ∷ ps) os more h = (IsLogged-append_left i r os more h.0, grow ps os more h.1)

module _ {S V : Type 0} where
  replay-snoc :
      (ps : List (ℕ × Exec S V)) (i : ℕ) (fn : Exec S V) (s : S)
      → ((replay (ps ++ (i, fn) ∷ []) s).0 ≡ (replay ps s).0 ++ (i, (fn (replay ps s).1).0) ∷ [])
        × ((replay (ps ++ (i, fn) ∷ []) s).1 ≡ (fn (replay ps s).1).1)
  replay-snoc [] i fn s = (refl, refl)
  replay-snoc ((j, g) ∷ ps) i fn s =
      let (a, b) = replay-snoc ps i fn (g s).1 in (ap (λ t. (j, (g s).0) ∷ t) a, b)

  module _ (start : S) where
    finished-IsSerial :
        (s : State S V) (i : ℕ) (fn : Exec S V)
        → IsSerial start s
        → IsSerial start (record s {
          sync = (fn s.sync).1;
          worker = idle;
          posted = s.posted ++ (i, (fn s.sync).0) ∷ [];
          handled = s.handled ++ i ∷ [];
          performed = s.performed ++ (i, fn) ∷ [];
          outcomes = s.outcomes ++ (i, (fn s.sync).0) ∷ [];
        })
    finished-IsSerial s i fn h =
        let (a, b) = replay-snoc s.performed i fn start in
        let r = (fn s.sync).0 in
        record {
          outcomes = rw (h.outcomes, h.sync) (sym a);
          sync = rw h.sync (sym b);
          posted =
              All-append (λ p. IsLogged p.0 p.1 (s.outcomes ++ (i, r) ∷ [])) s.posted ((i, r) ∷ [])
                (grow s.posted s.outcomes ((i, r) ∷ []) h.posted)
                (IsLogged-last i r s.outcomes, tt);
          futures = λ j q e. IsLogged-append_left j q s.outcomes ((i, r) ∷ []) (h.futures j q e);
        }

    -- what a cancellation or a delivery leaves of the futures
    updated :
        (futures : ℕ → Future V) (os : List (ℕ × Result V)) (i : ℕ) (f : Future V)
        → ((j : ℕ) (r : Result V) → futures j ≡ resolved r → IsLogged j r os)
        → ((r : Result V) → f ≡ resolved r → IsLogged i r os)
        → (j : ℕ) (r : Result V) → update i f futures j ≡ resolved r
        → IsLogged j r os
    updated futures os i f old new j r e = elim (Bool-cases (i == j)) [
      | inl same ↦ rw (← ==→eq i j same) (new r (rw same at e))
      | inr other ↦ old j r (rw other at e)
    ]

    Effect-IsSerial : (s t : State S V) → Effect s t → IsSerial start s → IsSerial start t
    Effect-IsSerial s _ (flagged_closed e) h = record {
      outcomes = h.outcomes;
      sync = h.sync;
      posted = h.posted;
      futures = h.futures;
    }
    Effect-IsSerial s _ (marked es g p) h = record {
      outcomes = h.outcomes;
      sync = h.sync;
      posted = h.posted;
      futures = h.futures;
    }
    Effect-IsSerial s _ (queued fn es g p) h = record {
      outcomes = h.outcomes;
      sync = h.sync;
      posted = h.posted;
      futures = h.futures;
    }
    Effect-IsSerial s _ (signalled i e) h = record {
      outcomes = h.outcomes;
      sync = h.sync;
      posted = h.posted;
      futures = h.futures;
    }
    Effect-IsSerial s _ (ended rest e f) h = record {
      outcomes = h.outcomes;
      sync = h.sync;
      posted = h.posted;
      futures = h.futures;
    }
    Effect-IsSerial s _ (skipped i fn rest e f gone) h = record {
      outcomes = h.outcomes;
      sync = h.sync;
      posted = h.posted;
      futures = h.futures;
    }
    Effect-IsSerial s _ (started i fn rest e f) h = record {
      outcomes = h.outcomes;
      sync = h.sync;
      posted = h.posted;
      futures = h.futures;
    }
    Effect-IsSerial s _ (finished i fn e) h = finished-IsSerial s i fn h
    Effect-IsSerial s _ (delivered i r rest e p) h =
        let logged = subst (All (λ p. IsLogged p.0 p.1 s.outcomes)) e h.posted in
        record {
          outcomes = h.outcomes;
          sync = h.sync;
          posted = logged.1;
          futures =
              updated s.futures s.outcomes i (resolved r) h.futures
                (λ q e. subst (λ q. IsLogged i q s.outcomes) (resolved_inj e) logged.0);
        }
    Effect-IsSerial s _ (dropped i r rest e p) h =
        let logged = subst (All (λ p. IsLogged p.0 p.1 s.outcomes)) e h.posted in
        record { outcomes = h.outcomes; sync = h.sync; posted = logged.1; futures = h.futures }
    Effect-IsSerial s _ (revoked i l p) h = record {
      outcomes = h.outcomes;
      sync = h.sync;
      posted = h.posted;
      futures =
          updated s.futures s.outcomes i cancelled h.futures (λ q e. absurd (cancelled_not e));
    }

    -- From a new connection, in whatever order the threads take their steps: the outcomes that the worker
    -- has and the synchronous connection are those of a program that makes the performed calls one
    -- after the other, every outcome that waits for the event loop is one of them, and so is every
    -- outcome that a future was set to, for the call of that future.
    pub run-IsSerial :
        (close : Exec S V) (es : List (Event S V))
        → IsSerial start (run close es (new_connection start))
    unfolding new_connection
    run-IsSerial close es =
        run-keeps close (IsSerial start) Effect-IsSerial es (new_connection start) (record {
          outcomes = refl;
          sync = refl;
          posted = tt;
          futures = λ i r e. absurd (pending_not e);
        })
