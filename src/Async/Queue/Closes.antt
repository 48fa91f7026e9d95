-- ===== src/Async/Queue/Closes.antt =====
-- Until an `aclose` has put the shutdown signal, the worker lives and the queue holds calls only.
use pyads_agile.Prelude.{ℕ, ◌≡◌, refl, sym, subst, ◌∙◌, List, [], ◌∷◌, ◌++◌, Bool, true, false}
use pyads_agile.Python.Exec.{Exec}
use pyads_agile.Async.Queue.{
  Item, call, shutdown, Worker, idle, stopped, running, Closing, not_closing, failed, awaiting,
  State, new_connection, Event, run,
}
use pyads_agile.Async.Queue.Effects.{
  Effect, flagged_closed, marked, queued, signalled, ended, skipped, started, finished, delivered,
  dropped, revoked, run-keeps, is_ending,
}

abbrev pub AllCalls : {S V : Type 0} → List (Item S V) → Type 0
AllCalls [] = Unit {0}
AllCalls (call i fn ∷ q) = AllCalls q
AllCalls (shutdown ∷ q) = ⊥

abbrev pub IsAlive : {S V : Type 0} → Worker S V → Type 0
IsAlive idle = Unit {0}
IsAlive (running i fn) = Unit {0}
IsAlive stopped = ⊥

pub record IsOpen {S V : Type 0} (s : State S V) : Type 0 where
  pub unflagged : s.closed ≡ false → s.closing ≡ not_closing
  pub alive : is_ending s.closing ≡ false → IsAlive s.worker
  pub calls : is_ending s.closing ≡ false → AllCalls s.queue

true_not : {b : Bool} → b ≡ true → b ≡ false → ⊥
true_not p q = cc

awaiting_not : {c : Closing} {i : ℕ} → c ≡ awaiting i → c ≡ not_closing → ⊥
awaiting_not p q = cc

failed_not : {c : Closing} → c ≡ failed → c ≡ not_closing → ⊥
failed_not p q = cc

failed_not_awaiting : {c : Closing} {i : ℕ} → c ≡ failed → c ≡ awaiting i → ⊥
failed_not_awaiting p q = cc

module _ {S V : Type 0} where
  AllCalls-snoc :
      (q : List (Item S V)) (i : ℕ) (fn : Exec S V) → AllCalls q → AllCalls (q ++ call i fn ∷ [])
  AllCalls-snoc [] i fn h = tt
  AllCalls-snoc (call j g ∷ q) i fn h = AllCalls-snoc q i fn h
  AllCalls-snoc (shutdown ∷ q) i fn h = absurd h

  Effect-IsOpen : (s t : State S V) → Effect s t → IsOpen s → IsOpen t
  Effect-IsOpen s _ (flagged_closed e) h =
      let quiet = subst (λ c. is_ending c ≡ false) (sym (h.unflagged e)) refl in
      record { unflagged = λ f. cc; alive = λ g. h.alive quiet; calls = λ g. h.calls quiet }
  Effect-IsOpen s _ (marked es g p) h = record {
    unflagged = λ e. p.absence (h.unflagged e);
    alive = λ e. h.alive (sym p.ending ∙ e);
    calls = λ e. h.calls (sym p.ending ∙ e);
  }
  Effect-IsOpen s _ (queued fn es g p) h = record {
    unflagged = λ e. p.absence (h.unflagged e);
    alive = λ e. h.alive (sym p.ending ∙ e);
    calls = λ e. AllCalls-snoc s.queue s.next fn (h.calls (sym p.ending ∙ e));
  }
  Effect-IsOpen s _ (signalled i e) h = record {
    unflagged = λ f. absurd (awaiting_not e (h.unflagged f));
    alive = λ g. cc;
    calls = λ g. cc;
  }
  Effect-IsOpen s _ (ended rest e f) h = record {
    unflagged = h.unflagged;
    alive = λ g. absurd (subst AllCalls f (h.calls g));
    calls = λ g. absurd (subst AllCalls f (h.calls g));
  }
  Effect-IsOpen s _ (skipped i fn rest e f gone) h = record {
    unflagged = h.unflagged;
    alive = h.alive;
    calls = λ g. subst AllCalls f (h.calls g);
  }
  Effect-IsOpen s _ (started i fn rest e f) h = record {
    unflagged = h.unflagged;
    alive = λ g. tt;
    calls = λ g. subst AllCalls f (h.calls g);
  }
  Effect-IsOpen s _ (finished i fn e) h = record {
    unflagged = h.unflagged;
    alive = λ g. tt;
    calls = h.calls;
  }
  Effect-IsOpen s _ (delivered i r rest e p) h = record {
    unflagged = h.unflagged;
    alive = h.alive;
    calls = h.calls;
  }
  Effect-IsOpen s _ (dropped i r rest e p) h = record {
    unflagged = h.unflagged;
    alive = h.alive;
    calls = h.calls;
  }
  Effect-IsOpen s _ (revoked i l p) h = record {
    unflagged = h.unflagged;
    alive = h.alive;
    calls = h.calls;
  }

  pub new_connection-IsOpen : (sync : S) → IsOpen {V = V} (new_connection sync)
  unfolding new_connection
  new_connection-IsOpen sync = record { unflagged = λ e. refl; alive = λ e. tt; calls = λ e. tt }

  -- From a new connection, in whatever order the threads take their steps.
  pub run-IsOpen :
      (close : Exec S V) (es : List (Event S V)) (sync : S)
      → IsOpen (run close es (new_connection sync))
  run-IsOpen close es sync =
      run-keeps close IsOpen Effect-IsOpen es (new_connection sync) (new_connection-IsOpen sync)

  IsFailed : State S V → Type 0
  IsFailed s = IsOpen s × (s.closing ≡ failed)

  Effect-failed :
      (s t : State S V) → Effect s t → IsOpen s → s.closing ≡ failed → t.closing ≡ failed
  Effect-failed s _ (flagged_closed e) h f = absurd (failed_not f (h.unflagged e))
  Effect-failed s _ (marked es g p) h f = p.failure f
  Effect-failed s _ (queued fn es g p) h f = p.failure f
  Effect-failed s _ (signalled i e) h f = absurd (failed_not_awaiting f e)
  Effect-failed s _ (ended rest e g) h f = f
  Effect-failed s _ (skipped i fn rest e g gone) h f = f
  Effect-failed s _ (started i fn rest e g) h f = f
  Effect-failed s _ (finished i fn e) h f = f
  Effect-failed s _ (delivered i r rest e p) h f = f
  Effect-failed s _ (dropped i r rest e p) h f = f
  Effect-failed s _ (revoked i l p) h f = f

  Effect-IsFailed : (s t : State S V) → Effect s t → IsFailed s → IsFailed t
  unfolding IsFailed
  Effect-IsFailed s t e h = (Effect-IsOpen s t e h.0, Effect-failed s t e h.0 h.1)

  -- Once the `aclose` that has set `_closed` ended by an exception of the close or by a cancellation, the
  -- worker never stops and the shutdown signal is never put, whatever happens next.
  pub run-closing-failed :
      (close : Exec S V) (es more : List (Event S V)) (sync : S)
      → (run close es (new_connection sync)).closing ≡ failed
      → IsAlive (run close more (run close es (new_connection sync))).worker
        × AllCalls (run close more (run close es (new_connection sync))).queue
        × ((run close more (run close es (new_connection sync))).closing ≡ failed)
  unfolding IsFailed
  run-closing-failed close es more sync f =
      let s = run close es (new_connection sync) in
      let (h, g) = run-keeps close IsFailed Effect-IsFailed more s (run-IsOpen close es sync, f) in
      let quiet = subst (λ c. is_ending c ≡ false) (sym g) refl in (h.alive quiet, h.calls quiet, g)
