-- ===== src/Async/Queue/Effects.antt =====
-- What one step of the asynchronous connection can do, as a relation: every event has one of these
-- effects, so an invariant is proved for the effects.
use pyads_agile.Prelude.{
  ℕ, suc, ◌<◌, ◌≡◌, refl, List, [], ◌∷◌, ◌++◌, Bool, true, false, Option, none, some, Result, ok,
  err, ◌&&◌, ltb, if◌then◌else◌, Bool-cases, inl, inr, arith,
}
use pyads_agile.Python.Exec.{Exec}
use pyads_agile.Async.Queue.{
  Future, pending, cancelled, resolved, is_pending, is_cancelled, Item, call, shutdown, Worker,
  idle, stopped, running, Closing, not_closing, flagged, joining, done, failed, awaiting, State,
  Event, submit_check, submit_put, cancel, worker_take, worker_run, loop_dispatch, close_flag,
  close_put, close_resume, close_join, update, set_if_pending, pull, check_open, put_call, admit,
  put_entered, take_item, run_item, dispatch, resume_close, resume_closing, put_close, join_worker,
  step, run,
}

-- the `aclose` that has set `_closed` has put the shutdown signal
abbrev pub is_ending : Closing → Bool
is_ending joining = true
is_ending done = true
is_ending c = false

-- An `aclose` that goes on without putting a signal.
pub record Proceeds (c c' : Closing) : Type 0 where
  pub ending : is_ending c' ≡ is_ending c
  pub absence : c ≡ not_closing → c' ≡ not_closing
  pub failure : c ≡ failed → c' ≡ failed

pub data Effect {S V : Type 0} (s : State S V) : State S V → Type 0 where
  -- the flags of `_submit` and `aclose`
  flagged_closed : s.closed ≡ false → Effect s (record s { closed = true; closing = flagged })
  marked :
      (entered : List (Exec S V)) (closing : Closing)
      → Proceeds s.closing closing
      → Effect s (record s { entered = entered; closing = closing })
  -- a call is put
  queued :
      (fn : Exec S V) (entered : List (Exec S V)) (closing : Closing)
      → Proceeds s.closing closing
      → Effect s (record s {
        entered = entered;
        closing = closing;
        queue = s.queue ++ call s.next fn ∷ [];
        next = suc s.next;
      })
  signalled :
      (i : ℕ)
      → s.closing ≡ awaiting i
      → Effect s (record s { queue = s.queue ++ shutdown ∷ []; closing = joining })
  ended :
      (rest : List (Item S V))
      → s.worker ≡ idle
      → s.queue ≡ shutdown ∷ rest
      → Effect s (record s { queue = rest; worker = stopped })
  skipped :
      (i : ℕ) (fn : Exec S V) (rest : List (Item S V))
      → s.worker ≡ idle
      → s.queue ≡ call i fn ∷ rest
      → is_cancelled (s.futures i) ≡ true
      → Effect s (record s { queue = rest; handled = s.handled ++ i ∷ [] })
  started :
      (i : ℕ) (fn : Exec S V) (rest : List (Item S V))
      → s.worker ≡ idle
      → s.queue ≡ call i fn ∷ rest
      → Effect s (record s { queue = rest; worker = running i fn })
  finished :
      (i : ℕ) (fn : Exec S V)
      → s.worker ≡ running i fn
      → Effect s (record s {
        sync = (fn s.sync).1;
        worker = idle;
        posted = s.posted ++ (i, (fn s.sync).0) ∷ [];
        handled = s.handled ++ i ∷ [];
        performed = s.performed ++ (i, fn) ∷ [];
        outcomes = s.outcomes ++ (i, (fn s.sync).0) ∷ [];
      })
  delivered :
      (i : ℕ) (r : Result V) (rest : List (ℕ × Result V))
      → s.posted ≡ (i, r) ∷ rest
      → is_pending (s.futures i) ≡ true
      → Effect s (record s { posted = rest; futures = update i (resolved r) s.futures })
  -- the future was cancelled
  dropped :
      (i : ℕ) (r : Result V) (rest : List (ℕ × Result V))
      → s.posted ≡ (i, r) ∷ rest
      → is_pending (s.futures i) ≡ false
      → Effect s (record s { posted = rest })
  revoked :
      (i : ℕ)
      → i < s.next
      → is_pending (s.futures i) ≡ true
      → Effect s (record s { futures = update i cancelled s.futures })

stays : (c : Closing) → Proceeds c c
stays c = record { ending = refl; absence = λ e. e; failure = λ e. e }

fails : (c : Closing) (i : ℕ) → c ≡ awaiting i → Proceeds c failed
fails c i e = record { ending = rw e; absence = λ f. cc; failure = λ f. refl }

module _ {S V : Type 0} where
  nothing : (s : State S V) → Effect s s
  nothing s = marked s.entered s.closing (stays s.closing)

  flag_close-Effect :
      (b : Bool) (s : State S V)
      → s.closed ≡ b
      → Effect s (if b then s else record s { closed = true; closing = flagged })
  flag_close-Effect true s e = nothing s
  flag_close-Effect false s e = flagged_closed e

  put_entered-Effect :
      (p : Option (Exec S V × List (Exec S V))) (s : State S V) → Effect s (put_entered p s)
  unfolding put_entered put_call
  put_entered-Effect none s = nothing s
  put_entered-Effect (some (fn, rest)) s = queued fn rest s.closing (stays s.closing)

  admit-Effect : (fn : Exec S V) (r : Result (Unit {0})) (s : State S V) → Effect s (admit fn r s)
  unfolding admit
  admit-Effect fn (ok u) s = marked (s.entered ++ fn ∷ []) s.closing (stays s.closing)
  admit-Effect fn (err x) s = nothing s

  take_item-Effect :
      (w : Worker S V) (q : List (Item S V)) (s : State S V)
      → s.worker ≡ w
      → s.queue ≡ q
      → Effect s (take_item w q s)
  unfolding take_item
  take_item-Effect idle (shutdown ∷ rest) s e f = ended rest e f
  take_item-Effect idle (call i fn ∷ rest) s e f = elim (Bool-cases (is_cancelled (s.futures i))) [
    | inl gone ↦ rw gone (skipped i fn rest e f gone)
    | inr there ↦ rw there (started i fn rest e f)
  ]
  take_item-Effect idle [] s e f = nothing s
  take_item-Effect stopped q s e f = nothing s
  take_item-Effect (running i fn) q s e f = nothing s

  run_item-Effect : (w : Worker S V) (s : State S V) → s.worker ≡ w → Effect s (run_item w s)
  unfolding run_item
  run_item-Effect (running i fn) s e = finished i fn e
  run_item-Effect idle s e = nothing s
  run_item-Effect stopped s e = nothing s

  dispatch-Effect :
      (p : List (ℕ × Result V)) (s : State S V) → s.posted ≡ p → Effect s (dispatch p s)
  unfolding dispatch set_if_pending
  dispatch-Effect [] s e = nothing s
  dispatch-Effect ((i, r) ∷ rest) s e = elim (Bool-cases (is_pending (s.futures i))) [
    | inl waits ↦ rw waits (delivered i r rest e waits)
    | inr over ↦ rw over (dropped i r rest e over)
  ]

  resume_close-Effect :
      (f : Future V) (i : ℕ) (s : State S V) → s.closing ≡ awaiting i → Effect s (resume_close f s)
  unfolding resume_close
  resume_close-Effect (resolved (ok v)) i s e = signalled i e
  resume_close-Effect (resolved (err x)) i s e = marked s.entered failed (fails s.closing i e)
  resume_close-Effect cancelled i s e = marked s.entered failed (fails s.closing i e)
  resume_close-Effect pending i s e = nothing s

  resume_closing-Effect :
      (c : Closing) (s : State S V) → s.closing ≡ c → Effect s (resume_closing c s)
  unfolding resume_closing
  resume_closing-Effect (awaiting i) s e = resume_close-Effect (s.futures i) i s e
  resume_closing-Effect not_closing s e = nothing s
  resume_closing-Effect flagged s e = nothing s
  resume_closing-Effect joining s e = nothing s
  resume_closing-Effect done s e = nothing s
  resume_closing-Effect failed s e = nothing s

  put_close-Effect :
      (c : Closing) (fn : Exec S V) (s : State S V) → s.closing ≡ c → Effect s (put_close c fn s)
  unfolding put_close put_call
  put_close-Effect flagged fn s e =
      queued fn s.entered (awaiting s.next)
        (record { ending = rw e; absence = λ f. cc; failure = λ f. cc })
  put_close-Effect not_closing fn s e = nothing s
  put_close-Effect joining fn s e = nothing s
  put_close-Effect done fn s e = nothing s
  put_close-Effect failed fn s e = nothing s
  put_close-Effect (awaiting i) fn s e = nothing s

  join_worker-Effect :
      (c : Closing) (w : Worker S V) (s : State S V) → s.closing ≡ c → Effect s (join_worker c w s)
  unfolding join_worker
  join_worker-Effect joining stopped s e =
      marked s.entered done (record { ending = rw e; absence = λ f. cc; failure = λ f. cc })
  join_worker-Effect joining idle s e = nothing s
  join_worker-Effect joining (running i fn) s e = nothing s
  join_worker-Effect not_closing w s e = nothing s
  join_worker-Effect flagged w s e = nothing s
  join_worker-Effect done w s e = nothing s
  join_worker-Effect failed w s e = nothing s
  join_worker-Effect (awaiting i) w s e = nothing s

  pub run-append :
      (close : Exec S V) (es fs : List (Event S V)) (s : State S V)
      → run close (es ++ fs) s ≡ run close fs (run close es s)
  unfolding run
  run-append close [] fs s = refl
  run-append close (e ∷ es) fs s = run-append close es fs (step close e s)

  module _ (close : Exec S V) where
    pub step-Effect : (e : Event S V) (s : State S V) → Effect s (step close e s)
    unfolding step
    step-Effect (submit_check fn) s = admit-Effect fn (check_open s) s
    step-Effect (submit_put k) s = put_entered-Effect (pull k s.entered) s
    step-Effect (cancel i) s = elim (Bool-cases (ltb i s.next && is_pending (s.futures i))) [
      | inl p ↦ rw p (revoked i (ground arith) (ground arith))
      | inr p ↦ rw p (nothing s)
    ]
    step-Effect worker_take s = take_item-Effect s.worker s.queue s refl refl
    step-Effect worker_run s = run_item-Effect s.worker s refl
    step-Effect loop_dispatch s = dispatch-Effect s.posted s refl
    step-Effect close_flag s = flag_close-Effect s.closed s refl
    step-Effect close_put s = put_close-Effect s.closing close s refl
    step-Effect close_resume s = resume_closing-Effect s.closing s refl
    step-Effect close_join s = join_worker-Effect s.closing s.worker s refl

    -- What every effect keeps is kept by any schedule.
    pub run-keeps :
        (P : State S V → Type 0)
        → ((s t : State S V) → Effect s t → P s → P t)
        → (es : List (Event S V)) (s : State S V) → P s
        → P (run close es s)
    unfolding run
    run-keeps P keep [] s h = h
    run-keeps P keep (e ∷ es) s h =
        run-keeps P keep es (step close e s) (keep s (step close e s) (step-Effect e s) h)
