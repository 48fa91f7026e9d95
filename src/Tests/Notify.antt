-- ===== src/Tests/Notify.antt =====
-- A connection whose device counts its notifications, and does not know a symbol without a name.
use pyads_agile.Prelude.{
  ℕ, zero, suc, ◌≡◌, refl, List, [], ◌∷◌, ◌++◌, true, false, Option, some, ok, err, ads_error,
}
use pyads_agile.Python.Exec.{Exec, ◌>>=◌, pure, raise}
use pyads_agile.Python.Int.{pos}
use pyads_agile.Python.Utf8.{Text}
use pyads_agile.Structure.Value.{Value}
use pyads_agile.Async.StepChain.{status_symbols, status_symbol}
use pyads_agile.Async.StepChain.Completion.{is_rejection, is_completed, matches, coerce_int}
use pyads_agile.Async.StepChain.Waiting.{IsFinished}
use pyads_agile.Async.StepChain.Notify.{
  Notifier, register_notification_handles, wait_until_done_notify, notify_body, notify_loop,
  on_wake, on_status,
}
use pyads_agile.Async.StepChain.Notify.Watch.{notify_body-IsFinished}
use pyads_agile.Async.StepChain.Notify.Cleanup.{
  Counts, Deletions, wait_until_done_notify-count, wait_until_done_notify-leaks,
}
use pyads_agile.Async.StepChain.Notify.Handles.{
  NotificationCalls, Ported, CallCounts, connection_notifier, connection_counts,
  connection_deletions,
}
use pyads_agile.Tests.StepChains.{no_float, no_number, config, object, status, no_value}

size_of : Text → Exec ℕ ℕ
size_of [] n = (err (ads_error 1808), n)
size_of (c ∷ cs) n = (ok 4, n)

delete_one : ℕ → Exec ℕ (Unit {0})
delete_one h zero = (err (ads_error 1812), zero)
delete_one h (suc n) = (ok tt, n)

abbrev device : NotificationCalls ℕ ℕ
device = record {
  symbol_size = size_of;
  add_request = λ symbol size n. (ok n, suc n);
  delete_request = delete_one;
}

device-CallCounts : CallCounts device
unfolding size_of delete_one
device-CallCounts = record {
  count = λ n. n;
  size_keeps = keeps;
  added = λ symbol size n e. refl;
  not_added = λ symbol size n e. cc;
  deleted = deletes;
}
  where
    keeps : (symbol : Text) (n : ℕ) → (size_of symbol n).1 ≡ n
    keeps [] n = refl
    keeps (c ∷ cs) n = refl

    deletes : (h n : ℕ) → (delete_one h n).0 ≡ ok tt → suc (delete_one h n).1 ≡ n
    deletes h zero e = cc
    deletes h (suc n) e = refl

abbrev counting : Notifier (Ported ℕ) ℕ
counting = connection_notifier device

abbrev law : Counts counting
law = connection_counts device device-CallCounts

abbrev deletions : Deletions counting law
deletions = connection_deletions device device-CallCounts

abbrev opened : Ported ℕ
opened = record { port = some 30000; client = 5 }

abbrev returns_3 : Exec (Ported ℕ) ℕ
returns_3 s = (ok 3, s)

abbrev two_symbols : List Text
two_symbols = (97 ∷ []) ∷ (98 ∷ []) ∷ []

registers : (register_notification_handles counting two_symbols opened).0 ≡ ok (5 ∷ 6 ∷ [])
unfolding register_notification_handles ◌>>=◌ pure raise size_of
registers = refl

port_open :
    deletions.has_port (returns_3 (register_notification_handles counting two_symbols opened).1).1
    ≡ true
unfolding register_notification_handles ◌>>=◌ pure raise size_of
port_open = refl

wait_until_done_notify-count_example :
    ((wait_until_done_notify counting two_symbols returns_3 opened).0 ≡ ok 3)
    × ((wait_until_done_notify counting two_symbols returns_3 opened).1.client ≡ 5)
unfolding device-CallCounts
wait_until_done_notify-count_example =
    wait_until_done_notify-count counting law deletions two_symbols returns_3 opened (5 ∷ 6 ∷ [])
      registers port_open (λ t. refl)
      (unfold register_notification_handles in
        unfold size_of in
        unfold ◌>>=◌ in unfold pure in unfold raise in unfold delete_one in (refl, (refl, tt)))

refuses_third :
    (counting.add [] (register_notification_handles counting two_symbols opened).1).0
    ≡ err (ads_error 1808)
unfolding register_notification_handles ◌>>=◌ pure raise size_of
refuses_third = refl

wait_until_done_notify-leaks_example :
    ((wait_until_done_notify counting (two_symbols ++ [] ∷ (99 ∷ []) ∷ []) returns_3 opened).0
      ≡ err (ads_error 1808))
    × ((wait_until_done_notify counting
          (two_symbols ++ [] ∷ (99 ∷ []) ∷ [])
          returns_3
          opened).1.client
        ≡ 7)
unfolding device-CallCounts
wait_until_done_notify-leaks_example =
    wait_until_done_notify-leaks counting law two_symbols ((99 ∷ []) ∷ []) [] returns_3 opened
      (5 ∷ 6 ∷ []) (ads_error 1808) registers refuses_third

wakes_twice :
    notify_body no_float no_number config object
      (pos 7)
      (some 25)
      no_value
      (ok (status 6 true))
      ((10, some (ok (status 7 false))) ∷ (20, some (ok (status 7 true))) ∷ [])
    ≡ some (ok (status 7 true))
unfolding notify_body notify_loop on_wake on_status is_completed status_symbols status_symbol
    matches coerce_int
wakes_twice = refl

notify_body-IsFinished_example :
    IsFinished no_float no_number config object (pos 7) (status 7 true)
    × ((v : Option Value) × (no_value ≡ ok v) × (is_rejection v ≡ false))
notify_body-IsFinished_example =
    notify_body-IsFinished no_float no_number config object (pos 7) (some 25) no_value
      (ok (status 6 true)) ((10, some (ok (status 7 false))) ∷ (20, some (ok (status 7 true))) ∷ [])
      (status 7 true) wakes_twice
