-- ===== src/Async/StepChain/Notify/Cleanup.antt =====
-- How many notifications are registered after the wait.
use pyads_agile.Prelude.{
  ℕ, suc, ◌+◌, ◌≡◌, refl, ap, ◌∙◌, arith, List, [], ◌∷◌, ◌++◌, Bool, true, length, ok, err, Error,
  ok_inj, subst,
}
use pyads_agile.Python.Exec.{Exec, ◌>>=◌, pure, >>=-ok, >>=-err, >>=-eq-ok}
use pyads_agile.Python.Utf8.{Text}
use pyads_agile.Async.StepChain.Notify.{
  Notifier, register_notification_handles, del_notifications, finish, finally_delete,
  wait_until_done_notify,
}

-- The number of registered notifications of a connection, and how the calls change it.
pub record Counts {S H : Type 0} (notifier : Notifier S H) : Type 0 where
  pub count : S → ℕ
  pub added :
      (symbol : Text) (s : S) {h : H}
      → (notifier.add symbol s).0 ≡ ok h
      → count (notifier.add symbol s).1 ≡ suc (count s)
  pub not_added :
      (symbol : Text) (s : S) {x : Error}
      → (notifier.add symbol s).0 ≡ err x
      → count (notifier.add symbol s).1 ≡ count s

-- What the deletions of a connection with an open port do: one that succeeds takes one notification, and
-- the port stays open. Without a port a deletion succeeds and does nothing.
pub record Deletions {S H : Type 0} (notifier : Notifier S H) (law : Counts notifier) : Type 0 where
  pub has_port : S → Bool
  pub deleted :
      (h : H) (s : S)
      → has_port s ≡ true
      → (notifier.delete h s).0 ≡ ok tt
      → suc (law.count (notifier.delete h s).1) ≡ law.count s
  pub keeps_port :
      (h : H) (s : S)
      → has_port s ≡ true
      → (notifier.delete h s).0 ≡ ok tt
      → has_port (notifier.delete h s).1 ≡ true

-- Each deletion of these handles, one after the other, succeeds.
abbrev pub AllDeleted : {S H : Type 0} → Notifier S H → List H → S → Type 0
AllDeleted notifier [] s = Unit {0}
AllDeleted notifier (h ∷ hs) s =
    ((notifier.delete h s).0 ≡ ok tt) × AllDeleted notifier hs (notifier.delete h s).1

module _ {S H : Type 0} (notifier : Notifier S H) (law : Counts notifier) where
  register-count :
      (symbols : List Text) (s : S) (handles : List H)
      → (register_notification_handles notifier symbols s).0 ≡ ok handles
      → (law.count (register_notification_handles notifier symbols s).1
          ≡ length handles + law.count s)
        × (length handles ≡ length symbols)
  unfolding register_notification_handles pure
  register-count [] s handles e =
      subst (λ hs. (law.count s ≡ length hs + law.count s) × (length hs ≡ 0)) (ok_inj e)
        (omega arith, refl)
  register-count (symbol ∷ symbols) s handles e =
      let more = register_notification_handles notifier symbols in
      let (h, a, f) = >>=-eq-ok (notifier.add symbol) (λ h. more >>= λ hs. pure (h ∷ hs)) s e in
      let s' = (notifier.add symbol s).1 in
      let (hs, b, g) = >>=-eq-ok more (λ hs. pure (h ∷ hs)) s' f in
      let (m, n) = register-count symbols s' hs b in
      let ends =
        >>=-ok (notifier.add symbol) (λ h. more >>= λ hs. pure (h ∷ hs)) s a
        ∙ >>=-ok more (λ hs. pure (h ∷ hs)) s' b in
      subst
        (λ t.
          (law.count (register_notification_handles notifier (symbol ∷ symbols) s).1
            ≡ length t + law.count s)
          × (length t ≡ suc (length symbols)))
        (ok_inj g)
        (ap (λ p. law.count p.1) ends ∙ m ∙ omega (arith, law.added symbol s a), ap suc n)

  del-count :
      (deletions : Deletions notifier law) (handles : List H) (s : S)
      → deletions.has_port s ≡ true
      → AllDeleted notifier handles s
      → ((del_notifications notifier handles s).0 ≡ ok tt)
        × (length handles + law.count (del_notifications notifier handles s).1 ≡ law.count s)
  unfolding del_notifications pure
  del-count deletions [] s ported d = (refl, omega arith)
  del-count deletions (h ∷ hs) s ported d =
      let rest = λ (u : Unit {0}). del_notifications notifier hs in
      let (a, b) =
        del-count deletions hs (notifier.delete h s).1 (deletions.keeps_port h s ported d.0) d.1 in
      let ends = >>=-ok (notifier.delete h) rest s d.0 in
      (
        ap (λ p. p.0) ends ∙ a,
        ap (λ p. suc (length hs) + law.count p.1) ends
            ∙ omega (arith, b, deletions.deleted h s ported d.0),
      )

  -- On a connection whose calls count as `Counts` and `Deletions` say, when every status symbol got its
  -- notification, the connection has a port when the block under `try` has ended, that block registers and
  -- removes nothing, and the deletions after it succeed: however the block ends, the wait ends in the
  -- same way, and as many notifications are registered as before it.
  pub wait_until_done_notify-count :
      (deletions : Deletions notifier law) {A : Type 0} (symbols : List Text) (body : Exec S A)
      (s : S) (handles : List H)
      → (register_notification_handles notifier symbols s).0 ≡ ok handles
      → deletions.has_port (body (register_notification_handles notifier symbols s).1).1 ≡ true
      → ((t : S) → law.count (body t).1 ≡ law.count t)
      → AllDeleted notifier handles (body (register_notification_handles notifier symbols s).1).1
      → ((wait_until_done_notify notifier symbols body s).0
          ≡ (body (register_notification_handles notifier symbols s).1).0)
        × (law.count (wait_until_done_notify notifier symbols body s).1 ≡ law.count s)
  unfolding wait_until_done_notify
  wait_until_done_notify-count deletions symbols body s handles e ported keeps d =
      let register = register_notification_handles notifier symbols in
      let t = (register s).1 in
      let rest = λ (hs : List H) (t : S). finally_delete notifier hs (body t) in
      let ends = >>=-ok register rest s e in
      let (a, b) = del-count deletions handles (body t).1 ported d in
      let (m, n) = register-count symbols s handles e in
      (
        ap (λ p. p.0) ends ∙ ap (finish notifier (body t).0) a,
        ap (λ p. law.count p.1) ends ∙ omega (arith, b, m, keeps t),
      )

  register-fails :
      (front back : List Text) (symbol : Text) (s : S) (handles : List H) (x : Error)
      → (register_notification_handles notifier front s).0 ≡ ok handles
      → (notifier.add symbol (register_notification_handles notifier front s).1).0 ≡ err x
      → ((register_notification_handles notifier (front ++ symbol ∷ back) s).0 ≡ err x)
        × (law.count (register_notification_handles notifier (front ++ symbol ∷ back) s).1
            ≡ length front + law.count s)
  unfolding register_notification_handles pure
  register-fails [] back symbol s handles x e f =
      let more = λ (h : H). register_notification_handles notifier back >>= λ hs. pure (h ∷ hs) in
      let ends = >>=-err (notifier.add symbol) more s f in
      (ap (λ p. p.0) ends, ap (λ p. law.count p.1) ends ∙ omega (arith, law.not_added symbol s f))
  register-fails (t ∷ front) back symbol s handles x e f =
      let first = register_notification_handles notifier front in
      let whole = register_notification_handles notifier (front ++ symbol ∷ back) in
      let (h, a, g) = >>=-eq-ok (notifier.add t) (λ h. first >>= λ hs. pure (h ∷ hs)) s e in
      let s' = (notifier.add t s).1 in
      let (hs, b, k) = >>=-eq-ok first (λ hs. pure (h ∷ hs)) s' g in
      let before =
        >>=-ok (notifier.add t) (λ h. first >>= λ hs. pure (h ∷ hs)) s a
        ∙ >>=-ok first (λ hs. pure (h ∷ hs)) s' b in
      let there = subst (λ p. (notifier.add symbol p.1).0 ≡ err x) before f in
      let (m, n) = register-fails front back symbol s' hs x b there in
      let ends =
        >>=-ok (notifier.add t) (λ h. whole >>= λ hs. pure (h ∷ hs)) s a
        ∙ >>=-err whole (λ hs. pure (h ∷ hs)) s' m in
      (ap (λ p. p.0) ends, ap (λ p. law.count p.1) ends ∙ n ∙ omega (arith, law.added t s a))

  -- When the notification of one symbol cannot be added, the wait raises that error, and the notifications
  -- of the symbols before it stay registered.
  pub wait_until_done_notify-leaks :
      {A : Type 0} (front back : List Text) (symbol : Text) (body : Exec S A) (s : S)
      (handles : List H) (x : Error)
      → (register_notification_handles notifier front s).0 ≡ ok handles
      → (notifier.add symbol (register_notification_handles notifier front s).1).0 ≡ err x
      → ((wait_until_done_notify notifier (front ++ symbol ∷ back) body s).0 ≡ err x)
        × (law.count (wait_until_done_notify notifier (front ++ symbol ∷ back) body s).1
            ≡ length front + law.count s)
  unfolding wait_until_done_notify
  wait_until_done_notify-leaks front back symbol body s handles x e f =
      let (m, n) = register-fails front back symbol s handles x e f in
      let register = register_notification_handles notifier (front ++ symbol ∷ back) in
      let ends = >>=-err register (λ hs t. finally_delete notifier hs (body t)) s m in
      (ap (λ p. p.0) ends, ap (λ p. law.count p.1) ends ∙ n)
