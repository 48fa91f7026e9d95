-- ===== src/Tests/Lifecycle.antt =====
-- A connection and a router that has two ports open, opens the next number, refuses to close a port that
-- is not open, and adds no route.
use pyads_agile.Prelude.{
  ℕ, suc, ◌+◌, ◌≤◌, ◌==◌, ◌||◌, ◌&&◌, not, Bool, if◌then◌else◌, ◌≡◌, refl, arith, true, false, inr,
  some, none, ok, err, ads_error, List, [], ◌∷◌,
}
use pyads_agile.Connection.Lifecycle.{Router, Link, open_connection, close_connection}
use pyads_agile.Connection.Lifecycle.Ports.{PortLaw, IsBalanced, open_close-IsBalanced}

-- the ports that are open
abbrev among : List ℕ → ℕ → Bool
among [] q = false
among (p ∷ ps) q = p == q || among ps q

abbrev without : ℕ → List ℕ → List ℕ
without p [] = []
without p (q ∷ qs) = let rest = without p qs in if p == q then rest else q ∷ rest

-- a number above all ports that are open
abbrev next_port : List ℕ → ℕ
next_port [] = 30000
next_port (p ∷ ps) = suc (p + next_port ps)

abbrev router : Router (List ℕ)
router = record {
  open_port = λ d. (ok (next_port d), next_port d ∷ d);
  close_port = λ p d. (if among d p then ok tt else err (ads_error 1864), without p d);
  add_route = λ d. (err (ads_error 1863), d);
  del_route = λ d. (ok tt, d);
  net_id_for_plc = λ d. (ok 7, d);
}

among-above : (ps : List ℕ) (q : ℕ) → next_port ps ≤ q → among ps q ≡ false
among-above [] q h = refl
among-above (p ∷ ps) q h =
    let rest = among-above ps q (omega arith) in
    let differs : (p == q) ≡ false = ground arith in rw (differs, rest) refl

among-without : (p q : ℕ) (ps : List ℕ) → among (without p ps) q ≡ (not (p == q) && among ps q)
among-without p q [] = ground arith
among-without p q (r ∷ ps) = ground (arith, among-without p q ps)

router-PortLaw : PortLaw router
router-PortLaw = record {
  has_port = among;
  opened = opened;
  not_opened = λ d e. cc;
  closes = λ p d h. (rw h refl, λ q. among-without p q d);
  add_keeps = λ d q. refl;
  add_fails = λ d e. (1863, cc);
  del_keeps = λ d q. refl;
  find_keeps = λ d q. refl;
}
  where
    opened :
        (d : List ℕ) {p : ℕ}
        → ok (next_port d) ≡ ok p
        → (among d p ≡ false) × ((q : ℕ) → among (next_port d ∷ d) q ≡ (p == q || among d q))
    opened d {p} e =
        let same : next_port d ≡ p = cc in (among-above d p (omega arith), λ q. rw same refl)

abbrev fresh : Link (List ℕ)
fresh = record { router = 3 ∷ 9 ∷ []; port = none; is_open = false; net_id = none }

fresh-IsBalanced : IsBalanced true router router-PortLaw (among (3 ∷ 9 ∷ [])) fresh
unfolding IsBalanced router-PortLaw
fresh-IsBalanced = inr (refl, refl, λ q. refl)

open_close-IsBalanced_example :
    IsBalanced true router router-PortLaw (among (3 ∷ 9 ∷ [])) (open_connection true router fresh).1
    × IsBalanced true router router-PortLaw
        (among (3 ∷ 9 ∷ []))
        (close_connection true router fresh).1
open_close-IsBalanced_example =
    open_close-IsBalanced true router router-PortLaw (among (3 ∷ 9 ∷ [])) fresh fresh-IsBalanced

-- The route cannot be added: the port is closed again, and the connection stays closed.
open_connection_test : open_connection true router fresh ≡ (
  err (ads_error 1863),
  record { router = 3 ∷ 9 ∷ []; port = none; is_open = false; net_id = some 7 },
)
unfolding open_connection
open_connection_test = refl
