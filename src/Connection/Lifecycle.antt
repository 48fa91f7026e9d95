-- ===== src/Connection/Lifecycle.antt =====
-- `open` and `close` of `Connection` in src/pyads/connection.py, and the ports of the ADS router.
pub mod Ports
use pyads_agile.Prelude.{
  ℕ, List, [], ◌∷◌, if◌then◌else◌, Bool, true, false, Option, none, some, Result, ok, err, Error,
  ads_error,
}
use pyads_agile.Python.Exec.{Exec, ◌>>=◌, ◌>>◌, pure, raise}

-- `adsPortOpenEx`, `adsPortCloseEx`, `adsAddRoute`, `adsDelRoute` and `adsGetNetIdForPLC` of
-- src/pyads/pyads_ex.py for the address of the connection
pub record Router (D : Type 0) : Type 0 where
  pub open_port : Exec D ℕ
  pub close_port : ℕ → Exec D (Unit {0})
  pub add_route : Exec D (Unit {0})
  pub del_route : Exec D (Unit {0})
  pub net_id_for_plc : Exec D ℕ

-- `_port`, `_open` and `ams_net_id`, with the router
pub record Link (D : Type 0) : Type 0 where
  pub router : D
  pub port : Option ℕ
  pub is_open : Bool
  pub net_id : Option ℕ

abbrev pub on_router : {D A : Type 0} → Exec D A → Exec (Link D) A
on_router m s = let (r, d) = m s.router in (r, record s { router = d })

abbrev pub set_port : {D : Type 0} → Option ℕ → Exec (Link D) (Unit {0})
set_port p s = (ok tt, record s { port = p })

abbrev pub set_open : {D : Type 0} → Bool → Exec (Link D) (Unit {0})
set_open b s = (ok tt, record s { is_open = b })

abbrev pub set_net_id : {D : Type 0} → ℕ → Exec (Link D) (Unit {0})
set_net_id n s = (ok tt, record s { net_id = some n })

-- `linux` is whether the ADS library is the one of Linux.
module _ (linux : Bool) {D : Type 0} (calls : Router D) where
  -- the net id of the PLC, where none was given
  unfoldable pub find_net_id : Option ℕ → Exec (Link D) (Unit {0})
  unfolding ◌>>=◌
  find_net_id none = on_router calls.net_id_for_plc >>= set_net_id
  find_net_id (some n) = pure tt

  -- `except ADSError`: the port is closed again
  unfoldable pub after_route : ℕ → Result (Unit {0}) → Exec (Link D) (Unit {0})
  unfolding ◌>>=◌
  after_route port (ok u) = pure tt
  after_route port (err (ads_error n)) =
      on_router (calls.close_port port) >>= λ _. set_port none >>= λ _. raise (ads_error n)
  after_route port (err x) = raise x

  unfoldable pub add_route : Bool → ℕ → Exec (Link D) (Unit {0})
  unfolding after_route
  add_route false port s = (ok tt, s)
  add_route true port s =
      let (r, d) = calls.add_route s.router in after_route port r (record s { router = d })

  -- what follows the net id
  unfoldable pub open_found : Exec (Link D) (Unit {0})
  unfolding add_route ◌>>=◌
  open_found = on_router calls.open_port >>= λ port.
      set_port (some port) >>= λ _. add_route linux port >>= λ _. set_open true

  unfoldable pub open_closed : Exec (Link D) (Unit {0})
  unfolding find_net_id open_found ◌>>=◌
  open_closed s = (find_net_id s.net_id >>= λ _. open_found) s

  abbrev pub unless : Bool → Exec (Link D) (Unit {0}) → Exec (Link D) (Unit {0})
  unless true m s = (ok tt, s)
  unless false m s = m s

  -- `open`
  unfoldable pub open_connection : Exec (Link D) (Unit {0})
  unfolding open_closed
  open_connection s = unless s.is_open open_closed s

  unfoldable pub del_route : Bool → Exec (Link D) (Unit {0})
  del_route false s = (ok tt, s)
  del_route true s = on_router calls.del_route s

  unfoldable pub close_port : Option ℕ → Exec (Link D) (Unit {0})
  unfolding ◌>>=◌
  close_port none = pure tt
  close_port (some port) = on_router (calls.close_port port) >>= λ _. set_port none

  unfoldable pub close_opened : Exec (Link D) (Unit {0})
  unfolding del_route close_port ◌>>=◌
  close_opened s = (del_route linux >>= λ _. close_port s.port >>= λ _. set_open false) s

  -- `close`
  unfoldable pub close_connection : Exec (Link D) (Unit {0})
  unfolding close_opened
  close_connection s = if s.is_open then close_opened s else (ok tt, s)
