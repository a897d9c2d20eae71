-- ===== src/Tunnels/Ports.antt =====
-- internal/api/debugtunnel.go: the ports of the users, and what a tunnel shows.
use poligon.Base.{
  Bool, List, Text, [], arith, false, find_first, find_first-append, get, is_empty, map, mem, none,
  not, order_by, refl, select, some, text_leb, true, ℕ, ◌&&◌, ◌+◌, ◌-◌, ◌==◌, ◌∷◌, ◌≡◌,
}
use poligon.Model.{Device, Reservation}
use poligon.Reserve.{active_on, holder}
use poligon.Store.{Db, succeeds}
use poligon.Store.TunnelPorts.{first_port, port_of, tunnel_port}
use poligon.Tunnels.{UserTunnel, held_serials, is_android, tunnel_users}

pub tunnel_port-frame :
    (user : Text) (a b : ℕ) (db : Db)
    → ((tunnel_port user a b db).0.devices ≡ db.devices)
      × ((tunnel_port user a b db).0.reservations ≡ db.reservations)
unfolding tunnel_port
tunnel_port-frame user a b db = ground arith

abbrev pub has_port : Text → Db → Bool
has_port user db = elim (port_of user db) [ none ↦ false | some _ ↦ true ]

pub has_port-tunnel_port :
    (user other_user : Text) (a b : ℕ) (db : Db)
    → has_port other_user db ≡ true
    → has_port other_user (tunnel_port user a b db).0 ≡ true
unfolding tunnel_port port_of
has_port-tunnel_port user other_user a b db h = ground (
  arith,
  find_first-append (λ t. t.user == other_user) db.tunnel_ports
      (record { user = user; port = first_port (b + 1 - a) a (map (λ t. t.port) db.tunnel_ports) }
        ∷ []),
)

pub tunnel_port-has_port :
    (user : Text) (a b : ℕ) (db : Db)
    → succeeds (tunnel_port user a b db).1 ≡ true
    → has_port user (tunnel_port user a b db).0 ≡ true
unfolding tunnel_port port_of
tunnel_port-has_port user a b db h = ground (
  arith,
  find_first-append (λ t. t.user == user) db.tunnel_ports
      (record { user = user; port = first_port (b + 1 - a) a (map (λ t. t.port) db.tunnel_ports) }
        ∷ []),
)

pub succeeds-tunnel_port :
    (user : Text) (a b : ℕ) (db : Db)
    → has_port user db ≡ true
    → succeeds (tunnel_port user a b db).1 ≡ true
unfolding tunnel_port
succeeds-tunnel_port user a b db h = ground arith

-- What a user may see depends on the devices and the reservations only.
abbrev pub serials_of : Text → List Device → List Reservation → List Text
serials_of user ds rows =
    map (λ d. d.serial)
      (select
        (λ d.
          is_android d.platform
          && not (is_empty d.serial)
          && (elim (find_first (active_on d.id) rows) [ none ↦ false | some r ↦ r.user == user ]))
        (order_by (λ a b. text_leb a.id b.id) ds))

pub held_serials-of :
    (user : Text) (db : Db) → held_serials user db ≡ serials_of user db.devices db.reservations
unfolding held_serials holder
held_serials-of user db = refl

abbrev pub State : Type 0
State = Db × List (Text × UserTunnel)

-- Every user with a tunnel has a port.
abbrev pub HasPorts : State → Type 0
HasPorts s = (u : Text) (t : UserTunnel) → get u s.1 ≡ some t → has_port u s.0 ≡ true

-- The tunnel of the user, if he has one, shows what he holds.
abbrev pub Shows : Text → List Text → State → Type 0
Shows u serials s = (t : UserTunnel) → get u s.1 ≡ some t → t.allowed ≡ serials

pub mem-tunnel_users :
    (v : Text) (ts : List (Text × UserTunnel))
    → mem v (tunnel_users ts) ≡ (elim (get v ts) [ none ↦ false | some _ ↦ true ])
unfolding tunnel_users
mem-tunnel_users v [] = refl
mem-tunnel_users v ((u, t) ∷ ts) = ground (arith, mem-tunnel_users v ts)
