-- ===== src/Store/TunnelPorts.antt =====
-- internal/store/adbtunnel.go: one adb-tunnel port for each user, for good.
use poligon.Base.{
  Bool-cases, List, Option, Text, [], any, arith, eqb, false, find_first, find_first-append_none,
  if◌then◌else◌, inl, inr, length, map, none, refl, select, some, suc, zero, ℕ, ◌++◌, ◌+◌, ◌-◌, ◌<◌,
  ◌==◌, ◌∷◌, ◌≡◌, ◌≢◌, ◌≤◌,
}
use poligon.Store.{Db, Result, TunnelPort, constraint, err, no_free_port, ok}

-- for p := rangeStart; p <= rangeEnd; p++: the first port that is not used, or 0.
unfoldable pub first_port : ℕ → ℕ → List ℕ → ℕ
first_port zero p used = 0
first_port (suc n) p used =
    let rest = first_port n (p + 1) used in if any (λ q. eqb q p) used then rest else p

unfoldable pub port_of : Text → Db → Option ℕ
port_of user db = elim (find_first (λ t. t.user == user) db.tunnel_ports) [
  | none ↦ none
  | some t ↦ some t.port
]

-- The INSERT refuses a user without an account.
unfoldable pub tunnel_port : Text → ℕ → ℕ → Db → Db × Result ℕ
unfolding first_port
tunnel_port user range_start range_end db = elim (port_of user db) [
  | some p ↦ (db, ok p)
  | none ↦
      let p =
        first_port (range_end + 1 - range_start) range_start (map (λ t. t.port) db.tunnel_ports) in
      if eqb p 0
      then (db, err no_free_port)
      else if any (λ u. u.name == user) db.users
      then (
        record db { tunnel_ports = db.tunnel_ports ++ (record { user = user; port = p }) ∷ [] },
        ok p,
      )
      else (db, err constraint)
]

first_port_unused :
    (n p : ℕ) (used : List ℕ)
    → first_port n p used ≢ 0
    → (any (λ q. eqb q (first_port n p used)) used ≡ false)
      × (p ≤ first_port n p used)
      × (first_port n p used < p + n)
unfolding first_port
first_port_unused zero p used h = absurd (h refl)
first_port_unused (suc n) p used h = elim (Bool-cases (any (λ q. eqb q p) used)) [
  | inl hit ↦ ground (arith, first_port_unused n (p + 1) used)
  | inr miss ↦ ground arith
]

-- A user's port is for good: once it is given, every later call returns it, for any range, and
-- changes nothing.
tunnel_port-again :
    (user : Text) (a b c d : ℕ) (db : Db) {p : ℕ}
    → (tunnel_port user a b db).1 ≡ ok p
    → tunnel_port user c d (tunnel_port user a b db).0 ≡ ((tunnel_port user a b db).0, ok p)
unfolding tunnel_port port_of
tunnel_port-again user a b c d db {p} h =
    let fresh = first_port (b + 1 - a) a (map (λ t. t.port) db.tunnel_ports) in
    ground (
      arith,
      find_first-append_none (λ t. t.user == user) db.tunnel_ports
          (record { user = user; port = fresh } ∷ []),
    )

-- Each port belongs to one user at most.
abbrev pub AreDistinctPorts : Db → Type 0
AreDistinctPorts db = (q : ℕ) → length (select (λ t. eqb t.port q) db.tunnel_ports) ≤ 1

unused_port :
    (q : ℕ) (rows : List TunnelPort)
    → any (λ k. eqb k q) (map (λ t. t.port) rows) ≡ false
    → length (select (λ t. eqb t.port q) rows) ≡ 0
unused_port q [] h = refl
unused_port q (t ∷ rows) h = ground (arith, unused_port q rows)

count_with :
    (q : ℕ) (t : TunnelPort) (rows : List TunnelPort)
    → length (select (λ r. eqb r.port q) (rows ++ t ∷ []))
      ≡ length (select (λ r. eqb r.port q) rows) + (if eqb t.port q then 1 else 0)
count_with q t [] = ground arith
count_with q t (r ∷ rows) = ground (arith, count_with q t rows)

-- If no port belongs to two users before a call, none does after it.
tunnel_port-AreDistinctPorts :
    (user : Text) (a b : ℕ) (db : Db)
    → AreDistinctPorts db
    → AreDistinctPorts (tunnel_port user a b db).0
unfolding tunnel_port
tunnel_port-AreDistinctPorts user a b db u q =
    let fresh = first_port (b + 1 - a) a (map (λ t. t.port) db.tunnel_ports) in
    ground (
      arith,
      u q,
      unused_port fresh db.tunnel_ports,
      first_port_unused (b + 1 - a) a (map (λ t. t.port) db.tunnel_ports),
      count_with q (record { user = user; port = fresh }) db.tunnel_ports,
    )
