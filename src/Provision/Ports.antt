-- ===== src/Provision/Ports.antt =====
-- internal/provision/lifecycle.go and ios.go: the pairs of ports of the iOS screens.
use poligon.Base.{
  Bool, List, Option, Text, [], above, any, eqb, false, get, if◌then◌else◌, leb_ℤ, none, not, pos,
  put, remove, some, suc, true, zero, ℕ, ℤ, ◌&&◌, ◌+◌, ◌==◌, ◌||◌, ◌≡◌,
}

-- wdaProc: its ports, and whether it is more than a reservation. `for_udid` is the UDID for which the
-- ports were taken, that is the `--udid` of its processes.
pub record Proc : Type 0 where
  pub for_udid : Text
  pub wda_port : ℕ
  pub mjpeg_port : ℕ
  pub has_run : Bool

abbrev pub Procs : Type 0
Procs = List (Text × Proc)

abbrev pub holds_port : ℕ → Proc → Bool
holds_port n p = eqb n p.wda_port || eqb n p.mjpeg_port

-- The map `used`, before the first of the two ports is chosen.
abbrev pub is_used : ℕ → Procs → Bool
is_used n procs = any (λ x. holds_port n x.1) procs

-- The loop of freePort, for as many ports as are left; `none` where it finds none.
unfoldable pub first_free_port : ℕ → ℕ → (ℕ → Bool) → Option ℕ
first_free_port zero n is_free_port = none
first_free_port (suc f) n is_free_port =
    let rest = first_free_port f (n + 1) is_free_port in if is_free_port n then some n else rest

abbrev pub port_base : ℤ → ℕ
port_base z = if leb_ℤ z (pos 0) then 18100 else above z

-- freePort; a port is free if it is not used and can be listened on.
unfoldable pub free_port : ℤ → (ℕ → Bool) → (ℕ → Bool) → ℕ
free_port from used listens =
    elim (first_free_port 500 (port_base from) (λ n. not (used n) && listens n)) [
      | some n ↦ n
      | none ↦ port_base from
    ]

-- reservePorts, with the two ports of the configuration where the search begins.
unfoldable pub reserve_ports : ℤ → ℤ → (ℕ → Bool) → Text → Procs → Procs × ℕ × ℕ
reserve_ports wda_base mjpeg_base listens udid procs =
    let wda = free_port wda_base (λ n. is_used n procs) listens in
    let mjpeg = free_port mjpeg_base (λ n. eqb n wda || is_used n procs) listens in
    (
      put udid (record { for_udid = udid; wda_port = wda; mjpeg_port = mjpeg; has_run = false })
          procs,
      wda,
      mjpeg,
    )

-- releaseReservation
unfoldable pub release_reservation : Text → Procs → Procs
release_reservation udid procs = elim (get udid procs) [
  | none ↦ procs
  | some p ↦ if p.has_run then procs else remove udid procs
]

-- What stopWDA takes from the map.
unfoldable pub stop_wda : Text → Text → Procs → Procs
stop_wda i udid procs = remove udid (remove i procs)

-- startWDA, when the runner answers: the process with its ports is written, whatever stood there.
unfoldable pub screen_ready : Text → ℕ → ℕ → Procs → Procs
screen_ready udid wda mjpeg procs =
    put udid (record { for_udid = udid; wda_port = wda; mjpeg_port = mjpeg; has_run = true }) procs

-- adoptIOS gives the entry of the UDID a second key, the id of the device.
unfoldable pub rekey : Text → Text → Procs → Procs
rekey i udid procs = elim (get udid procs) [ none ↦ procs | some p ↦ put i p procs ]

abbrev pub is_found : Option ℕ → Bool
is_found none = false
is_found (some n) = true

-- Whether freePort finds two ports.
abbrev pub finds_ports : ℤ → ℤ → (ℕ → Bool) → Procs → Bool
finds_ports wda_base mjpeg_base listens procs =
    let wda = free_port wda_base (λ n. is_used n procs) listens in
    is_found (first_free_port 500 (port_base wda_base) (λ n. not (is_used n procs) && listens n))
    && is_found (
        first_free_port 500 (port_base mjpeg_base)
          (λ n. not (eqb n wda || is_used n procs) && listens n))

-- The ports that startWDA has reserved are still those of the phone.
abbrev pub keeps_ports : Text → ℕ → ℕ → Procs → Bool
keeps_ports udid wda mjpeg procs = elim (get udid procs) [
  | none ↦ false
  | some p ↦ p.for_udid == udid && eqb p.wda_port wda && eqb p.mjpeg_port mjpeg
]

-- What happens to the map under its lock, in any order: startWDA reserves and then either is ready or
-- gives its reservation back; stopWDA, adoptIOS and the end of the manager are the others. Two
-- steps have a condition on what happened before: freePort found two ports, and a screen that is
-- ready has its reservation still.
pub data PortStep : Procs → Procs → Type 0 where
  ports_reserved :
      {a b : Procs} (wda_base mjpeg_base : ℤ) (listens : ℕ → Bool) (udid : Text)
      → finds_ports wda_base mjpeg_base listens a ≡ true
      → b ≡ (reserve_ports wda_base mjpeg_base listens udid a).0
      → PortStep a b
  screen_starts :
      {a b : Procs} (udid : Text) (wda mjpeg : ℕ)
      → keeps_ports udid wda mjpeg a ≡ true
      → b ≡ screen_ready udid wda mjpeg a
      → PortStep a b
  start_fails : {a b : Procs} (udid : Text) → b ≡ release_reservation udid a → PortStep a b
  screen_stops : {a b : Procs} (i udid : Text) → b ≡ stop_wda i udid a → PortStep a b
  screen_renamed : {a b : Procs} (i udid : Text) → b ≡ rekey i udid a → PortStep a b
  all_stopped : {a b : Procs} → b ≡ [] → PortStep a b

pub data PortsReached : Procs → Type 0 where
  no_screens : PortsReached []
  then_step : {a b : Procs} → PortsReached a → PortStep a b → PortsReached b
