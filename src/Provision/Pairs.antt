-- ===== src/Provision/Pairs.antt =====
-- internal/provision: no two screens get the same port.
use poligon.Base.{Bool, Text, eqb, false, get, some, true, ◌||◌, ◌≡◌}
use poligon.Provision.Ports.{Proc, Procs, holds_port}

-- Whether two pairs have a port in common.
abbrev pub share : Proc → Proc → Bool
share p q = holds_port p.wda_port q || holds_port p.mjpeg_port q

-- Of one phone, with the same pair of ports.
abbrev pub Same : Proc → Proc → Type 0
Same p q = (p.for_udid ≡ q.for_udid) × (p.wda_port ≡ q.wda_port) × (p.mjpeg_port ≡ q.mjpeg_port)

-- Entries with a common port are of the same phone and have the same pair, and a pair has two ports.
pub record IsDistinct (procs : Procs) : Type 0 where
  pub whole :
      (i j : Text) (p q : Proc)
      → get i procs ≡ some p
      → get j procs ≡ some q
      → share p q ≡ true
      → Same p q
  pub paired : (i : Text) (p : Proc) → get i procs ≡ some p → eqb p.wda_port p.mjpeg_port ≡ false

-- A pair of fresh ports, or of those that an entry has already.
abbrev Fits : Proc → Procs → Type 0
Fits p procs =
    (eqb p.wda_port p.mjpeg_port ≡ false)
    × ((j : Text) (q : Proc) → get j procs ≡ some q → share p q ≡ true → Same p q)
