-- ===== src/Api/Install.antt =====
-- internal/api/batch.go: batchInstall. What an installation does on the device is an argument, and the
-- devices are handled one after the other.
use poligon.Base.{
  ==-refl, Bool, List, Option, Option-cases, Text, [], all, arith, false, find_first,
  find_first-true, find_first-update, if◌then◌else◌, inl, inr, is_empty, none, not, refl, some,
  true, ℕ, ◌==◌, ◌||◌, ◌∙◌, ◌∷◌, ◌≡◌,
}
use poligon.Devices.{Poller, is_flapping, reconcile}
use poligon.Devices.Reconcile.{reconcile-in_use}
use poligon.Model.{Device, DeviceStatus, Platform, busy, reserved}
use poligon.Paths.{FilePath}
use poligon.Reserve.{Manager, batch_devices, holder, in_use, release, reserve}
use poligon.Reserve.Booking.{is_available, succeeds-reserve}
use poligon.Reserve.Ending.{may_release, release-effect}
use poligon.Reserve.Rows.{IsUnique}
use poligon.Runs.Form.{Artifacts, Files, accept, add_uploads, refuse, same_platform}
use poligon.Store.{Db, Result-cases, err, ok, succeeds}
use poligon.Store.Devices.{device, device_lem, set_device_status}

pub data InstallStatus : Type 0 where
  install_ok install_skipped install_failed : InstallStatus

pub data InstallAnswer : Type 0 where
  install_results : ℕ → List (Text × InstallStatus) → InstallAnswer
  install_refused : ℕ → InstallAnswer

abbrev pub build_for : Platform → Artifacts → Option Text
build_for p [] = none
build_for p ((q, path) ∷ arts) =
    let rest = build_for p arts in if same_platform q p then some path else rest

-- The two ends of an installation.
unfoldable pub begin_install : Text → ℕ → Db → Db
unfolding set_device_status
begin_install i now db = set_device_status i busy now db

unfoldable pub end_install : Text → ℕ → Db → Db
unfolding set_device_status
end_install i now db = set_device_status i reserved now db

-- One device, with the times of the two ends.
unfoldable pub install_on :
    (Device → Text → Bool) → ℕ → ℕ → Artifacts → Text → Db → Db × InstallStatus
unfolding begin_install end_install
install_on installs start fin arts i db = elim (device i db) [
  | err _ ↦ (db, install_failed)
  | ok d ↦ elim (build_for d.platform arts) [
    | none ↦ (db, install_skipped)
    | some path ↦ (
      end_install i fin (begin_install i start db),
      if installs d path then install_ok else install_failed,
    )
  ]
]

unfoldable pub install_all :
    (Device → Text → Bool)
    → (Text → ℕ × ℕ)
    → Artifacts
    → List Text
    → Db
    → Db × List (Text × InstallStatus)
unfolding install_on
install_all installs times arts [] db = (db, [])
install_all installs times arts (i ∷ is) db =
    let (start, fin) = times i in
    let (db', st) = install_on installs start fin arts i db in
    let (db'', results) = install_all installs times arts is db' in (db'', (i, st) ∷ results)

abbrev pub is_install_ok : InstallStatus → Bool
is_install_ok install_ok = true
is_install_ok install_skipped = false
is_install_ok install_failed = false

abbrev pub install_code : List (Text × InstallStatus) → ℕ
install_code results = if all (λ x. is_install_ok x.1) results then 200 else 207

-- batchInstall, for the attached files, with whether the form can be read.
unfoldable pub batch_install :
    Files
    → FilePath
    → (Device → Text → Bool)
    → (Text → ℕ × ℕ)
    → Bool
    → List Text
    → Text
    → Text
    → Db
    → Db × InstallAnswer
unfolding install_all
batch_install files dir installs times parses names user batch db =
    elim (batch_devices batch user db) [
      | err _ ↦ (db, install_refused 403)
      | ok is ↦
          if not parses || is_empty names
          then (db, install_refused 400)
          else if not (files.disk.makes dir)
          then (db, install_refused 500)
          else elim (add_uploads files dir names []) [
            | refuse n ↦ (db, install_refused n)
            | accept arts ↦
                let (db', results) = install_all installs times arts is db in
                (db', install_results (install_code results) results)
          ]
    ]

-- The row of a device whose status was set.
set_status-device :
    (i : Text) (st : DeviceStatus) (now : ℕ) (db : Db) (d : Device)
    → device i (set_device_status i st now db) ≡ ok d
    → d.status ≡ st
unfolding set_device_status
set_status-device i st now db d e =
    let f = λ (x : Device). record x { status = st; last_seen = now } in
    let p = λ (x : Device). x.id == i in
    let updated = find_first-update p p f db.devices (λ x. refl) in
    let looked = device_lem i (set_device_status i st now db) in
    elim (Option-cases (find_first p db.devices)) [
      | inl none_there ↦ absurd (ground (arith, updated, looked))
      | inr (x, there) ↦ ground (arith, updated, looked, find_first-true p db.devices x there)
    ]

status_after :
    (i : Text) (now : ℕ) (db : Db) (d : Device)
    → device i (end_install i now db) ≡ ok d
    → d.status ≡ reserved
unfolding end_install
status_after i now db d e = set_status-device i reserved now db d e

unavailable_after : (i : Text) (now : ℕ) (db : Db) → is_available i (end_install i now db) ≡ false
unavailable_after i now db = elim (Result-cases (device i (end_install i now db))) [
  | inl (d, e) ↦ ground (arith, status_after i now db d e)
  | inr (x, e) ↦ ground arith
]

holder-end_install : (i : Text) (now : ℕ) (db : Db) → holder i (end_install i now db) ≡ holder i db
unfolding end_install holder
holder-end_install i now db = refl

released_during :
    (i user : Text) (admin : Bool) (start : ℕ) (db : Db)
    → IsUnique db
    → may_release i user admin db ≡ true
    → holder i (release i user admin (begin_install i start db)).0 ≡ none
unfolding begin_install holder
released_during i user admin start db unique may =
    (release-effect i user admin (begin_install i start db) unique).1 i ∙ rw (==-refl i, may)

-- A user who releases a device while batchInstall works on it leaves it, when the installation ends,
-- held by nobody and still reserved: nobody can book it, and no poll that sees the device changes
-- its status as long as the device does not flap. In the database no device has two active
-- reservations, and the release is one that is accepted.
pub release-during_install :
    (m : Manager) (i user : Text) (admin : Bool) (start fin : ℕ) (db : Db)
    → IsUnique db
    → may_release i user admin db ≡ true
    → let after = end_install i fin (release i user admin (begin_install i start db)).0 in
      (holder i after ≡ none)
      × ((now : ℕ) (batch u : Text) → succeeds (reserve m now batch i u after).1 ≡ false)
      × ((d : Device) (authorized held : Bool) (now : ℕ) (p : Poller)
          → device i after ≡ ok d
          → (is_flapping d.id true now p).0 ≡ false
          → (d.status ≡ reserved) × ((reconcile d true authorized held now p).0 ≡ reserved))
release-during_install m i user admin start fin db unique may =
    let db' = (release i user admin (begin_install i start db)).0 in
    (
      holder-end_install i fin db' ∙ released_during i user admin start db unique may,
      λ now batch u.
          succeeds-reserve m now batch i u (end_install i fin db')
          ∙ rw (unavailable_after i fin db'),
      λ d authorized held now p e no_flap.
          let st = status_after i fin db' d e in
          let used : in_use d.status ≡ true = ground (arith, st) in
          (st, (reconcile-in_use true authorized held now d p used no_flap).0 ∙ st),
    )
