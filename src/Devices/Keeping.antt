-- ===== src/Devices/Keeping.antt =====
-- internal/devices/devices.go: the steps of a poll change no lease and adopt nothing.
use poligon.Base.{
  Bool, Bool-cases, List, Option, Text, [], any, any-append, any-select-true, any-update, arith,
  codes, false, inl, inr, mem, none, not, refl, some, sym, true, ℕ, ◌&&◌, ◌==◌, ◌||◌, ◌∙◌, ◌∷◌, ◌≡◌,
}
use poligon.Devices.{reconcile}
use poligon.Devices.Poll.{
  Connected, PollState, auto_device, auto_register_android, auto_register_ios, device_of,
  discover_android, discover_ios, is_pending, left_over, pending_id, presence, register_device,
  register_some, replace_row, same_status, see, shown_specs, shown_vendor, upgrade_pending, visit,
  visit_all,
}
use poligon.Model.{Device, DeviceStatus, Platform, Specs, android, auto, free, ios, unauthorized}
use poligon.Naming.{slug, unique_id}
use poligon.Reserve.{is_held}
use poligon.Store.{Db}
use poligon.Store.Devices.{create_auto_device, delete_device, no_specs, set_device_status}

abbrev pub is_adopted : Text → Db → Bool
is_adopted i db = any (λ d. d.id == i && d.adopted) db.devices

-- No lease changes, and nothing is adopted.
abbrev pub Keeps : Db → Db → Type 0
Keeps a b =
    (b.reservations ≡ a.reservations) × ((i : Text) → is_adopted i b ≡ true → is_adopted i a ≡ true)

pub Keeps-trans : (a b c : Db) → Keeps a b → Keeps b c → Keeps a c
Keeps-trans a b c p q = (q.0 ∙ p.0, λ i e. p.1 i (q.1 i e))

Keeps-same : (a : Db) → Keeps a a
Keeps-same a = (refl, λ i e. e)

set_status-Keeps :
    (i : Text) (st : DeviceStatus) (now : ℕ) (db : Db) → Keeps db (set_device_status i st now db)
unfolding set_device_status
set_status-Keeps i st now db = (
  refl,
  λ j e.
      sym (
        any-update (λ d. d.id == j && d.adopted) (λ d. d.id == j && d.adopted) (λ d. d.id == i)
          (λ d. record d { status = st; last_seen = now }) db.devices (λ d. ground arith))
      ∙ e,
)

create-Keeps : (d : Device) (db : Db) → d.adopted ≡ false → Keeps db (create_auto_device d db)
unfolding create_auto_device
create-Keeps d db fresh = (
  ground arith,
  λ j e. ground (
    arith,
    any-append (λ r. r.id == j && r.adopted) db.devices ((record d { source = auto }) ∷ []),
  ),
)

delete-Keeps : (i : Text) (db : Db) → Keeps db (left_over db (delete_device i db))
unfolding delete_device
delete-Keeps i db = (
  ground arith,
  λ j e.
      ground
        (arith, any-select-true (λ d. not (d.id == i)) (λ d. d.id == j && d.adopted) db.devices),
)

register_device-Keeps :
    (d : Device) (s : PollState) → d.adopted ≡ false → Keeps s.db (register_device d s).db
unfolding register_device
register_device-Keeps d s fresh = create-Keeps d s.db fresh

named-Keeps :
    (name : Option Text) (sp : Specs) (plat : Platform) (serial udid : Text) (now : ℕ)
    (s : PollState)
    → Keeps s.db
        (register_some (device_of name (λ i. auto_device i plat serial udid sp free now)) s).db
named-Keeps none sp plat serial udid now s = Keeps-same s.db
named-Keeps (some i) sp plat serial udid now s =
    register_device-Keeps (auto_device i plat serial udid sp free now) s refl

replace-Keeps :
    (i : Text) (d : Device) (s : PollState)
    → d.adopted ≡ false
    → Keeps s.db (replace_row i (some d) s).db
unfolding replace_row
replace-Keeps i d s fresh =
    let s' = register_device d s in
    Keeps-trans s.db s'.db (left_over s'.db (delete_device i s'.db))
      (register_device-Keeps d s fresh) (delete-Keeps i s'.db)

replace_named-Keeps :
    (old : Text) (name : Option Text) (sp : Specs) (plat : Platform) (serial udid : Text) (now : ℕ)
    (s : PollState)
    → Keeps s.db
        (replace_row old (device_of name (λ i. auto_device i plat serial udid sp free now)) s).db
unfolding replace_row
replace_named-Keeps old none sp plat serial udid now s = Keeps-same s.db
replace_named-Keeps old (some i) sp plat serial udid now s =
    replace-Keeps old (auto_device i plat serial udid sp free now) s refl

upgrade-Keeps :
    (con : Connected) (now : ℕ) (d : Device) (s : PollState)
    → Keeps s.db (upgrade_pending con now d s).db
unfolding upgrade_pending
upgrade-Keeps con now d s =
    replace_named-Keeps d.id
      (unique_id (slug (shown_vendor con d ∷ (shown_specs con d).model ∷ [])) s.taken_ids)
      (shown_specs con d) d.platform d.serial d.udid now s

see-Keeps :
    (con : Connected) (now : ℕ) (d : Device) (s : PollState) → Keeps s.db (see con now d s).db
unfolding see
see-Keeps con now d s =
    let next = reconcile d (presence con d).0 (presence con d).1 (is_held d.id s.db) now s.poller in
    elim (Bool-cases (not (same_status next.0 d.status) || (presence con d).0)) [
      | inl e ↦ rw (see, e) (set_status-Keeps d.id next.0 now s.db)
      | inr e ↦ rw (see, e) (Keeps-same s.db)
    ]

visit-Keeps :
    (con : Connected) (now : ℕ) (d : Device) (s : PollState) → Keeps s.db (visit con now d s).db
unfolding visit
visit-Keeps con now d s =
    let seen = see con now d s in
    elim (Bool-cases (is_pending d && (presence con d).1)) [
      | inl e ↦
          rw (visit, e)
            (Keeps-trans s.db seen.db (upgrade_pending con now d seen).db (see-Keeps con now d s)
              (upgrade-Keeps con now d seen))
      | inr e ↦ rw (visit, e) (see-Keeps con now d s)
    ]

pub visit_all-Keeps :
    (con : Connected) (now : ℕ) (ds : List Device) (s : PollState)
    → Keeps s.db (visit_all con now ds s).db
unfolding visit_all
visit_all-Keeps con now [] s = Keeps-same s.db
visit_all-Keeps con now (d ∷ ds) s =
    Keeps-trans s.db (visit con now d s).db (visit_all con now ds (visit con now d s)).db
      (visit-Keeps con now d s) (visit_all-Keeps con now ds (visit con now d s))

android-Keeps :
    (con : Connected) (now : ℕ) (serial : Text) (authorized : Bool) (s : PollState)
    → Keeps s.db (auto_register_android con now serial authorized s).db
unfolding auto_register_android
android-Keeps con now serial true s =
    named-Keeps
      (unique_id (slug ((con.adb_specs serial).manufacturer ∷ (con.adb_specs serial).model ∷ []))
        s.taken_ids)
      (con.adb_specs serial) android serial [] now s
android-Keeps con now serial false s =
    register_device-Keeps
      (auto_device (pending_id serial) android serial [] no_specs unauthorized now) s refl

ios-Keeps :
    (con : Connected) (now : ℕ) (udid : Text) (s : PollState)
    → Keeps s.db (auto_register_ios con now udid s).db
unfolding auto_register_ios
ios-Keeps con now udid s = elim (Bool-cases (con.ios_specs udid).1) [
  | inl e ↦
      rw (auto_register_ios, e)
        (named-Keeps
          (unique_id (slug (codes "apple" ∷ (con.ios_specs udid).0.model ∷ [])) s.taken_ids)
          (con.ios_specs udid).0 ios [] udid now s)
  | inr e ↦
      rw (auto_register_ios, e)
        (register_device-Keeps (auto_device (pending_id udid) ios [] udid no_specs unauthorized now)
          s refl)
]

pub discover_android-Keeps :
    (con : Connected) (now : ℕ) (rows : List (Text × Text)) (known : List Text) (s : PollState)
    → Keeps s.db (discover_android con now rows known s).db
unfolding discover_android
discover_android-Keeps con now [] known s = Keeps-same s.db
discover_android-Keeps con now ((serial, st) ∷ rest) known s =
    elim (Bool-cases (mem serial known || st == codes "offline")) [
      | inl e ↦ rw (discover_android, e) (discover_android-Keeps con now rest known s)
      | inr e ↦
          let s' = auto_register_android con now serial (st == codes "device") s in
          rw (discover_android, e)
            (Keeps-trans s.db s'.db (discover_android con now rest (serial ∷ known) s').db
              (android-Keeps con now serial (st == codes "device") s)
              (discover_android-Keeps con now rest (serial ∷ known) s'))
    ]

pub discover_ios-Keeps :
    (con : Connected) (now : ℕ) (rows known : List Text) (s : PollState)
    → Keeps s.db (discover_ios con now rows known s).db
unfolding discover_ios
discover_ios-Keeps con now [] known s = Keeps-same s.db
discover_ios-Keeps con now (udid ∷ rest) known s = elim (Bool-cases (mem udid known)) [
  | inl e ↦ rw (discover_ios, e) (discover_ios-Keeps con now rest known s)
  | inr e ↦
      let s' = auto_register_ios con now udid s in
      rw (discover_ios, e)
        (Keeps-trans s.db s'.db (discover_ios con now rest (udid ∷ known) s').db
          (ios-Keeps con now udid s) (discover_ios-Keeps con now rest (udid ∷ known) s'))
]
