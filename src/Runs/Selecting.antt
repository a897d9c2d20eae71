-- ===== src/Runs/Selecting.antt =====
-- internal/api/runs.go: selectDevices, which finds free devices for a run.
use mathlib.Core.List.{append_assoc}
use poligon.Base.{
  Bool, Bool-cases, List, Option, Text, [], above, arith, atoi, codes, eqb, if◌then◌else◌, inl, inr,
  is_empty, leb, leb_ℤ, length, length-append, ltb_ℤ, map, mem, negsuc, none, not, pos, refl,
  select, some, suc, true, zero, ℕ, ℤ, ◌&&◌, ◌++◌, ◌+◌, ◌-◌, ◌<◌, ◌==◌, ◌||◌, ◌∷◌, ◌≡◌,
}
use poligon.Model.{Device, Platform, android, ios}
use poligon.Reserve.Booking.{is_free}
use poligon.Store.{Db}
use poligon.Store.Devices.{all_devices}
use poligon.Store.Listing.{first_rows}

abbrev pub platform_name : Platform → Text
platform_name android = codes "android"
platform_name ios = codes "ios"

abbrev pub is_wanted : Text → Text → Device → Bool
is_wanted platform tag d =
    d.adopted
    && is_free d.status
    && (is_empty platform || platform_name d.platform == platform)
    && (is_empty tag || mem tag d.tags)

-- The loop over the devices, with the ids that are picked so far.
unfoldable pub pick_devices : Text → Text → ℕ → List Device → List Text → Option (List Text)
pick_devices platform tag n [] picked = none
pick_devices platform tag n (d ∷ ds) picked =
    let skip = pick_devices platform tag n ds picked in
    let more = picked ++ d.id ∷ [] in
    let next = pick_devices platform tag n ds more in
    if not (is_wanted platform tag d) then skip else if eqb (length more) n then some more else next

unfoldable pub select_devices : Text → Text → Text → Db → Option (List Text)
unfolding pick_devices
select_devices platform tag count db = elim (atoi count) [
  | none ↦ none
  | some n ↦
      if ltb_ℤ n (pos 1) then none else pick_devices platform tag (above n) (all_devices db) []
]

abbrev pub wanted_ids : Text → Text → List Device → List Text
wanted_ids platform tag ds = map (λ d. d.id) (select (is_wanted platform tag) ds)

first_rows_pos {ℓ} :
    {A : Type ℓ} (n : ℕ) (x : A) (xs : List A)
    → 0 < n
    → first_rows n (x ∷ xs) ≡ x ∷ first_rows (n - 1) xs
first_rows_pos zero x xs h = absurd (omega arith)
first_rows_pos (suc n) x xs h = let e : suc n - 1 ≡ n = omega arith in rw e

-- One device more: either it completes the number, or the rest has to.
picked_one :
    (n : ℕ) (i : Text) (picked ids : List Text) (rest : Option (List Text))
    → length picked < n
    → (length (picked ++ i ∷ []) < n
        → rest ≡ (
            if leb n (length (picked ++ i ∷ []) + length ids)
            then some ((picked ++ i ∷ []) ++ first_rows (n - length (picked ++ i ∷ [])) ids)
            else none))
    → (if eqb (length (picked ++ i ∷ [])) n then some (picked ++ i ∷ []) else rest) ≡ (
        if leb n (length picked + suc (length ids))
        then some (picked ++ first_rows (n - length picked) (i ∷ ids))
        else none)
picked_one n i picked ids rest h ih =
    let L : length (picked ++ i ∷ []) ≡ length picked + 1 = length-append picked (i ∷ []) in
    let k = n - length picked - 1 in
    let left : n - length (picked ++ i ∷ []) ≡ k = omega (arith, L) in
    let more : (picked ++ i ∷ []) ++ first_rows k ids ≡ picked ++ (i ∷ first_rows k ids) =
      append_assoc picked (i ∷ []) (first_rows k ids) in
    rw (first_rows_pos (n - length picked) i ids (omega arith))
      (elim (Bool-cases (eqb (length (picked ++ i ∷ [])) n)) [
        | inl e ↦
            let none_left : k ≡ 0 = ground arith in
            let all_taken : leb n (length picked + suc (length ids)) ≡ true = ground arith in
            rw (e, none_left, all_taken)
        | inr e ↦
            let some_left : length (picked ++ i ∷ []) < n = ground arith in
            let total : length (picked ++ i ∷ []) + length ids ≡ length picked + suc (length ids) =
              omega (arith, L) in
            rw (e, ih some_left, left, more, total)
      ])

pick_devices_lem :
    (platform tag : Text) (n : ℕ) (ds : List Device) (picked : List Text)
    → length picked < n
    → pick_devices platform tag n ds picked ≡ (
        if leb n (length picked + length (wanted_ids platform tag ds))
        then some (picked ++ first_rows (n - length picked) (wanted_ids platform tag ds))
        else none)
unfolding pick_devices
pick_devices_lem platform tag n [] picked h = ground arith
pick_devices_lem platform tag n (d ∷ ds) picked h = elim (Bool-cases (is_wanted platform tag d)) [
  | inl w ↦ rw w (
      picked_one n d.id picked (wanted_ids platform tag ds) _ h
        (λ k. pick_devices_lem platform tag n ds (picked ++ d.id ∷ []) k))
  | inr w ↦ rw w (pick_devices_lem platform tag n ds picked h)
]

abbrev pub first_wanted : Text → Text → Db → ℤ → Option (List Text)
first_wanted platform tag db n =
    let ids = wanted_ids platform tag (all_devices db) in
    if leb_ℤ (pos 1) n && leb (above n) (length ids) then some (first_rows (above n) ids) else none

number_first :
    (platform tag : Text) (db : Db) (n : ℤ)
    → (if ltb_ℤ n (pos 1) then none else pick_devices platform tag (above n) (all_devices db) [])
      ≡ first_wanted platform tag db n
number_first platform tag db (negsuc n) = ground arith
number_first platform tag db (pos zero) = refl
number_first platform tag db (pos (suc n)) =
    rw (pick_devices_lem platform tag (suc n) (all_devices db) [] (omega arith)) (ground arith)

-- selectDevices returns the first `count` of the adopted and free devices of the platform and the
-- tag, in the order of their ids. It fails exactly if the count is no positive integer or fewer
-- devices match. An empty platform or tag matches all.
pub select_devices-first :
    (platform tag count : Text) (db : Db)
    → select_devices platform tag count db
      ≡ (elim (atoi count) [ none ↦ none | some n ↦ first_wanted platform tag db n ])
unfolding select_devices
select_devices-first platform tag count db =
    elim (atoi count)
      as (λ o.
        (elim o [
          | none ↦ none
          | some n ↦
              if ltb_ℤ n (pos 1)
              then none
              else pick_devices platform tag (above n) (all_devices db) []
        ])
        ≡ (elim o [ none ↦ none | some n ↦ first_wanted platform tag db n ])) [
          | none ↦ refl
          | some n ↦ number_first platform tag db n
        ]
