-- ===== src/Config/Validate.antt =====
-- internal/config/config.go: which inventories validate accepts.
use poligon.Base.{
  ==-sym, ==_eq, Bool, Bool-cases, List, Option, Text, [], all, ap, arith, codes, false, inl, inr,
  is_empty, map, mem, none, not, refl, some, text_discrete, true, ℕ_discrete, ◌&&◌, ◌==◌, ◌||◌, ◌∙◌,
  ◌∷◌, ◌≡◌,
}
use poligon.Config.{ConfigError, DeviceSpec, check_platform, validate, validate_from}

abbrev pub is_addressed : DeviceSpec → Bool
is_addressed d =
    (d.platform == codes "android" && not (is_empty d.serial))
    || (d.platform == codes "ios" && not (is_empty d.udid))

abbrev pub are_distinct : List Text → Bool
are_distinct [] = true
are_distinct (i ∷ is) = not (mem i is) && are_distinct is

abbrev accepts : Option ConfigError → Bool
accepts none = true
accepts (some e) = false

-- Nothing is said of ids that were seen before.
abbrev is_fresh : List Text → DeviceSpec → Bool
is_fresh seen d = not (is_empty d.id) && not (mem d.id seen) && is_addressed d

no_two_platforms : (p : Text) → (p == codes "android" && p == codes "ios") ≡ false
unfolding text_discrete ℕ_discrete
no_two_platforms p = elim (Bool-cases (p == codes "android")) [
  | inl e ↦ rw (==_eq p (codes "android") e) refl
  | inr e ↦ rw e refl
]

accepts-check_platform : (d : DeviceSpec) → accepts (check_platform d) ≡ is_addressed d
accepts-check_platform d = ground (arith, no_two_platforms d.platform)

all-is_fresh :
    (i : Text) (seen : List Text) (ds : List DeviceSpec)
    → all (is_fresh (i ∷ seen)) ds ≡ (all (is_fresh seen) ds && not (mem i (map (λ d. d.id) ds)))
all-is_fresh i seen [] = refl
all-is_fresh i seen (d ∷ ds) = ground (arith, ==-sym i d.id, all-is_fresh i seen ds)

validate_from-accepts :
    (seen : List Text) (ds : List DeviceSpec)
    → accepts (validate_from seen ds)
      ≡ (all (is_fresh seen) ds && are_distinct (map (λ d. d.id) ds))
unfolding validate_from
validate_from-accepts seen [] = refl
validate_from-accepts seen (d ∷ ds) = ground (
  arith,
  accepts-check_platform d,
  all-is_fresh d.id seen ds,
  validate_from-accepts (d.id ∷ seen) ds,
)

all-is_fresh_none :
    (ds : List DeviceSpec)
    → all (is_fresh []) ds ≡ all (λ d. not (is_empty d.id) && is_addressed d) ds
all-is_fresh_none [] = refl
all-is_fresh_none (d ∷ ds) = ground (arith, all-is_fresh_none ds)

-- The inventory is accepted exactly if no id is empty, the ids are distinct, and every entry is for
-- Android with a serial or for iOS with a UDID.
pub validate-accepts :
    (ds : List DeviceSpec)
    → (elim (validate ds) [ none ↦ true | some _ ↦ false ])
      ≡ (all (λ d. not (is_empty d.id) && is_addressed d) ds && are_distinct (map (λ d. d.id) ds))
unfolding validate
validate-accepts ds =
    validate_from-accepts [] ds
    ∙ ap (λ b. b && are_distinct (map (λ d. d.id) ds)) (all-is_fresh_none ds)
