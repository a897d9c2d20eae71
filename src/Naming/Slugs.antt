-- ===== src/Naming/Slugs.antt =====
-- The shape of what Slug returns.
use poligon.Base.{
  Bool, List, Text, [], ap, arith, codes, eqb, false, if◌then◌else◌, is_empty, map, not, refl, true,
  ◌&&◌, ◌||◌, ◌∙◌, ◌∷◌, ◌≡◌,
}
use poligon.Naming.{collapse, dash, is_slug_byte, join, slug, to_lower, trim_left, trim_right}

-- Slug bytes and dashes, no two dashes together; the flag says that a dash stands before.
abbrev dashed : Bool → Text → Bool
dashed after [] = true
dashed after (c ∷ s) =
    let more = dashed false s in
    let ended = dashed true s in if is_slug_byte c then more else (eqb c dash && not after && ended)

-- The same, and the last byte is no dash.
abbrev well_formed : Bool → Text → Bool
well_formed after [] = not after
well_formed after (c ∷ s) =
    let more = well_formed false s in
    let ended = well_formed true s in
    if is_slug_byte c then more else (eqb c dash && not after && ended)

-- Not empty, only a-z, 0-9 and dashes, no dash at either end and no two dashes together.
abbrev pub is_slug : Text → Bool
is_slug s = well_formed true s

collapse-dashed : (run : Bool) (s : Text) → dashed run (collapse run s) ≡ true
unfolding collapse
collapse-dashed run [] = refl
collapse-dashed run (c ∷ s) = ground (arith, collapse-dashed false s, collapse-dashed true s)

trim_left-dashed :
    (after : Bool) (s : Text) → dashed after s ≡ true → dashed true (trim_left s) ≡ true
unfolding trim_left is_slug_byte
trim_left-dashed after [] h = refl
trim_left-dashed after (c ∷ s) h = ground (arith, trim_left-dashed true s, trim_left-dashed false s)

trim_right-well_formed :
    (after : Bool) (s : Text)
    → dashed after s ≡ true
    → (is_empty (trim_right s) || well_formed after (trim_right s)) ≡ true
unfolding trim_right is_slug_byte
trim_right-well_formed after [] h = refl
trim_right-well_formed after (c ∷ s) h =
    ground (arith, trim_right-well_formed true s, trim_right-well_formed false s)

device_slug : is_slug (codes "device") ≡ true
unfolding is_slug_byte
device_slug = refl

-- Slug returns a text of the letters a-z, digits and dashes that is not empty, neither begins nor
-- ends with a dash and has no two dashes together.
slug-is_slug : (parts : List Text) → is_slug (slug parts) ≡ true
unfolding slug
slug-is_slug parts =
    let s = map to_lower (join (dash ∷ []) parts) in
    let cut = trim_left (collapse false s) in
    ground (
      arith,
      device_slug,
      trim_right-well_formed true cut
          (trim_left-dashed false (collapse false s) (collapse-dashed false s)),
    )

lower-fixed : (after : Bool) (s : Text) → well_formed after s ≡ true → map to_lower s ≡ s
unfolding to_lower is_slug_byte
lower-fixed after [] h = refl
lower-fixed after (c ∷ s) h = ground (arith, lower-fixed false s, lower-fixed true s)

collapse-fixed : (after : Bool) (s : Text) → well_formed after s ≡ true → collapse after s ≡ s
unfolding collapse is_slug_byte
collapse-fixed after [] h = refl
collapse-fixed after (c ∷ s) h = ground (arith, collapse-fixed false s, collapse-fixed true s)

collapse-fixed_open : (s : Text) → well_formed true s ≡ true → collapse false s ≡ s
unfolding collapse is_slug_byte
collapse-fixed_open [] h = refl
collapse-fixed_open (c ∷ s) h = ground (arith, collapse-fixed false s)

trim_left-fixed : (s : Text) → well_formed true s ≡ true → trim_left s ≡ s
unfolding trim_left is_slug_byte
trim_left-fixed [] h = refl
trim_left-fixed (c ∷ s) h = ground arith

trim_right-fixed : (after : Bool) (s : Text) → well_formed after s ≡ true → trim_right s ≡ s
unfolding trim_right is_slug_byte
trim_right-fixed after [] h = refl
trim_right-fixed after (c ∷ s) h = ground (arith, trim_right-fixed false s, trim_right-fixed true s)

slug-fixed : (s : Text) → is_slug s ≡ true → slug (s ∷ []) ≡ s
unfolding slug
slug-fixed [] h = absurd (ground arith)
slug-fixed (c ∷ r) h = chosen (trim_right (trim_left (collapse false (map to_lower (c ∷ r))))) (
    ap (λ x. trim_right (trim_left (collapse false x))) (lower-fixed true (c ∷ r) h)
    ∙ ap (λ x. trim_right (trim_left x)) (collapse-fixed_open (c ∷ r) h)
    ∙ ap trim_right (trim_left-fixed (c ∷ r) h)
    ∙ trim_right-fixed true (c ∷ r) h)
  where
    chosen : (x : Text) → x ≡ c ∷ r → (if is_empty x then codes "device" else x) ≡ c ∷ r
    chosen x e = rw e

-- A slug is its own slug, so an id built from one part is stable under Slug.
slug-idempotent : (parts : List Text) → slug (slug parts ∷ []) ≡ slug parts
slug-idempotent parts = slug-fixed (slug parts) (slug-is_slug parts)
