-- ===== src/Naming.antt =====
-- internal/naming/naming.go. `strings.ToLower` is modelled on ASCII: the two letters outside ASCII
-- whose lower case is in ASCII (U+0130, U+212A) are left aside, and every other byte above 127 is
-- a separator either way.
pub mod Unique
pub mod Slugs
use poligon.Base.{
  Bool, List, Option, Text, [], codes, eqb, false, if◌then◌else◌, is_empty, leb, length, ltb, map,
  mem, none, not, some, suc, true, zero, ℕ, ◌%◌, ◌&&◌, ◌++◌, ◌+◌, ◌/◌, ◌||◌, ◌∷◌,
}
use poligon.Model.{skipped}

abbrev pub dash : ℕ
dash = b'-'

unfoldable pub to_lower : ℕ → ℕ
to_lower c = if leb b'A' c && leb c b'Z' then c + 32 else c

-- The complement of the class that slugRe matches.
unfoldable pub is_slug_byte : ℕ → Bool
is_slug_byte c = (leb b'a' c && leb c b'z') || (leb b'0' c && leb c b'9')

unfoldable pub join : Text → List Text → Text
join sep [] = []
join sep (x ∷ []) = x
join sep (x ∷ y ∷ r) = x ++ (sep ++ join sep (y ∷ r))

-- slugRe.ReplaceAllString(s, "-"): one dash for each run; the flag says that a run is open.
unfoldable pub collapse : Bool → Text → Text
unfolding is_slug_byte
collapse run [] = []
collapse run (c ∷ s) =
    let kept = c ∷ collapse false s in
    let skipped = collapse true s in
    if is_slug_byte c then kept else if run then skipped else dash ∷ skipped

-- strings.Trim(s, "-")
unfoldable pub trim_left : Text → Text
trim_left [] = []
trim_left (c ∷ s) = let rest = trim_left s in if eqb c dash then rest else c ∷ s

unfoldable pub trim_right : Text → Text
trim_right [] = []
trim_right (c ∷ s) = let rest = trim_right s in if eqb c dash && is_empty rest then [] else c ∷ rest

unfoldable pub slug : List Text → Text
unfolding join collapse trim_left trim_right to_lower
slug parts =
    let s = trim_right (trim_left (collapse false (map to_lower (join (dash ∷ []) parts)))) in
    if is_empty s then codes "device" else s

-- The first eight bytes.
unfoldable pub take : ℕ → Text → Text
take zero s = []
take (suc n) [] = []
take (suc n) (c ∷ s) = c ∷ take n s

unfoldable pub short_serial : Text → Text
unfolding take
short_serial s = if ltb 8 (length s) then take 8 s else s

-- fmt's %d, in front of what is written already; the fuel bounds the number of digits.
unfoldable pub digits_onto : ℕ → ℕ → Text → Text
digits_onto zero n out = out
digits_onto (suc f) n out =
    let rest = digits_onto f (n / 10) ((b'0' + n % 10) ∷ out) in
    if ltb n 10 then (b'0' + n) ∷ out else rest

unfoldable pub decimal : ℕ → Text
unfolding digits_onto
decimal n = digits_onto (n + 1) n []

unfoldable pub candidate : Text → ℕ → Text
unfolding decimal
candidate base i = base ++ (dash ∷ decimal i)

-- for i := 2; ; i++
unfoldable pub search_id : ℕ → Text → ℕ → List Text → Option Text
search_id zero base i used = none
search_id (suc f) base i used =
    let rest = search_id f base (i + 1) used in
    if not (mem (candidate base i) used) then some (candidate base i) else rest

-- `none` stands for a loop that did not end.
unfoldable pub unique_id : Text → List Text → Option Text
unfolding search_id candidate
unique_id base used =
    if not (mem base used) then some base else search_id (length used + 1) base 2 used
