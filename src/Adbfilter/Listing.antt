-- ===== src/Adbfilter/Listing.antt =====
-- The filtered device list, line by line.
use mathlib.Core.List.{append-nil, append_assoc}
use poligon.Adbfilter.{filter_device_list, newline, render, scan_lines, shows, strip_cr}
use poligon.Base.{
  Bool, List, Text, [], all, arith, eqb, not, refl, select, true, ℕ, ◌&&◌, ◌++◌, ◌∷◌, ◌≡◌,
}

abbrev pub is_plain_byte : ℕ → Bool
is_plain_byte c = not (eqb c newline) && not (eqb c b'\r')

-- No byte ends a line or is dropped from its end.
abbrev pub is_plain : Text → Bool
is_plain l = all is_plain_byte l

strip_cr-plain : (l : Text) → is_plain l ≡ true → strip_cr l ≡ l
unfolding strip_cr
strip_cr-plain [] h = refl
strip_cr-plain (c ∷ l) h = ground (arith, strip_cr-plain l)

all-concat :
    (l : Text) (c : ℕ) → all is_plain_byte (l ++ c ∷ []) ≡ (all is_plain_byte l && is_plain_byte c)
all-concat [] c = ground arith
all-concat (x ∷ l) c = ground (arith, all-concat l c)

-- The scanner over one rendered line.
scan_lines-line :
    (l line rest : Text)
    → is_plain line ≡ true
    → is_plain l ≡ true
    → scan_lines line (l ++ (newline ∷ rest)) ≡ (line ++ l) ∷ scan_lines [] rest
unfolding scan_lines
scan_lines-line [] line rest h k = ground (arith, strip_cr-plain line, append-nil line)
scan_lines-line (c ∷ l) line rest h k = ground (
  arith,
  scan_lines-line l (line ++ c ∷ []) rest,
  all-concat line c,
  append_assoc line (c ∷ []) l,
)

scan_lines-render : (ls : List Text) → all is_plain ls ≡ true → scan_lines [] (render ls) ≡ ls
unfolding render scan_lines
scan_lines-render [] h = refl
scan_lines-render (l ∷ ls) h =
    ground (arith, scan_lines-line l [] (render ls), scan_lines-render ls)

-- Lines of a payload without CR are plain.
scan_lines-plain :
    (s line : Text)
    → is_plain line ≡ true
    → all (λ c. not (eqb c b'\r')) s ≡ true
    → all is_plain (scan_lines line s) ≡ true
unfolding scan_lines
scan_lines-plain [] line h k = ground (arith, strip_cr-plain line h)
scan_lines-plain (c ∷ s) line h k = ground (
  arith,
  strip_cr-plain line h,
  scan_lines-plain s [] refl,
  scan_lines-plain s (line ++ c ∷ []),
  all-concat line c,
)

all-select : (p q : Text → Bool) (ls : List Text) → all q ls ≡ true → all q (select p ls) ≡ true
all-select p q [] h = refl
all-select p q (l ∷ ls) h = ground (arith, all-select p q ls)

-- The lines of the list that a client sees are exactly those lines of the server's list, in their
-- order, whose first field is a serial that the client may see. The server's list holds no CR.
pub filter_device_list-lines :
    (allowed : List Text) (payload : Text)
    → all (λ c. not (eqb c b'\r')) payload ≡ true
    → scan_lines [] (filter_device_list allowed payload)
      ≡ select (shows allowed) (scan_lines [] payload)
unfolding filter_device_list
filter_device_list-lines allowed payload h =
    scan_lines-render (select (shows allowed) (scan_lines [] payload)) (
      all-select (shows allowed) is_plain (scan_lines [] payload)
        (scan_lines-plain payload [] refl h))
