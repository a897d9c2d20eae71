-- ===== src/Naming/Unique.antt =====
-- UniqueID ends, with a name that is not used.
use poligon.Base.{
  Bool-cases, List, Text, [], ap, arith, false, inl, inr, length, ltb, mem, not, refl, select, some,
  suc, sym, true, zero, ℕ, ℕ_discrete, ◌%◌, ◌*◌, ◌++◌, ◌+◌, ◌-◌, ◌/◌, ◌<◌, ◌==◌, ◌∙◌, ◌∷◌, ◌≡◌, ◌≤◌,
  ◌⊎◌,
}
use poligon.Naming.{candidate, dash, decimal, digits_onto, search_id, unique_id}

digit_value : ℕ → ℕ
digit_value c = c - b'0'

-- The number that a text of digits stands for, after `acc`.
read_onto : ℕ → Text → ℕ
unfolding digit_value
read_onto acc [] = acc
read_onto acc (c ∷ s) = read_onto (acc * 10 + digit_value c) s

read_onto-digits :
    (f n : ℕ) (out : Text) → n < f → read_onto 0 (digits_onto f n out) ≡ read_onto n out
unfolding read_onto digits_onto
read_onto-digits zero n out h = elim h [ ]
read_onto-digits (suc f) n out h = elim (Bool-cases (ltb n 10)) [
  | inl small ↦ rw small (ap (λ k. read_onto k out) (omega arith))
  | inr big ↦ rw big (
      read_onto-digits f (n / 10) ((b'0' + n % 10) ∷ out) (ground arith)
      ∙ ap (λ k. read_onto k out) (omega arith))
]

decimal-injective : (m n : ℕ) → decimal m ≡ decimal n → m ≡ n
unfolding decimal read_onto
decimal-injective m n e =
    sym (read_onto-digits (m + 1) m [] (omega arith))
    ∙ ap (read_onto 0) e
    ∙ read_onto-digits (n + 1) n [] (omega arith)

append_cancel : (a b c : Text) → a ++ b ≡ a ++ c → b ≡ c
append_cancel [] b c e = e
append_cancel (x ∷ a) b c e = append_cancel a b c (ground arith)

pub candidate-injective : (base : Text) (m n : ℕ) → candidate base m ≡ candidate base n → m ≡ n
unfolding candidate
candidate-injective base m n e =
    decimal-injective m n
      (let t = append_cancel base (dash ∷ decimal m) (dash ∷ decimal n) e in ground arith)

without : Text → List Text → List Text
without c used = select (λ t. not (t == c)) used

length-without : (c : Text) (used : List Text) → length (without c used) ≤ length used
unfolding without
length-without c [] = omega arith
length-without c (t ∷ used) = ground (arith, length-without c used)

length-without-mem :
    (c : Text) (used : List Text) → mem c used ≡ true → length (without c used) < length used
unfolding without
length-without-mem c [] h = absurd (ground arith)
length-without-mem c (t ∷ used) h = ground (arith, length-without-mem c used, length-without c used)

mem-without :
    (c d : Text) (used : List Text) → (d == c) ≡ false → mem d (without c used) ≡ mem d used
unfolding without
mem-without c d [] h = refl
mem-without c d (t ∷ used) h = ground (arith, mem-without c d used h)

-- A candidate that the search has passed makes no difference to it.
search-without :
    (f : ℕ) (base : Text) (k i : ℕ) (used : List Text)
    → k < i
    → search_id f base i (without (candidate base k) used) ≡ search_id f base i used
unfolding search_id
search-without zero base k i used h = refl
search-without (suc f) base k i used h = ground (
  arith,
  mem-without (candidate base k) (candidate base i) used,
  candidate-injective base i k,
  search-without f base k (i + 1) used,
)

search-total :
    (f : ℕ) (base : Text) (i : ℕ) (used : List Text)
    → length used < f
    → (r : Text) × (search_id f base i used ≡ some r)
unfolding search_id
search-total zero base i used h = elim h [ ]
search-total (suc f) base i used h = elim (Bool-cases (mem (candidate base i) used)) [
  | inl hit ↦
      let fewer = length-without-mem (candidate base i) used hit in
      let (r, found) =
        search-total f base (i + 1) (without (candidate base i) used) (omega arith) in
      (r, rw hit (sym (search-without f base i (i + 1) used (omega arith)) ∙ found))
  | inr miss ↦ (candidate base i, rw miss)
]

-- The number `n` of the first candidate from `i` on that is not used.
pub record IsFirst (base : Text) (i n : ℕ) (used : List Text) : Type 0 where
  pub from_start : i ≤ n
  pub fresh : mem (candidate base n) used ≡ false
  pub earlier : (k : ℕ) → i ≤ k → k < n → mem (candidate base k) used ≡ true

search-IsFirst :
    (f : ℕ) (base : Text) (i : ℕ) (used : List Text) (r : Text)
    → search_id f base i used ≡ some r
    → (n : ℕ) × (r ≡ candidate base n) × IsFirst base i n used
unfolding search_id
search-IsFirst zero base i used r e = absurd (ground arith)
search-IsFirst (suc f) base i used r e = elim (Bool-cases (mem (candidate base i) used)) [
  | inl hit ↦
      let (n, named, first) = search-IsFirst f base (i + 1) used r (ground arith) in
      (
        n,
        named,
        record {
          from_start = omega (arith, first.from_start);
          fresh = first.fresh;
          earlier = λ k low high. elim (ℕ_discrete k i) [
            | yes same ↦ rw same hit
            | no other ↦ first.earlier k (omega arith) high
          ];
        },
      )
  | inr miss ↦ (
    i,
    ground arith,
    record { from_start = omega arith; fresh = miss; earlier = λ k low high. absurd (omega arith) },
  )
]

-- UniqueID always returns, and returns the base itself if that is not taken; otherwise the base
-- with the least number from 2 on that makes a name which is not taken.
pub unique_id-IsFirst :
    (base : Text) (used : List Text)
    → ((mem base used ≡ false) × (unique_id base used ≡ some base))
      ⊎ ((n : ℕ) × (mem base used ≡ true)
          × (unique_id base used ≡ some (candidate base n))
          × IsFirst base 2 n used)
unfolding unique_id
unique_id-IsFirst base used = elim (Bool-cases (mem base used)) [
  | inl hit ↦
      let (r, found) = search-total (length used + 1) base 2 used (omega arith) in
      let (n, named, first) = search-IsFirst (length used + 1) base 2 used r found in
      inr (n, hit, rw (hit, unique_id) (found ∙ ap some named), first)
  | inr miss ↦ inl (miss, rw (miss, unique_id))
]
