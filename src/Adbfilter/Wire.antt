-- ===== src/Adbfilter/Wire.antt =====
-- readMsg against writeMsg.
use poligon.Adbfilter.{hex4, hex_digit, high_hex, parse_digit, read_full, read_msg, write_msg}
use poligon.Base.{
  Text, [], arith, length, refl, some, suc, zero, ℕ, ◌%◌, ◌*◌, ◌++◌, ◌+◌, ◌/◌, ◌<◌, ◌∙◌, ◌∷◌, ◌≡◌,
}

parse_digit-hex_digit : (d : ℕ) → d < 16 → parse_digit (hex_digit d) ≡ some d
unfolding parse_digit hex_digit
parse_digit-hex_digit d h = ground arith

read_full-append : (s rest : Text) → read_full (length s) (s ++ rest) ≡ some (s, rest)
unfolding read_full
read_full-append [] rest = refl
read_full-append (c ∷ s) rest = ground (arith, read_full-append s rest)

read_msg-digits :
    (n a b c d : ℕ) (s : Text)
    → a < 16
    → b < 16
    → c < 16
    → d < 16
    → a * 4096 + b * 256 + c * 16 + d ≡ n
    → read_msg (hex_digit a ∷ hex_digit b ∷ hex_digit c ∷ hex_digit d ∷ s) ≡ read_full n s
unfolding read_msg
read_msg-digits n a b c d s ha hb hc hd e = ground (
  arith,
  parse_digit-hex_digit a ha,
  parse_digit-hex_digit b hb,
  parse_digit-hex_digit c hc,
  parse_digit-hex_digit d hd,
)

high_hex-zero : (f : ℕ) (out : Text) → high_hex f 0 out ≡ out
unfolding high_hex
high_hex-zero zero out = refl
high_hex-zero (suc f) out = refl

hex4-short :
    (n : ℕ)
    → n < 65536
    → hex4 n
      ≡ hex_digit (n / 4096 % 16)
        ∷ hex_digit (n / 256 % 16)
        ∷ hex_digit (n / 16 % 16)
        ∷ hex_digit (n % 16)
        ∷ []
unfolding hex4
hex4-short n h = let e : n / 65536 ≡ 0 = omega arith in rw e (high_hex-zero n _)

-- A message of fewer than 65536 bytes is read back as it was written, and what follows it is left.
pub read_msg-write_msg :
    (s rest : Text) → length s < 65536 → read_msg (write_msg s ++ rest) ≡ some (s, rest)
unfolding write_msg
read_msg-write_msg s rest h =
    let n = length s in
    rw (write_msg, hex4-short n h)
      (read_msg-digits n (n / 4096 % 16) (n / 256 % 16) (n / 16 % 16) (n % 16) (s ++ rest)
          (omega arith) (omega arith) (omega arith) (omega arith) (omega arith)
        ∙ read_full-append s rest)
