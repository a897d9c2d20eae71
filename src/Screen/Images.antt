-- ===== src/Screen/Images.antt =====
-- internal/iosscreen/stream.go: what scanJPEGs publishes.
use poligon.Base.{
  All, Bool-cases, List, Option-cases, Text, [], arith, eqb, false, inl, inr, length, none, refl,
  some, suc, zero, ℕ, ◌&&◌, ◌++◌, ◌+◌, ◌∷◌, ◌≡◌, ◌≤◌,
}
use poligon.Screen.Frames.{bounded, cut, drain, eoi, jpeg, max_frame, scan, soi, split_frames}

-- One byte more in front, which makes no marker.
cut-cons_none :
    (m x y : ℕ) (s b r : Text)
    → (eqb x 0xFF && eqb y m) ≡ false
    → (y ∷ s) ≡ b ++ 0xFF ∷ m ∷ r
    → cut m b ≡ none
    → cut m (x ∷ b) ≡ none
unfolding cut
cut-cons_none m x y s [] r p q h = refl
cut-cons_none m x y s (y' ∷ b) r p q h = let same : y' ≡ y = ground arith in ground arith

-- `cut` finds the first place of its marker.
cut-parts :
    (m : ℕ) (s : Text) {before behind : Text}
    → cut m s ≡ some (before, behind)
    → (s ≡ before ++ 0xFF ∷ m ∷ behind) × (cut m before ≡ none)
unfolding cut
cut-parts m [] h = cc
cut-parts m (x ∷ []) h = cc
cut-parts m (x ∷ y ∷ s) {before} {behind} h = elim (Bool-cases (eqb x 0xFF && eqb y m)) [
  | inl here ↦ ground arith
  | inr on ↦ elim (Option-cases (cut m (y ∷ s))) [
    | inl e ↦ absurd (ground (arith, e))
    | inr ((b, r), e) ↦
        let (whole, first) = cut-parts m (y ∷ s) e in
        let split : before ≡ x ∷ b = ground (arith, e) in
        let last : behind ≡ r = ground (arith, e) in
        (ground (arith, whole), rw split (cut-cons_none m x y s b r on whole first))
  ]
]

-- A JPEG from its first marker to the first end marker behind it.
abbrev IsImage : Text → Type 0
IsImage image = (body : Text) × (image ≡ jpeg body) × (cut eoi body ≡ none)

split_frames-IsImage : (f : ℕ) (s : Text) → All IsImage (split_frames f s).0
unfolding split_frames
split_frames-IsImage zero s = tt
split_frames-IsImage (suc f) s = elim (Option-cases (cut soi s)) [
  | inl e ↦ rw (split_frames, e) tt
  | inr ((b, image), e) ↦ elim (Option-cases (cut eoi image)) [
    | inl e' ↦ rw (split_frames, e, e') tt
    | inr ((body, rest), e') ↦
        rw (split_frames, e, e')
          ((body, refl, (cut-parts eoi image e').1), split_frames-IsImage f rest)
  ]
]

All-append {ℓ κ} :
    {A : Type ℓ} (P : A → Type κ) (xs ys : List A) → All P xs → All P ys → All P (xs ++ ys)
All-append P [] ys p q = q
All-append P (x ∷ xs) ys p q = (p.0, All-append P xs ys p.1 q)

-- Whatever bytes a connection delivers, in whatever chunks, each image that is published starts with
-- the start marker, ends with the end marker, and has no end marker in between.
scan-IsImage : (cs : List Text) (buf : Text) → All IsImage (scan cs buf)
unfolding scan drain
scan-IsImage [] buf = tt
scan-IsImage (c ∷ cs) buf =
    All-append IsImage (drain (buf ++ c)).0 (scan cs (drain (buf ++ c)).1)
      (split_frames-IsImage (length (buf ++ c) + 1) (buf ++ c))
      (scan-IsImage cs (drain (buf ++ c)).1)

-- The buffer behind the chunks of a connection.
unfoldable buffer : List Text → Text → Text
buffer [] buf = buf
buffer (c ∷ cs) buf = buffer cs (drain (buf ++ c)).1

-- Whatever a connection delivers, the buffer that waits for the next chunk never holds more than
-- `max_frame` bytes.
buffer-le :
    (cs : List Text) (buf : Text) → length buf ≤ max_frame → length (buffer cs buf) ≤ max_frame
unfolding buffer drain bounded
buffer-le [] buf h = h
buffer-le (c ∷ cs) buf h = buffer-le cs (drain (buf ++ c)).1 (ground arith)
