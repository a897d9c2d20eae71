-- ===== src/Screen/Splitting.antt =====
-- internal/iosscreen/stream.go: what scanJPEGs finds in a buffer, and in a longer one.
use poligon.Base.{
  List, Option-cases, Text, [], ap, arith, inl, inr, length, length-append, none, refl, some, subst,
  suc, sym, zero, ℕ, ◌++◌, ◌<◌, ◌∙◌, ◌∷◌, ◌≡◌,
}
use poligon.Screen.Frames.{cut, eoi, jpeg, soi, split_frames}

-- The three cases of the loop.
pub cut-append :
    (m : ℕ) (s t : Text) {before behind : Text}
    → cut m s ≡ some (before, behind)
    → cut m (s ++ t) ≡ some (before, behind ++ t)
unfolding cut
cut-append m [] t h = cc
cut-append m (x ∷ []) t h = cc
cut-append m (x ∷ y ∷ s) t {before} {behind} h = elim (Option-cases (cut m (y ∷ s))) [
  | inl e ↦ ground (arith, e)
  | inr ((b, r), e) ↦ ground (arith, e, cut-append m (y ∷ s) t e)
]

pub length-cut :
    (m : ℕ) (s : Text) {before behind : Text}
    → cut m s ≡ some (before, behind)
    → length behind < length s
unfolding cut
length-cut m [] h = cc
length-cut m (x ∷ []) h = cc
length-cut m (x ∷ y ∷ s) h = elim (Option-cases (cut m (y ∷ s))) [
  | inl e ↦ ground (arith, e)
  | inr ((b, r), e) ↦ ground (arith, e, length-cut m (y ∷ s) e)
]

module _ (f : ℕ) (s : Text) where
  pub split_frames-none : cut soi s ≡ none → split_frames (suc f) s ≡ ([], s)
  unfolding split_frames
  split_frames-none e = rw (split_frames, e)

  pub split_frames_open :
      {b image : Text}
      → cut soi s ≡ some (b, image)
      → cut eoi image ≡ none
      → split_frames (suc f) s ≡ ([], 0xFF ∷ soi ∷ image)
  unfolding split_frames
  split_frames_open e e' = rw (split_frames, e, e')

  pub split_frames_image :
      {b image body rest : Text}
      → cut soi s ≡ some (b, image)
      → cut eoi image ≡ some (body, rest)
      → split_frames (suc f) s ≡ (jpeg body ∷ (split_frames f rest).0, (split_frames f rest).1)
  unfolding split_frames
  split_frames_image e e' = rw (split_frames, e, e')

-- Enough fuel is any that is more than the bytes.
split_frames-fuel :
    (f g : ℕ) (s : Text) → length s < f → length s < g → split_frames f s ≡ split_frames g s
split_frames-fuel zero g s p q = absurd (omega arith)
split_frames-fuel (suc f) zero s p q = absurd (omega arith)
split_frames-fuel (suc f) (suc g) s p q = elim (Option-cases (cut soi s)) [
  | inl e ↦ split_frames-none f s e ∙ sym (split_frames-none g s e)
  | inr ((b, image), e) ↦ elim (Option-cases (cut eoi image)) [
    | inl e' ↦ split_frames_open f s e e' ∙ sym (split_frames_open g s e e')
    | inr ((body, rest), e') ↦
        let shorter : length rest < length s =
          omega (arith, length-cut soi s e, length-cut eoi image e') in
        let same = split_frames-fuel f g rest (omega arith) (omega arith) in
        split_frames_image f s e e'
        ∙ ap (λ r. (jpeg body ∷ r.0, r.1)) same
        ∙ sym (split_frames_image g s e e')
  ]
]

-- The bytes before the image do not matter.
split_frames-same_image :
    (f g : ℕ) (s s' : Text) {b b' image : Text}
    → cut soi s ≡ some (b, image)
    → cut soi s' ≡ some (b', image)
    → length s < f
    → length s' < g
    → split_frames f s ≡ split_frames g s'
split_frames-same_image zero g s s' d e p q = absurd (omega arith)
split_frames-same_image (suc f) zero s s' d e p q = absurd (omega arith)
split_frames-same_image (suc f) (suc g) s s' {image = image} d e p q =
    elim (Option-cases (cut eoi image)) [
      | inl c ↦ split_frames_open f s d c ∙ sym (split_frames_open g s' e c)
      | inr ((body, rest), c) ↦
          let shorter : length rest < length image = length-cut eoi image c in
          let same =
            split_frames-fuel f g rest (omega (arith, length-cut soi s d))
              (omega (arith, length-cut soi s' e)) in
          split_frames_image f s d c
          ∙ ap (λ r. (jpeg body ∷ r.0, r.1)) same
          ∙ sym (split_frames_image g s' e c)
    ]

-- What was found before more bytes came, and what is found from the kept bytes on.
abbrev continue_frames : List Text × Text → ℕ → Text → List Text × Text
continue_frames found h t =
    let (more, kept) = split_frames h (found.1 ++ t) in (found.0 ++ more, kept)

pub cut-open : (image : Text) → cut soi (0xFF ∷ soi ∷ image) ≡ some ([], image)
unfolding cut
cut-open image = refl

-- The images of some bytes and more bytes: those of the first, then those of what was kept of them
-- with the others behind it.
pub split_frames-append :
    (f g h : ℕ) (s t : Text)
    → length s < f
    → length (s ++ t) < g
    → length ((split_frames f s).1 ++ t) < h
    → split_frames g (s ++ t) ≡ continue_frames (split_frames f s) h t
split_frames-append zero g h s t p q r = absurd (omega arith)
split_frames-append (suc f) zero h s t p q r = absurd (omega arith)
split_frames-append (suc f) (suc g) h s t p q r = elim (Option-cases (cut soi s)) [
  | inl e ↦
      let found = split_frames-none f s e in
      split_frames-fuel (suc g) h (s ++ t) q (subst (λ x. length (x.1 ++ t) < h) found r)
      ∙ ap (λ x. continue_frames x h t) (sym found)
  | inr ((b, image), e) ↦ elim (Option-cases (cut eoi image)) [
    | inl e' ↦
        let found = split_frames_open f s e e' in
        split_frames-same_image (suc g) h (s ++ t) (0xFF ∷ soi ∷ (image ++ t))
          (cut-append soi s t e) (cut-open (image ++ t)) q
          (subst (λ x. length (x.1 ++ t) < h) found r)
        ∙ ap (λ x. continue_frames x h t) (sym found)
    | inr ((body, rest), e') ↦
        let found = split_frames_image f s e e' in
        let shorter : length rest < length s =
          omega (arith, length-cut soi s e, length-cut eoi image e') in
        let ih =
          split_frames-append f g h rest t (omega arith)
            (omega (arith, length-append s t, length-append rest t))
            (subst (λ x. length (x.1 ++ t) < h) found r) in
        split_frames_image g (s ++ t) (cut-append soi s t e) (cut-append eoi image t e')
        ∙ ap (λ x. (jpeg body ∷ x.0, x.1)) ih
        ∙ ap (λ x. continue_frames x h t) (sym found)
  ]
]
