-- ===== src/Screen/Chunks.antt =====
-- internal/iosscreen/stream.go: scanJPEGs does not depend on how the bytes arrive.
use mathlib.Core.List.{append-nil, append_assoc}
use poligon.Base.{
  List, Option-cases, Text, [], ap, arith, inl, inr, length, refl, subst, suc, sym, zero, ℕ, ◌++◌,
  ◌+◌, ◌<◌, ◌∙◌, ◌∷◌, ◌≡◌, ◌≤◌,
}
use poligon.Screen.Frames.{bounded, cut, drain, eoi, max_frame, scan, soi, split_frames}
use poligon.Screen.Splitting.{
  cut-open, length-cut, split_frames-append, split_frames_image, split_frames-none,
  split_frames_open,
}

-- The images of a byte stream.
unfoldable pub images : Text → List Text
images s = (split_frames (length s + 1) s).0

abbrev pub concat : List Text → Text
concat [] = []
concat (c ∷ cs) = c ++ concat cs

-- The bytes that wait for a marker after each chunk are at most `max_frame`.
abbrev pub Fits : List Text → Text → Type 0
Fits [] buf = Unit
Fits (c ∷ cs) buf =
    let kept = (split_frames (length (buf ++ c) + 1) (buf ++ c)).1 in
    (length kept ≤ max_frame) × Fits cs kept

-- The kept bytes hold no complete image.
split_frames-kept :
    (f g : ℕ) (s : Text)
    → length s < f
    → length (split_frames f s).1 < g
    → (split_frames g (split_frames f s).1).0 ≡ []
split_frames-kept zero g s p q = absurd (omega arith)
split_frames-kept (suc f) zero s p q = absurd (omega arith)
split_frames-kept (suc f) (suc g) s p q = elim (Option-cases (cut soi s)) [
  | inl e ↦
      let found = split_frames-none f s e in
      ap (λ x. (split_frames (suc g) x.1).0) found ∙ ap (λ x. x.0) (split_frames-none g s e)
  | inr ((b, image), e) ↦ elim (Option-cases (cut eoi image)) [
    | inl e' ↦
        let found = split_frames_open f s e e' in
        ap (λ x. (split_frames (suc g) x.1).0) found
        ∙ ap (λ x. x.0) (split_frames_open g (0xFF ∷ soi ∷ image) (cut-open image) e')
    | inr ((body, rest), e') ↦
        let found = split_frames_image f s e e' in
        let shorter : length rest < length s =
          omega (arith, length-cut soi s e, length-cut eoi image e') in
        ap (λ x. (split_frames (suc g) x.1).0) found
        ∙ split_frames-kept f (suc g) rest (omega arith) (subst (λ x. length x.1 < suc g) found q)
  ]
]

module _ (buf c : Text) where
  abbrev found : List Text × Text
  found = split_frames (length (buf ++ c) + 1) (buf ++ c)

  bounded-fits : length found.1 ≤ max_frame → drain (buf ++ c) ≡ found
  unfolding drain bounded
  bounded-fits h = ground arith

  images-append : (t : Text) → images (buf ++ (c ++ t)) ≡ found.0 ++ images (found.1 ++ t)
  unfolding images
  images-append t =
      ap (λ x. (split_frames (length x + 1) x).0) (sym (append_assoc buf c t))
      ∙ ap (λ x. x.0)
          (split_frames-append (length (buf ++ c) + 1) (length ((buf ++ c) ++ t) + 1)
            (length (found.1 ++ t) + 1) (buf ++ c) t (omega arith) (omega arith) (omega arith))

  images-kept : images found.1 ≡ []
  unfolding images
  images-kept =
      split_frames-kept (length (buf ++ c) + 1) (length found.1 + 1) (buf ++ c) (omega arith)
        (omega arith)

scan-images_from :
    (cs : List Text) (buf : Text)
    → images buf ≡ []
    → Fits cs buf
    → scan cs buf ≡ images (buf ++ concat cs)
unfolding scan
scan-images_from [] buf quiet fits = sym (ap images (append-nil buf) ∙ quiet)
scan-images_from (c ∷ cs) buf quiet fits =
    ap (λ r. r.0 ++ scan cs r.1) (bounded-fits buf c fits.0)
    ∙ ap (λ r. (found buf c).0 ++ r)
        (scan-images_from cs (found buf c).1 (images-kept buf c) fits.1)
    ∙ sym (images-append buf c (concat cs))

-- However the bytes of a connection arrive, the images that are published are those of the whole
-- byte stream, as long as at no time more than `max_frame` bytes wait for a marker.
pub scan-images : (cs : List Text) → Fits cs [] → scan cs [] ≡ images (concat cs)
unfolding images split_frames cut
scan-images cs fits = scan-images_from cs [] refl fits
