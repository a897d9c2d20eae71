-- ===== src/Screen/Frames.antt =====
-- internal/iosscreen/stream.go: scanJPEGs, which cuts a byte stream into JPEG images. A position that
-- bytes.Index finds is given as the bytes before it and the bytes behind the two of the marker.
use poligon.Base.{
  List, Option, Text, [], eqb, if◌then◌else◌, length, ltb, none, some, suc, zero, ℕ, ◌&&◌, ◌*◌,
  ◌++◌, ◌+◌, ◌^◌, ◌∷◌,
}

abbrev pub max_frame : ℕ
max_frame = 8 * 2 ^ 20

abbrev pub soi : ℕ
soi = 0xD8

abbrev pub eoi : ℕ
eoi = 0xD9

-- The first place of the marker FF m.
unfoldable pub cut : ℕ → Text → Option (Text × Text)
cut m [] = none
cut m (x ∷ []) = none
cut m (x ∷ y ∷ s) =
    let rest = cut m (y ∷ s) in
    if eqb x 0xFF && eqb y m
    then some ([], s)
    else elim rest [ none ↦ none | some (before, behind) ↦ some (x ∷ before, behind) ]

abbrev pub jpeg : Text → Text
jpeg body = 0xFF ∷ soi ∷ (body ++ 0xFF ∷ eoi ∷ [])

-- The inner loop: the images that are complete, and the bytes that are kept: all of them if no
-- image has begun, else those from its first byte on.
unfoldable pub split_frames : ℕ → Text → List Text × Text
split_frames zero buf = ([], buf)
split_frames (suc f) buf = elim (cut soi buf) [
  | none ↦ ([], buf)
  | some (_, image) ↦ elim (cut eoi image) [
    | none ↦ ([], 0xFF ∷ soi ∷ image)
    | some (body, rest) ↦ let (frames, kept) = split_frames f rest in (jpeg body ∷ frames, kept)
  ]
]

-- Too long a wait for a marker empties the buffer.
unfoldable pub bounded : Text → Text
bounded buf = if ltb max_frame (length buf) then [] else buf

-- What one chunk makes of the buffer: the images that are published, and the new buffer.
unfoldable pub drain : Text → List Text × Text
unfolding bounded
drain buf = let (frames, kept) = split_frames (length buf + 1) buf in (frames, bounded kept)

-- The images that the chunks of a connection give, one after the other.
unfoldable pub scan : List Text → Text → List Text
scan [] buf = []
scan (c ∷ cs) buf = let (frames, kept) = drain (buf ++ c) in frames ++ scan cs kept
