-- ===== src/Screen/Race.antt =====
-- internal/iosscreen/stream.go: a viewer who comes while the timer of the last one runs out.
use poligon.Base.{
  ==-refl, Text, arith, false, get, get-remove, ltb, ltb_ℤ, none, pos, some, true, ℕ, ◌+ℤ◌, ◌≡◌,
}
use poligon.Screen.{
  Controller, attach, broken, close_if_idle, ended, open_stream, release_viewer, unmap, wake,
}

-- The sections of Subscribe and of stopIfIdle in an order that their locks allow: Subscribe finds the
-- stream open, the timer closes it, Subscribe counts its viewer, the timer takes the stream from the
-- map.
abbrev pub raced : ℕ → Text → ℕ → Controller → Controller × ℕ
raced now i r c =
    let (c1, q) = open_stream now i c in (unmap i r (attach q (close_if_idle r c1)), q)

-- For any open stream of a device that has no viewer, when the sections of Subscribe and of the
-- timer's callback mix in this way: the new viewer is on that stream, which is closed and counts
-- him, and no stream of the device is left in the map. So once he has seen the last frame, Next
-- answers him with an error, and his Close is without effect.
pub raced-closed :
    (now : ℕ) (i : Text) (r : ℕ) (c : Controller)
    → get i c.streams ≡ some r
    → (c.heap r).closed ≡ false
    → ltb_ℤ (pos 0) (c.heap r).refs ≡ false
    → (let (c', q) = raced now i r c in
        (q ≡ r)
        × ((c'.heap r).closed ≡ true)
        × ((c'.heap r).refs ≡ (c.heap r).refs +ℤ pos 1)
        × (get i c'.streams ≡ none)
        × (release_viewer i c' ≡ c')
        × ((wake c' (record { device = i; stream = r; seen = (c.heap r).seq })).1
            ≡ (elim (c.heap r).failure [ some why ↦ broken why | none ↦ ended ])))
unfolding open_stream release_viewer wake
raced-closed now i r c own live left =
    ground (arith, get-remove i i c.streams, ==-refl i, not_newer (c.heap r).seq)
  where
    not_newer : (n : ℕ) → ltb n n ≡ false
    not_newer n = ground arith
