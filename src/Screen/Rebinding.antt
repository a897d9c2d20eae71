-- ===== src/Screen/Rebinding.antt =====
-- internal/iosscreen: a viewer whose device gets a new endpoint. Its Close names the device, and so
-- leaves the new stream of the device, which it never entered.
use poligon.Base.{
  Option, Text, arith, false, get, get-put, get-remove, is_empty, none, put, remove, some, ℕ, ◌+ℤ◌,
  ◌+◌, ◌-ℤ◌, ◌≡◌,
}
use poligon.Screen.{
  Controller, Endpoint, Sub, ended, leave, open_stream, release_viewer, set_endpoint, stop_if_idle,
  stop_stream, subscribe, wake,
}

module _ (now : ℕ) (i : Text) (ep : Endpoint) (c : Controller) where
  -- A viewer comes, the endpoint of the device is set anew, and a second viewer comes.
  unfoldable pub rebound : Controller × Option Sub
  rebound = subscribe now i (set_endpoint i ep (subscribe now i c).0)

  abbrev pub second_viewer : Sub
  second_viewer = record { device = i; stream = c.next + 1; seen = 0 }

  -- When the first viewer leaves, the timer of the second one's stream is armed; when it runs out, the
  -- second viewer, which has not left, is told that the stream has ended.
  wake-rebound :
      {old : Endpoint}
      → get i c.endpoints ≡ some old
      → is_empty old.mjpeg ≡ false
      → is_empty ep.mjpeg ≡ false
      → get i c.streams ≡ none
      → (rebound.1 ≡ some second_viewer)
        × (((release_viewer i rebound.0).heap (c.next + 1)).idle ≡ some i)
        × (wake (stop_if_idle i (c.next + 1) (release_viewer i rebound.0)) second_viewer
            ≡ (second_viewer, ended))
  unfolding rebound subscribe open_stream set_endpoint stop_stream release_viewer leave stop_if_idle
      wake ◌+ℤ◌ ◌-ℤ◌
  wake-rebound e p q n = (
    ground (
      arith,
      get-put i i ep c.endpoints,
      get-put i i c.next c.streams,
      get-remove i i (put i c.next c.streams),
    ),
    ground (
      arith,
      get-put i i ep c.endpoints,
      get-put i i c.next c.streams,
      get-remove i i (put i c.next c.streams),
      get-put i i (c.next + 1) (remove i (put i c.next c.streams)),
    ),
    ground (
      arith,
      get-put i i ep c.endpoints,
      get-put i i c.next c.streams,
      get-remove i i (put i c.next c.streams),
      get-put i i (c.next + 1) (remove i (put i c.next c.streams)),
    ),
  )
