-- ===== src/Screen/Arrival.antt =====
-- internal/iosscreen/stream.go: a viewer arrives.
use poligon.Base.{
  ==_eq, Bool-cases, List, Option-cases, Text, [], arith, get, get-put, inl, inr, is_empty, none,
  pos, put, some, ℕ, ◌+ℤ◌, ◌+◌, ◌∷◌, ◌≡◌,
}
use poligon.Screen.{
  Controller, Stream, Sub, new_stream, open_stream, subscribe, update_stream, write,
}
use poligon.Screen.Counting.{IsCounted, Screens, Watch, handle_event, subscribes, viewers}

Watch-put :
    (i : Text) (r : ℕ) (m : List (Text × ℕ)) (subs : List Sub)
    → viewers i subs ≡ 0
    → Watch m subs
    → Watch (put i r m) subs
Watch-put i r m [] z w = tt
Watch-put i r m (sb ∷ subs) z w =
    ground (arith, get-put sb.device i r m, Watch-put i r m subs, ==_eq i sb.device)

-- The two ways in which a viewer arrives.
module _ (now : ℕ) (i : Text) (s : Screens) (h : IsCounted s) where
  abbrev arrive : Stream → Stream
  arrive t = record t { refs = t.refs +ℤ pos 1; idle = none }

  abbrev viewer : ℕ → Sub
  viewer r = record { device = i; stream = r; seen = 0 }

  abbrev fresh : Controller
  fresh = record s.control {
    streams = put i s.control.next s.control.streams;
    heap = write s.control.next (new_stream now) s.control.heap;
    next = s.control.next + 1;
  }

  arrive_live :
      (r : ℕ)
      → get i s.control.streams ≡ some r
      → IsCounted (record { control = update_stream r arrive s.control; subs = viewer r ∷ s.subs })
  unfolding ◌+ℤ◌
  arrive_live r e = record {
    live = λ j q g. ground (arith, h.live j q g, h.apart i j r e, ==_eq i j);
    apart = h.apart;
    alone = λ j g. ground (arith, h.alone j g, ==_eq i j);
    watched = (e, h.watched);
  }

  arrive_fresh :
      get i s.control.streams ≡ none
      → IsCounted (record {
        control = update_stream s.control.next arrive fresh;
        subs = viewer s.control.next ∷ s.subs;
      })
  unfolding ◌+ℤ◌
  arrive_fresh e = record {
    live = λ j q g.
        ground
          (arith, get-put j i s.control.next s.control.streams, h.live j q, h.alone i e, ==_eq i j);
    apart = λ j k q g g'. ground (
      arith,
      get-put j i s.control.next s.control.streams,
      get-put k i s.control.next s.control.streams,
      h.apart j k q,
      h.live j q,
      h.live k q,
      ==_eq i j,
      ==_eq i k,
    );
    alone =
        λ j g. ground (arith, get-put j i s.control.next s.control.streams, h.alone j, ==_eq i j);
    watched = (
      ground (arith, get-put i i s.control.next s.control.streams),
      Watch-put i s.control.next s.control.streams s.subs (h.alone i e) h.watched,
    );
  }

  pub subscribes-IsCounted : IsCounted (handle_event (subscribes now i) s)
  unfolding handle_event subscribe open_stream
  subscribes-IsCounted = elim (Option-cases (get i s.control.endpoints)) [
    | inl e ↦ rw (handle_event, subscribe, e) h
    | inr (ep, e) ↦ elim (Bool-cases (is_empty ep.mjpeg)) [
      | inl no_screen ↦ rw (handle_event, subscribe, e, no_screen) h
      | inr screen ↦ elim (Option-cases (get i s.control.streams)) [
        | inl new ↦
            rw (handle_event, subscribe, e, screen) (rw (open_stream, new) (arrive_fresh new))
        | inr (r, old) ↦
            rw (handle_event, subscribe, e, screen)
              (rw (open_stream, old, (h.live i r old).0) (arrive_live r old))
      ]
    ]
  ]
