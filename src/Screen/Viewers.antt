-- ===== src/Screen/Viewers.antt =====
-- internal/iosscreen/stream.go: the viewers of the screens, as long as no endpoint changes and no
-- operation begins between the sections of another.
use poligon.Base.{
  ==_eq, Bool, Bool-cases, List, Text, [], any, arith, get, if◌then◌else◌, inl, inr, some, true, ℕ,
  ◌+◌, ◌-ℤ◌, ◌==◌, ◌∷◌, ◌≡◌,
}
use poligon.Screen.{Sub, leave, release_viewer}
use poligon.Screen.Arrival.{subscribes-IsCounted}
use poligon.Screen.Counting.{
  Event, IsCounted, Screens, Watch, closes, fail_stream-IsCounted, fails, fires, handle_event,
  handle_events, is_sub, publish-IsCounted, publishes, remove_one, subscribes, viewers,
}
use poligon.Screen.Idle.{fires-IsCounted}

viewers-remove_one :
    (i j : Text) (r : ℕ) (subs : List Sub)
    → any (is_sub i r) subs ≡ true
    → viewers j subs ≡ viewers j (remove_one (is_sub i r) subs) + (if i == j then 1 else 0)
viewers-remove_one i j r [] m = cc
viewers-remove_one i j r (sb ∷ subs) m =
    ground (arith, viewers-remove_one i j r subs, ==_eq sb.device i, ==_eq i j)

Watch-remove_one :
    (p : Sub → Bool) (m : List (Text × ℕ)) (subs : List Sub)
    → Watch m subs
    → Watch m (remove_one p subs)
Watch-remove_one p m [] w = tt
Watch-remove_one p m (sb ∷ subs) w = ground (arith, Watch-remove_one p m subs)

-- A viewer watches the stream of its device.
get-is_sub :
    (i : Text) (r : ℕ) (m : List (Text × ℕ)) (subs : List Sub)
    → any (is_sub i r) subs ≡ true
    → Watch m subs
    → get i m ≡ some r
get-is_sub i r m [] a w = cc
get-is_sub i r m (sb ∷ subs) a w = ground (arith, get-is_sub i r m subs, ==_eq sb.device i)

closes-IsCounted :
    (i : Text) (r : ℕ) (s : Screens) → IsCounted s → IsCounted (handle_event (closes i r) s)
unfolding handle_event release_viewer leave ◌-ℤ◌
closes-IsCounted i r s h = elim (Bool-cases (any (is_sub i r) s.subs)) [
  | inr e ↦ rw (handle_event, e) h
  | inl e ↦
      let own = get-is_sub i r s.control.streams s.subs e h.watched in
      rw (handle_event, e, release_viewer, own)
        record {
          live = λ j q g. ground (
            arith,
            h.live j q g,
            h.apart i j r own,
            viewers-remove_one i j r s.subs e,
            ==_eq i j,
          );
          apart = h.apart;
          alone = λ j g. ground (arith, h.alone j g, viewers-remove_one i j r s.subs e);
          watched = Watch-remove_one (is_sub i r) s.control.streams s.subs h.watched;
        }
]

handle_event-IsCounted : (e : Event) (s : Screens) → IsCounted s → IsCounted (handle_event e s)
handle_event-IsCounted (subscribes now i) s h = subscribes-IsCounted now i s h
handle_event-IsCounted (closes i r) s h = closes-IsCounted i r s h
handle_event-IsCounted (publishes r now image) s h = publish-IsCounted r now image s h
handle_event-IsCounted (fails r why) s h = fail_stream-IsCounted r why s h
handle_event-IsCounted (fires r) s h = fires-IsCounted r s h

-- Whatever viewers come and go, images arrive and timers run out, in whatever order: as long as no
-- endpoint changes and no operation begins between the sections of another, the one stream of each device is open, its counter is the number of its viewers,
-- and every viewer watches the stream of its device, if this was so before.
handle_events-IsCounted :
    (es : List Event) (s : Screens) → IsCounted s → IsCounted (handle_events es s)
unfolding handle_events
handle_events-IsCounted [] s h = h
handle_events-IsCounted (e ∷ es) s h =
    handle_events-IsCounted es (handle_event e s) (handle_event-IsCounted e s h)
