-- ===== src/Screen/Idle.antt =====
-- internal/iosscreen/stream.go: the timer of a stream without viewers.
use poligon.Base.{
  ==_eq, Bool-cases, Option-cases, Text, ap, arith, eqb, false, get, get-remove, inl, inr, ltb_ℤ,
  none, pos, refl, remove, some, subst, sym, true, ℕ, ◌==◌, ◌∙◌, ◌≡◌,
}
use poligon.Screen.{Stream, stop_if_idle, unmap, update_stream}
use poligon.Screen.Counting.{
  IsCounted, Screens, Watch-remove, fires, handle_event, update_stream-IsCounted,
}

-- Nobody watches the device whose timer runs out.
module _ (i : Text) (r : ℕ) (s : Screens) (armed : (s.control.heap r).idle ≡ some i)
    (h : IsCounted s) (idle : ltb_ℤ (pos 0) (s.control.heap r).refs ≡ false) where
  abbrev closing : Stream → Stream
  closing t = record t { closed = true }

  not_streamed : (j : Text) → (i == j) ≡ false → get j s.control.streams ≡ some r → ⊥
  not_streamed j ne e = ground (arith, h.live j r e, ==_eq i j)

  close_own :
      get i s.control.streams ≡ some r
      → IsCounted (record s {
        control = record (update_stream r closing s.control) {
          streams = remove i s.control.streams;
        };
      })
  close_own e = record {
    live = λ j q g. ground (arith, get-remove j i s.control.streams, h.live j q, not_streamed j);
    apart = λ j k q g g'.
        ground (
          arith,
          get-remove j i s.control.streams,
          get-remove k i s.control.streams,
          h.apart j k q,
        );
    alone =
        λ j g. ground (arith, get-remove j i s.control.streams, h.alone j, h.live i r e, ==_eq i j);
    watched = Watch-remove i s.control.streams s.subs (ground (arith, h.live i r e)) h.watched;
  }

  close_stale :
      ((j : Text) → get j s.control.streams ≡ some r → ⊥)
      → IsCounted (record s { control = update_stream r closing s.control })
  close_stale stale = record {
    live = λ j q g. ground (arith, h.live j q g, stale j);
    apart = h.apart;
    alone = h.alone;
    watched = h.watched;
  }

  stopped : stop_if_idle i r s.control ≡ unmap i r (update_stream r closing s.control)
  unfolding stop_if_idle
  stopped = ground arith

  unmap_idle : IsCounted (record s { control = unmap i r (update_stream r closing s.control) })
  unmap_idle = elim (Option-cases (get i s.control.streams)) [
    | inl e ↦ rw (unmap, e) (close_stale (λ j g. ground (arith, not_streamed j, ==_eq i j)))
    | inr (q, e) ↦ elim (Bool-cases (eqb q r)) [
      | inl same ↦
          let own : q ≡ r = ground arith in rw (unmap, e, same) (close_own (e ∙ ap some own))
      | inr new ↦
          rw (unmap, e, new) (close_stale (λ j g. ground (arith, not_streamed j, ==_eq i j)))
    ]
  ]

  close_idle : IsCounted (record s { control = stop_if_idle i r s.control })
  close_idle = subst (λ c. IsCounted (record s { control = c })) (sym stopped) unmap_idle

-- The timer runs out: nobody watches, or a viewer has come in time.
pub fires-IsCounted : (r : ℕ) (s : Screens) → IsCounted s → IsCounted (handle_event (fires r) s)
unfolding handle_event stop_if_idle
fires-IsCounted r s h = elim (Option-cases (s.control.heap r).idle) [
  | inl e ↦ rw (handle_event, e) h
  | inr (i, e) ↦ elim (Bool-cases (ltb_ℤ (pos 0) (s.control.heap r).refs)) [
    | inl viewed ↦
        rw (handle_event, e, viewed)
          (update_stream-IsCounted r (λ t. record t { idle = none }) s refl refl (λ j x. refl) h)
    | inr quiet ↦ rw (handle_event, e) (close_idle i r s e h quiet)
  ]
]
