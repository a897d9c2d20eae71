-- ===== src/Screen/Counting.antt =====
-- internal/iosscreen/stream.go: the viewers of the screens, what happens to them, and the invariant on their counts.
use poligon.Base.{
  ==_eq, All, Bool, List, Option, Text, [], any, arith, eqb, false, get, get-remove, if◌then◌else◌,
  length, none, pos, refl, remove, select, some, true, ℕ, ◌&&◌, ◌<◌, ◌==◌, ◌∷◌, ◌≡◌,
}
use poligon.Screen.{
  Controller, Stream, Sub, fail_stream, publish, release_viewer, stop_if_idle, subscribe,
  update_stream,
}

pub record Screens : Type 0 where
  pub control : Controller
  pub subs : List Sub

-- What happens, one operation after the other.
pub data Event : Type 0 where
  subscribes : ℕ → Text → Event
  closes : Text → ℕ → Event
  publishes : ℕ → ℕ → Text → Event
  fails : ℕ → Text → Event
  fires : ℕ → Event

abbrev pub remove_one {ℓ} : {A : Type ℓ} → (A → Bool) → List A → List A
remove_one p [] = []
remove_one p (x ∷ xs) = let rest = remove_one p xs in if p x then xs else x ∷ rest

abbrev pub is_sub : Text → ℕ → Sub → Bool
is_sub i r sb = sb.device == i && eqb sb.stream r

abbrev with_sub : List Sub → Controller × Option Sub → Screens
with_sub subs (c, none) = record { control = c; subs = subs }
with_sub subs (c, some sb) = record { control = c; subs = sb ∷ subs }

unfoldable pub handle_event : Event → Screens → Screens
handle_event (subscribes now i) s = with_sub s.subs (subscribe now i s.control)
handle_event (closes i r) s =
    if any (is_sub i r) s.subs
    then record { control = release_viewer i s.control; subs = remove_one (is_sub i r) s.subs }
    else s
handle_event (publishes r now image) s = record s {
  control = update_stream r (publish now image) s.control;
}
handle_event (fails r why) s = record s { control = update_stream r (fail_stream why) s.control }
handle_event (fires r) s = elim (s.control.heap r).idle [
  | none ↦ s
  | some i ↦ record s { control = stop_if_idle i r s.control }
]

unfoldable pub handle_events : List Event → Screens → Screens
unfolding handle_event
handle_events [] s = s
handle_events (e ∷ es) s = handle_events es (handle_event e s)

abbrev pub viewers : Text → List Sub → ℕ
viewers i subs = length (select (λ sb. sb.device == i) subs)

abbrev timer_of : Text → Option Text → Bool
timer_of i none = true
timer_of i (some j) = j == i

-- The stream of a device is open and counts its viewers; all of these watch that stream.
pub record IsCounted (s : Screens) : Type 0 where
  pub live :
      (i : Text) (r : ℕ)
      → get i s.control.streams ≡ some r
      → ((s.control.heap r).closed ≡ false)
        × ((s.control.heap r).refs ≡ pos (viewers i s.subs))
        × (timer_of i (s.control.heap r).idle ≡ true)
        × (r < s.control.next)
  pub apart :
      (i j : Text) (r : ℕ)
      → get i s.control.streams ≡ some r
      → get j s.control.streams ≡ some r
      → i ≡ j
  pub alone : (i : Text) → get i s.control.streams ≡ none → viewers i s.subs ≡ 0
  pub watched : All (λ sb. get sb.device s.control.streams ≡ some sb.stream) s.subs

-- A change of one stream that keeps what is counted.
pub update_stream-IsCounted :
    (r : ℕ) (f : Stream → Stream) (s : Screens)
    → (f (s.control.heap r)).closed ≡ (s.control.heap r).closed
    → (f (s.control.heap r)).refs ≡ (s.control.heap r).refs
    → ((i : Text)
        → timer_of i (s.control.heap r).idle ≡ true
        → timer_of i (f (s.control.heap r)).idle ≡ true)
    → IsCounted s
    → IsCounted (record s { control = update_stream r f s.control })
update_stream-IsCounted r f s same_closed same_refs timer h = record {
  live = λ i q e. ground (arith, h.live i q e, timer i);
  apart = h.apart;
  alone = h.alone;
  watched = h.watched;
}

pub publish-IsCounted :
    (r now : ℕ) (image : Text) (s : Screens)
    → IsCounted s
    → IsCounted (handle_event (publishes r now image) s)
unfolding handle_event publish
publish-IsCounted r now image s h =
    update_stream-IsCounted r (publish now image) s refl refl (λ i e. e) h

pub fail_stream-IsCounted :
    (r : ℕ) (why : Text) (s : Screens) → IsCounted s → IsCounted (handle_event (fails r why) s)
unfolding handle_event fail_stream
fail_stream-IsCounted r why s h =
    update_stream-IsCounted r (fail_stream why) s refl refl (λ i e. e) h

abbrev pub Watch : List (Text × ℕ) → List Sub → Type 0
Watch m subs = All (λ sb. get sb.device m ≡ some sb.stream) subs

pub Watch-remove :
    (i : Text) (m : List (Text × ℕ)) (subs : List Sub)
    → viewers i subs ≡ 0
    → Watch m subs
    → Watch (remove i m) subs
Watch-remove i m [] z w = tt
Watch-remove i m (sb ∷ subs) z w =
    ground (arith, get-remove sb.device i m, Watch-remove i m subs, ==_eq i sb.device)
