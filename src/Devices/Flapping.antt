-- ===== src/Devices/Flapping.antt =====
-- isFlapping against the history of a device: the changes of the last 60 seconds are counted.
use mathlib.Core.List.{append-nil, append_assoc}
use poligon.Base.{
  Bool, List, Text, [], ap, arith, false, get, get-put, if◌then◌else◌, leb, length, ltb, none, refl,
  select-append, some, sym, ℕ, ◌*◌, ◌++◌, ◌+◌, ◌∙◌, ◌∷◌, ◌≡◌, ◌≤◌,
}
use poligon.Devices.{Flap, Poller, bool_eq, is_flapping, observe, recent}
use poligon.Model.{second}

-- What was seen of one device, oldest first: the time and whether it was connected.
abbrev pub History : Type 0
History = List (ℕ × Bool)

-- The times at which connectivity differs from the sight before.
abbrev pub transitions : Bool → History → List ℕ
transitions before [] = []
transitions before ((t, online) ∷ h) =
    let rest = transitions online h in if bool_eq before online then rest else t ∷ rest

-- The clock does not run backwards, and stands at `now` in the end.
abbrev pub RunsTo : ℕ → History → Type 0
RunsTo now [] = Unit
RunsTo now ((t, online) ∷ []) = t ≡ now
RunsTo now ((t, online) ∷ (t', online') ∷ h) = (t ≤ t') × RunsTo now ((t', online') ∷ h)

-- The polls of one device, with the verdict of the last.
unfoldable pub watch : Text → History → Poller → Bool × Poller
watch i [] p = (false, p)
watch i ((t, online) ∷ []) p = is_flapping i online t p
watch i ((t, online) ∷ x ∷ h) p = watch i (x ∷ h) (is_flapping i online t p).1

first_le : (now t : ℕ) (o : Bool) (h : History) → RunsTo now ((t, o) ∷ h) → t ≤ now
first_le now t o [] r = omega arith
first_le now t o ((t', o') ∷ h) r = omega (arith, first_le now t' o' h r.1)

recent-recent : (t now : ℕ) (ts : List ℕ) → t ≤ now → recent now (recent t ts) ≡ recent now ts
unfolding recent
recent-recent t now [] h = refl
recent-recent t now (x ∷ ts) h = ground (arith, recent-recent t now ts h)

recent-append : (now : ℕ) (xs ys : List ℕ) → recent now (xs ++ ys) ≡ recent now xs ++ recent now ys
unfolding recent
recent-append now xs ys = select-append (λ t. ltb now (t + 60 * second)) xs ys

-- The changes that are kept after a history are the recent ones of all there were.
abbrev observe_all : Flap → History → Flap
observe_all f [] = f
observe_all f ((t, o) ∷ h) = observe_all (observe o t (some f)) h

observe_one :
    (t : ℕ) (o : Bool) (f : Flap)
    → ((observe o t (some f)).changes ≡ recent t (f.changes ++ transitions f.online ((t, o) ∷ [])))
      × ((observe o t (some f)).online ≡ o)
unfolding observe
observe_one t o f = (ground (arith, append-nil f.changes), ground arith)

transitions-cons :
    (before : Bool) (t : ℕ) (o : Bool) (h : History)
    → transitions before ((t, o) ∷ h) ≡ transitions before ((t, o) ∷ []) ++ transitions o h
transitions-cons before t o h = ground arith

recent_later :
    (t now : ℕ) (xs ys zs : List ℕ)
    → t ≤ now
    → recent now (recent t (xs ++ ys) ++ zs) ≡ recent now (xs ++ (ys ++ zs))
recent_later t now xs ys zs h =
    recent-append now (recent t (xs ++ ys)) zs
    ∙ ap (λ l. l ++ recent now zs) (recent-recent t now (xs ++ ys) h)
    ∙ sym (recent-append now (xs ++ ys) zs)
    ∙ ap (recent now) (append_assoc xs ys zs)

observe_all-recent :
    (now t : ℕ) (o : Bool) (h : History) (f : Flap)
    → RunsTo now ((t, o) ∷ h)
    → (observe_all f ((t, o) ∷ h)).changes
      ≡ recent now (f.changes ++ transitions f.online ((t, o) ∷ h))
observe_all-recent now t o [] f r = rw (← r) (observe_one t o f).0
observe_all-recent now t o ((t', o') ∷ h) f r =
    let (kept, seen) = observe_one t o f in
    let later = (t', o') ∷ h in
    observe_all-recent now t' o' h (observe o t (some f)) r.1
    ∙ ap (λ b. recent now ((observe o t (some f)).changes ++ transitions b later)) seen
    ∙ ap (λ l. recent now (l ++ transitions o later)) kept
    ∙ recent_later t now f.changes (transitions f.online ((t, o) ∷ [])) (transitions o later)
        (first_le now t o later r)
    ∙ ap (λ l. recent now (f.changes ++ l)) (sym (transitions-cons f.online t o later))

watch-observe_all :
    (i : Text) (t : ℕ) (o : Bool) (h : History) (f : Flap) (p : Poller)
    → get i p.flaps ≡ some f
    → (watch i ((t, o) ∷ h) p).0 ≡ leb 3 (length (observe_all f ((t, o) ∷ h)).changes)
unfolding watch is_flapping
watch-observe_all i t o [] f p e = rw e
watch-observe_all i t o ((t', o') ∷ h) f p e =
    watch-observe_all i t' o' h (observe o t (some f)) (is_flapping i o t p).1
      (rw e (ground (arith, get-put i i (observe o t (some f)) p.flaps)))

-- The verdict of isFlapping for a device that was not seen before its first poll: three or more
-- changes of connectivity, of all since that poll, lie within 60 seconds of the last poll. The times
-- of the polls do not decrease.
pub watch-transitions :
    (i : Text) (t₀ : ℕ) (o₀ : Bool) (now t : ℕ) (o : Bool) (h : History) (p : Poller)
    → get i p.flaps ≡ none
    → RunsTo now ((t, o) ∷ h)
    → (watch i ((t₀, o₀) ∷ (t, o) ∷ h) p).0
      ≡ leb 3 (length (recent now (transitions o₀ ((t, o) ∷ h))))
unfolding watch is_flapping observe
watch-transitions i t₀ o₀ now t o h p e r =
    watch-observe_all i t o h (record { changes = []; online = o₀ }) (is_flapping i o₀ t₀ p).1
      (rw e (ground (arith, get-put i i (record { changes = []; online = o₀ }) p.flaps)))
    ∙ ap (λ l. leb 3 (length l))
        (observe_all-recent now t o h (record { changes = []; online = o₀ }) r)
