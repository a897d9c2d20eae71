-- ===== src/Screen.antt =====
-- internal/iosscreen: the shared readers of the iOS screens. A stream is an object on the heap of the
-- model, since viewers, the map of the Controller and the reader share it.
pub mod Frames
pub mod Splitting
pub mod Chunks
pub mod Images
pub mod Counting
pub mod Idle
pub mod Arrival
pub mod Viewers
pub mod Rebinding
pub mod Race
use poligon.Base.{
  Bool, List, Option, Text, eqb, false, get, if◌then◌else◌, is_empty, ltb, ltb_ℤ, none, not, pos,
  put, remove, some, true, ℕ, ℤ, ◌&&◌, ◌+ℤ◌, ◌+◌, ◌-ℤ◌, ◌||◌,
}

pub record Endpoint : Type 0 where
  pub wda : Text
  pub mjpeg : Text

-- The newest frame, if there is one, with the time of its arrival.
pub record Frame : Type 0 where
  pub image : Text
  pub at_time : ℕ

-- The timer is given by the device id that its callback has captured.
pub record Stream : Type 0 where
  pub cur : Option Frame
  pub seq : ℕ
  pub failure : Option Text
  pub refs : ℤ
  pub closed : Bool
  pub idle : Option Text
  pub start : ℕ

pub record Controller : Type 0 where
  pub endpoints : List (Text × Endpoint)
  pub sessions : List (Text × Text)
  pub streams : List (Text × ℕ)
  pub heap : ℕ → Stream
  pub next : ℕ

-- One viewer.
pub record Sub : Type 0 where
  pub device : Text
  pub stream : ℕ
  pub seen : ℕ

abbrev pub write : ℕ → Stream → (ℕ → Stream) → ℕ → Stream
write r s h q = if eqb q r then s else h q

abbrev pub update_stream : ℕ → (Stream → Stream) → Controller → Controller
update_stream r f c = record c { heap = write r (f (c.heap r)) c.heap }

abbrev pub new_stream : ℕ → Stream
new_stream now = record {
  cur = none;
  seq = 0;
  failure = none;
  refs = pos 0;
  closed = false;
  idle = none;
  start = now;
}

unfoldable pub publish : ℕ → Text → Stream → Stream
publish now image s = record s {
  cur = some (record { image = image; at_time = now });
  seq = s.seq + 1;
  failure = none;
}

unfoldable pub fail_stream : Text → Stream → Stream
fail_stream why s = record s { failure = some why }

-- The stream of a device, made if there is none that is open.
unfoldable pub open_stream : ℕ → Text → Controller → Controller × ℕ
open_stream now i c =
    let fresh = record c {
      streams = put i c.next c.streams;
      heap = write c.next (new_stream now) c.heap;
      next = c.next + 1;
    } in
    elim (get i c.streams) [
      | none ↦ (fresh, c.next)
      | some r ↦ if (c.heap r).closed then (fresh, c.next) else (c, r)
    ]

-- The second section of Subscribe under the lock of the stream: one viewer more.
abbrev pub attach : ℕ → Controller → Controller
attach r c = update_stream r (λ s. record s { refs = s.refs +ℤ pos 1; idle = none }) c

-- Subscribe, with its sections one after the other; `none` if the device has no screen endpoint.
unfoldable pub subscribe : ℕ → Text → Controller → Controller × Option Sub
unfolding open_stream
subscribe now i c = elim (get i c.endpoints) [
  | none ↦ (c, none)
  | some ep ↦
      if is_empty ep.mjpeg
      then (c, none)
      else (let (c', r) = open_stream now i c in
          (attach r c', some (record { device = i; stream = r; seen = 0 })))
]

-- The last viewer that leaves arms the timer.
unfoldable pub leave : Text → Stream → Stream
leave i s =
    let left = s.refs -ℤ pos 1 in
    if ltb_ℤ (pos 0) left || (elim s.idle [ none ↦ false | some _ ↦ true ])
    then record s { refs = left }
    else record s { refs = left; idle = some i }

-- Close of a viewer, which names the device, not the stream: the stream is looked up under the lock of
-- the controller, and changed under its own.
unfoldable pub release_viewer : Text → Controller → Controller
unfolding leave
release_viewer i c = elim (get i c.streams) [ none ↦ c | some r ↦ update_stream r (leave i) c ]

-- The callback of the timer, first section: under the lock of the stream.
abbrev pub close_if_idle : ℕ → Controller → Controller
close_if_idle r c =
    if ltb_ℤ (pos 0) (c.heap r).refs
    then update_stream r (λ s. record s { idle = none }) c
    else update_stream r (λ s. record s { closed = true }) c

-- The second section, under the lock of the controller.
abbrev pub unmap : Text → ℕ → Controller → Controller
unmap i r c = elim (get i c.streams) [
  | none ↦ c
  | some q ↦ if eqb q r then record c { streams = remove i c.streams } else c
]

-- stopIfIdle, with its sections one after the other.
unfoldable pub stop_if_idle : Text → ℕ → Controller → Controller
stop_if_idle i r c =
    if ltb_ℤ (pos 0) (c.heap r).refs then close_if_idle r c else unmap i r (close_if_idle r c)

unfoldable pub stop_stream : Text → Controller → Controller
stop_stream i c = elim (get i c.streams) [
  | none ↦ c
  | some r ↦
      let c' = record c { streams = remove i c.streams } in
      update_stream r (λ s. record s { closed = true; idle = none }) c'
]

-- Set, when a device's WebDriverAgent comes up.
unfoldable pub set_endpoint : Text → Endpoint → Controller → Controller
unfolding stop_stream
set_endpoint i ep c =
    stop_stream i (record c { endpoints = put i ep c.endpoints; sessions = remove i c.sessions })

-- Unset, when it has gone away.
unfoldable pub unset_endpoint : Text → Controller → Controller
unfolding stop_stream
unset_endpoint i c =
    stop_stream i (record c { endpoints = remove i c.endpoints; sessions = remove i c.sessions })

pub data Woken : Type 0 where
  shows : Text → Woken
  broken : Text → Woken
  ended sleeps : Woken

-- One round of the loop of Next, with the lock held.
unfoldable pub wake : Controller → Sub → Sub × Woken
wake c sb =
    let s = c.heap sb.stream in
    let stuck : Sub × Woken = elim s.failure [
      | some why ↦ (sb, broken why)
      | none ↦ if s.closed then (sb, ended) else (sb, sleeps)
    ] in
    elim s.cur [
      | none ↦ stuck
      | some f ↦ if ltb sb.seen s.seq then (record sb { seen = s.seq }, shows f.image) else stuck
    ]

-- Somebody watches, and nothing has arrived for longer than `after`.
unfoldable pub stream_dead : ℕ → Text → ℕ → Controller → Bool
stream_dead now i after c = elim (get i c.streams) [
  | none ↦ false
  | some r ↦
      let s = c.heap r in
      if s.closed || (not (ltb_ℤ (pos 0) s.refs) && not (ltb_ℤ s.refs (pos 0)))
      then false
      else ltb ((elim s.cur [ none ↦ s.start | some f ↦ f.at_time ]) + after) now
]
