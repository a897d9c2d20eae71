-- ===== src/Tests/Screens.antt =====
-- The theorems on the iOS screens, the tunnels and the poll at concrete inputs.
use poligon.Adbfilter.{handle, refusal, transport, write_msg}
use poligon.Base.{
  Bool, List, Text, [], any, arith, codes, false, get, mem, none, not, pos, refl, some,
  text_discrete, true, ℕ, ℕ_discrete, ◌&&◌, ◌++◌, ◌+ℤ◌, ◌==◌, ◌∷◌, ◌≡◌,
}
use poligon.Devices.Discovery.{poll-adopts_nothing}
use poligon.Devices.Keeping.{is_adopted}
use poligon.Devices.Poll.{Connected, PollState, poll_once}
use poligon.Naming.{short_serial, take}
use poligon.Reserve.{holder}
use poligon.Reserve.Batches.{active_users}
use poligon.Screen.{Controller, Endpoint, Stream, broken, ended, new_stream, release_viewer, wake}
use poligon.Screen.Chunks.{Fits, concat, images, scan-images}
use poligon.Screen.Frames.{bounded, cut, drain, scan, split_frames}
use poligon.Screen.Race.{raced, raced-closed}
use poligon.Store.Devices.{all_devices, no_specs}
use poligon.Store.TunnelPorts.{port_of, tunnel_port}
use poligon.Tests.{alice, leased, pixel, redmi}
use poligon.Tests.Pool.{poller}
use poligon.Tunnels.{
  TunnelConfig, UserTunnel, ensure, held_serials, is_shown, set_allowed, sync_adb_tunnels,
  sync_user_tunnel, sync_users, tunnel_users,
}
use poligon.Tunnels.Ports.{HasPorts}
use poligon.Tunnels.Sync.{handle-synced, mem-synced}

-- An image in two chunks, and the first byte of the next marker.
abbrev chunks : List Text
chunks = (0xFF ∷ 0xD8 ∷ 1 ∷ []) ∷ (2 ∷ 0xFF ∷ 0xD9 ∷ 0xFF ∷ []) ∷ []

chunks_fit : Fits chunks []
unfolding split_frames cut
chunks_fit = (omega arith, (omega arith, tt))

scan-images_example : scan chunks [] ≡ images (concat chunks)
scan-images_example = scan-images chunks chunks_fit

-- A run of the scanner: one image is found.
scan_runs : scan chunks [] ≡ (0xFF ∷ 0xD8 ∷ 1 ∷ 2 ∷ 0xFF ∷ 0xD9 ∷ []) ∷ []
unfolding scan drain split_frames bounded cut
scan_runs = refl

abbrev endpoint : Endpoint
endpoint = record { wda = codes "127.0.0.1:18100"; mjpeg = codes "127.0.0.1:19100" }

abbrev idle_stream : ℕ → Stream
idle_stream r = new_stream 0

abbrev pub controller : Controller
controller = record {
  endpoints = (pixel, endpoint) ∷ [];
  sessions = [];
  streams = [];
  heap = idle_stream;
  next = 0;
}

-- The stream of pixel, which is open and has no viewer.
abbrev open_controller : Controller
open_controller = record controller { streams = (pixel, 0) ∷ []; next = 1 }

raced-closed_example :
    let (c', q) = raced 5 pixel 0 open_controller in
    (q ≡ 0)
    × ((c'.heap 0).closed ≡ true)
    × ((c'.heap 0).refs ≡ (open_controller.heap 0).refs +ℤ pos 1)
    × (get pixel c'.streams ≡ none)
    × (release_viewer pixel c' ≡ c')
    × ((wake c' (record { device = pixel; stream = 0; seen = (open_controller.heap 0).seq })).1
        ≡ (elim (open_controller.heap 0).failure [ some why ↦ broken why | none ↦ ended ]))
unfolding text_discrete ℕ_discrete
raced-closed_example = raced-closed 5 pixel 0 open_controller refl refl refl

abbrev pub tunnels : TunnelConfig
tunnels = record { adb_tunnel_port = 5038; range_start = 5040; range_end = 5090 }

abbrev pub any_port : ℕ → Bool
any_port p = true

abbrev shows_pixel : UserTunnel
shows_pixel = record { port = 5040; allowed = pixel ∷ [] }

alice_tunnel : get alice (sync_adb_tunnels tunnels any_port (leased, [])).1 ≡ some shows_pixel
unfolding sync_adb_tunnels sync_users sync_user_tunnel ensure set_allowed held_serials tunnel_users
    active_users holder tunnel_port port_of all_devices text_discrete ℕ_discrete
alice_tunnel = refl

no_tunnels : HasPorts (leased, [])
no_tunnels u t e = absurd (ground arith)

mem-synced_example :
    mem redmi shows_pixel.allowed
    ≡ any (λ d. is_shown alice leased d && d.serial == redmi) leased.devices
mem-synced_example =
    mem-synced tunnels any_port refl alice redmi (leased, []) shows_pixel no_tunnels alice_tunnel

not_held : any (λ d. is_shown alice leased d && d.serial == redmi) leased.devices ≡ false
unfolding holder text_discrete ℕ_discrete
not_held = refl

handle-synced_example :
    handle shows_pixel.allowed (write_msg (transport ++ redmi) ++ codes "x") (some (codes "OKAY"))
    ≡ record { to_upstream = []; to_client = codes "FAIL" ++ write_msg refusal }
handle-synced_example =
    handle-synced tunnels any_port refl alice redmi (codes "x") (codes "OKAY") (leased, [])
      shows_pixel no_tunnels alice_tunnel not_held (omega arith)

-- A phone and an iPhone are connected that the farm does not know.
abbrev connected : Connected
connected = record {
  android_states = (codes "emu-1", codes "device") ∷ (pixel, codes "device") ∷ [];
  ios_online = codes "00008030-A" ∷ [];
  adb_specs = λ i. no_specs;
  ios_specs = λ i. (no_specs, false);
}

poll-adopts_nothing_example :
    ((poll_once true connected 300 poller leased).0.reservations ≡ leased.reservations)
    × ((is_adopted (codes "device") (poll_once true connected 300 poller leased).0
          && not (is_adopted (codes "device") leased))
        ≡ false)
poll-adopts_nothing_example = poll-adopts_nothing true connected 300 poller leased (codes "device")

abbrev poll_state : PollState
poll_state = record { db = leased; poller = poller; taken_ids = pixel ∷ redmi ∷ [] }

same_prefix : short_serial (codes "00008030-A") ≡ short_serial (codes "00008030-B")
unfolding short_serial take
same_prefix = refl
