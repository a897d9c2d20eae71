-- ===== src/Tests/Requests.antt =====
-- The theorem on the requests of the HTTP API at a concrete input.
use poligon.Api.{
  Answer, Call, Server, followed_by_sync, handle_calls, handle_request, heartbeat_device,
  is_failure, reserve_device,
}
use poligon.Api.Install.{begin_install, end_install, release-during_install}
use poligon.Api.Tunnelled.{mem-requested}
use poligon.Base.{
  Bool, List, Text, [], any, codes, false, get, mem, none, refl, some, text_discrete, true, ℕ,
  ℕ_discrete, ◌&&◌, ◌==◌, ◌∷◌, ◌≡◌,
}
use poligon.Devices.{Poller, is_flapping, reconcile}
use poligon.Model.{Device, reserved}
use poligon.Reserve.{book, check_available, heartbeat, holder, insert_reservation, release, reserve}
use poligon.Reserve.Ending.{may_release}
use poligon.Store.{Db, ok, succeeds, transaction}
use poligon.Store.Devices.{all_devices, device}
use poligon.Store.TunnelPorts.{port_of, tunnel_port}
use poligon.Tests.{alice, leased, leased-IsUnique, manager, pixel, redmi}
use poligon.Tests.Runs.{run_server}
use poligon.Tests.Screens.{any_port, tunnels}
use poligon.Tunnels.{UserTunnel, ensure, held_serials, is_shown, set_allowed, sync_user_tunnel}

abbrev server : Server
server = record { manager = manager; tunnels = tunnels; listens = any_port; runs = run_server }

-- Alice, who holds the pixel, renews it, and then books the redmi.
abbrev renewal : List Call
renewal = record { now = 150; fresh = []; user = alice; request = heartbeat_device pixel } ∷ []

abbrev booked : (Db × List (Text × UserTunnel)) × Answer
booked =
    handle_request server 200 (codes "b2") alice (reserve_device redmi)
      (handle_calls server renewal (leased, []))

abbrev both_phones : UserTunnel
both_phones = record { port = 5040; allowed = pixel ∷ redmi ∷ [] }

not_refused : is_failure booked.1 ≡ false
unfolding handle_calls handle_request followed_by_sync reserve heartbeat transaction book
    insert_reservation check_available device sync_user_tunnel ensure set_allowed held_serials
    holder tunnel_port port_of all_devices text_discrete ℕ_discrete
not_refused = refl

alice_sees_both : get alice booked.0.1 ≡ some both_phones
unfolding handle_calls handle_request followed_by_sync reserve heartbeat transaction book
    insert_reservation check_available device sync_user_tunnel ensure set_allowed held_serials
    holder tunnel_port port_of all_devices text_discrete ℕ_discrete
alice_sees_both = refl

mem-requested_example :
    mem redmi both_phones.allowed
    ≡ any (λ d. is_shown alice booked.0.0 d && d.serial == redmi) booked.0.0.devices
mem-requested_example =
    mem-requested server refl renewal leased 200 (codes "b2") alice redmi (reserve_device redmi)
      both_phones refl not_refused alice_sees_both

alice_may : may_release pixel alice false leased ≡ true
unfolding holder text_discrete ℕ_discrete
alice_may = refl

-- Alice releases the pixel while it is installed on.
abbrev after_install : Db
after_install = end_install pixel 300 (release pixel alice false (begin_install pixel 200 leased)).0

release-during_install_example :
    (holder pixel after_install ≡ none)
    × ((now : ℕ) (batch u : Text)
        → succeeds (reserve manager now batch pixel u after_install).1 ≡ false)
    × ((d : Device) (authorized held : Bool) (now : ℕ) (p : Poller)
        → device pixel after_install ≡ ok d
        → (is_flapping d.id true now p).0 ≡ false
        → (d.status ≡ reserved) × ((reconcile d true authorized held now p).0 ≡ reserved))
release-during_install_example =
    release-during_install manager pixel alice false 200 300 leased leased-IsUnique alice_may
