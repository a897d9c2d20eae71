-- ===== src/Adbfilter/Gate.antt =====
-- Which requests the gate stops, and which it does not look at.
use poligon.Adbfilter.{
  after_status, dispatch, handle, is_list, is_track, refusal, transport, write_msg,
}
use poligon.Adbfilter.Wire.{read_msg-write_msg}
use poligon.Base.{
  Bool, List, Text, [], arith, codes, false, has_prefix, if◌then◌else◌, length, mem, none, not,
  some, true, ◌&&◌, ◌++◌, ◌<◌, ◌≡◌,
}

-- A request for a device is passed on only if the client may see the device; otherwise nothing at
-- all goes to the server, and the client is told so.
pub dispatch-transport :
    (allowed : List Text) (msg serial client upstream : Text)
    → has_prefix transport msg ≡ some serial
    → dispatch allowed msg client upstream ≡ (
        if mem serial allowed
        then after_status (λ rest. (client, rest)) (write_msg msg) upstream
        else record { to_upstream = []; to_client = codes "FAIL" ++ write_msg refusal })
unfolding dispatch
dispatch-transport allowed msg serial client upstream h = ground arith

-- A message of none of the kinds that the filter knows.
abbrev pub is_other : Text → Bool
is_other msg =
    elim (has_prefix transport msg) [ none ↦ true | some _ ↦ false ]
    && not (is_list msg)
    && not (is_track msg)

-- Every other request, and all that the client sends after it, goes to the server unread, whatever
-- devices the client may see; so do "host:transport-any" and "host:tport:serial:<serial>", which
-- select a device.
handle-other :
    (allowed : List Text) (msg rest upstream : Text)
    → length msg < 65536
    → is_other msg ≡ true
    → handle allowed (write_msg msg ++ rest) (some upstream)
      ≡ record { to_upstream = write_msg msg ++ rest; to_client = upstream }
unfolding handle dispatch
handle-other allowed msg rest upstream short rare =
    ground (arith, read_msg-write_msg msg rest short)

-- A request for the transport of a device that the client may not see is answered with FAIL and the
-- reason, and nothing of the connection reaches the server.
pub handle-refused :
    (allowed : List Text) (serial rest upstream : Text)
    → length (transport ++ serial) < 65536
    → mem serial allowed ≡ false
    → handle allowed (write_msg (transport ++ serial) ++ rest) (some upstream)
      ≡ record { to_upstream = []; to_client = codes "FAIL" ++ write_msg refusal }
unfolding handle dispatch has_prefix
handle-refused allowed serial rest upstream short unseen =
    ground (arith, read_msg-write_msg (transport ++ serial) rest short)
