-- ===== src/Tunnels/Sync.antt =====
-- internal/api/debugtunnel.go: the tunnels after a round of SyncADBTunnels.
use poligon.Adbfilter.{handle, refusal, transport, write_msg}
use poligon.Adbfilter.Gate.{handle-refused}
use poligon.Base.{
  ==_eq, Bool, Bool-cases, List, Option-cases, Text, [], any, any-append, ap, arith, codes, eqb,
  false, get, get-put, if◌then◌else◌, inl, inr, length, mem, none, put, refl, some, subst, sym,
  true, ℕ, ◌&&◌, ◌++◌, ◌<◌, ◌==◌, ◌∙◌, ◌∷◌, ◌≡◌, ◌⊎◌,
}
use poligon.Reserve.Batches.{active_users, distinct, mem-distinct}
use poligon.Store.{Db, Error, Result, Result-cases, err, ok, succeeds}
use poligon.Store.TunnelPorts.{tunnel_port}
use poligon.Tunnels.{
  TunnelConfig, UserTunnel, ensure, held_serials, is_shown, set_allowed, sync_adb_tunnels,
  sync_user_tunnel, sync_users, tunnel_users,
}
use poligon.Tunnels.Held.{mem-held_serials}
use poligon.Tunnels.Ports.{
  HasPorts, Shows, State, has_port, has_port-tunnel_port, held_serials-of, mem-tunnel_users,
  serials_of, succeeds-tunnel_port, tunnel_port-frame, tunnel_port-has_port,
}

module _ (cfg : TunnelConfig) (listens : ℕ → Bool) (on : eqb cfg.adb_tunnel_port 0 ≡ false) where
  pub sync_user-held :
      (u v : Text) (s : State)
      → held_serials v (sync_user_tunnel cfg listens u s).0 ≡ held_serials v s.0
  unfolding sync_user_tunnel
  sync_user-held u v (db, ts) =
      let (d, r) = tunnel_port-frame u cfg.range_start cfg.range_end db in
      let same : (sync_user_tunnel cfg listens u (db, ts)).0
          ≡ (tunnel_port u cfg.range_start cfg.range_end db).0 =
        ground arith in
      ap (held_serials v) same
      ∙ held_serials-of v (tunnel_port u cfg.range_start cfg.range_end db).0
      ∙ ap (λ x. serials_of v x (tunnel_port u cfg.range_start cfg.range_end db).0.reservations) d
      ∙ ap (serials_of v db.devices) r
      ∙ sym (held_serials-of v db)

  -- The three ways through: no port, no listener, and the list set.
  abbrev port : Text → State → Result ℕ
  port u s = (tunnel_port u cfg.range_start cfg.range_end s.0).1

  abbrev stored : Text → State → Db
  stored u s = (tunnel_port u cfg.range_start cfg.range_end s.0).0

  sync_user_err :
      (u : Text) (s : State) {e : Error}
      → port u s ≡ err e
      → sync_user_tunnel cfg listens u s ≡ (stored u s, s.1)
  unfolding sync_user_tunnel
  sync_user_err u (db, ts) e = ground arith

  sync_user_known :
      (u : Text) (s : State) {p : ℕ} {t : UserTunnel}
      → port u s ≡ ok p
      → get u s.1 ≡ some t
      → sync_user_tunnel cfg listens u s
        ≡ (stored u s, put u (record t { allowed = held_serials u s.0 }) s.1)
  unfolding sync_user_tunnel ensure set_allowed
  sync_user_known u (db, ts) e k = ground arith

  sync_user_new :
      (u : Text) (s : State) {p : ℕ}
      → port u s ≡ ok p
      → get u s.1 ≡ none
      → sync_user_tunnel cfg listens u s ≡ (
        stored u s,
        if listens p
            then put u
                (record { port = p; allowed = held_serials u s.0 })
                (put u (record { port = p; allowed = [] }) s.1)
            else s.1,
      )
  unfolding sync_user_tunnel ensure set_allowed
  sync_user_new u (db, ts) {p} e k =
      ground (arith, get-put u u (record { port = p; allowed = [] }) ts)

  -- Another user's tunnel stays as it is, and the user's own shows what he holds.
  get-sync_user :
      (u v : Text) (s : State)
      → (u == v) ≡ false
      → get v (sync_user_tunnel cfg listens u s).1 ≡ get v s.1
  get-sync_user u v s ne = elim (Result-cases (port u s)) [
    | inr (x, e) ↦ rw (sync_user_err u s e)
    | inl (p, e) ↦ elim (Option-cases (get u s.1)) [
      | inl k ↦ rw (sync_user_new u s e k) (
          ground (
            arith,
            get-put v u (record { port = p; allowed = held_serials u s.0 })
                (put u (record { port = p; allowed = [] }) s.1),
            get-put v u (record { port = p; allowed = [] }) s.1,
          ))
      | inr (t, k) ↦
          rw (sync_user_known u s e k)
            (ground (arith, get-put v u (record t { allowed = held_serials u s.0 }) s.1))
    ]
  ]

  pub sync_user-Shows :
      (u : Text) (s : State)
      → HasPorts s
      → Shows u (held_serials u s.0) (sync_user_tunnel cfg listens u s)
  sync_user-Shows u s h t g = elim (Result-cases (port u s)) [
    | inr (x, e) ↦
        let had : get u s.1 ≡ some t = subst (λ r. get u r.1 ≡ some t) (sync_user_err u s e) g in
        absurd (ground (arith, succeeds-tunnel_port u cfg.range_start cfg.range_end s.0, h u t had))
    | inl (p, e) ↦ elim (Option-cases (get u s.1)) [
      | inl k ↦
          let new = subst (λ r. get u r.1 ≡ some t) (sync_user_new u s e k) g in
          ground (
            arith,
            new,
            get-put u u (record { port = p; allowed = held_serials u s.0 })
                (put u (record { port = p; allowed = [] }) s.1),
          )
      | inr (old, k) ↦
          let known = subst (λ r. get u r.1 ≡ some t) (sync_user_known u s e k) g in
          ground (arith, known, get-put u u (record old { allowed = held_serials u s.0 }) s.1)
    ]
  ]

  sync_user_stored : (u : Text) (s : State) → (sync_user_tunnel cfg listens u s).0 ≡ stored u s
  unfolding sync_user_tunnel
  sync_user_stored u (db, ts) = ground arith

  pub sync_user-HasPorts :
      (u : Text) (s : State) → HasPorts s → HasPorts (sync_user_tunnel cfg listens u s)
  sync_user-HasPorts u s h v t g =
      subst (λ d. has_port v d ≡ true) (sym (sync_user_stored u s))
        (elim (Bool-cases (u == v)) [
          | inr ne ↦
              has_port-tunnel_port u v cfg.range_start cfg.range_end s.0
                (h v t (sym (get-sync_user u v s ne) ∙ g))
          | inl same ↦ elim (Result-cases (port u s)) [
            | inr (x, e) ↦
                has_port-tunnel_port u v cfg.range_start cfg.range_end s.0
                  (h v t (subst (λ r. get v r.1 ≡ some t) (sync_user_err u s e) g))
            | inl (p, e) ↦
                subst (λ w. has_port w (stored u s) ≡ true) (==_eq u v same)
                  (tunnel_port-has_port u cfg.range_start cfg.range_end s.0 (ap succeeds e))
          ]
        ])

  -- The tunnels of the users of the list, after their turns.
  sync_users-Shows :
      (us : List Text) (v : Text) (s : State)
      → HasPorts s
      → (mem v us ≡ true) ⊎ Shows v (held_serials v s.0) s
      → Shows v (held_serials v s.0) (sync_users cfg listens us s)
  unfolding sync_users
  sync_users-Shows [] v s h (inl m) = cc
  sync_users-Shows [] v s h (inr good) = good
  sync_users-Shows (u ∷ us) v s h good =
      let s' = sync_user_tunnel cfg listens u s in
      subst (λ serials. Shows v serials (sync_users cfg listens us s')) (sync_user-held u v s)
        (sync_users-Shows us v s' (sync_user-HasPorts u s h) (
          subst (λ serials. (mem v us ≡ true) ⊎ Shows v serials s') (sym (sync_user-held u v s))
            (elim (Bool-cases (u == v)) [
              | inl same ↦ inr (
                  subst (λ w. Shows w (held_serials w s.0) s') (==_eq u v same)
                    (sync_user-Shows u s h))
              | inr ne ↦ elim good [
                | inl m ↦ inl (ground arith)
                | inr old ↦ inr (λ t g. old t (sym (get-sync_user u v s ne) ∙ g))
              ]
            ])))

  -- A user who is not on the list keeps his tunnel.
  get-sync_users :
      (us : List Text) (v : Text) (s : State)
      → mem v us ≡ false
      → get v (sync_users cfg listens us s).1 ≡ get v s.1
  unfolding sync_users
  get-sync_users [] v s m = refl
  get-sync_users (u ∷ us) v s m =
      get-sync_users us v (sync_user_tunnel cfg listens u s) (ground arith)
      ∙ get-sync_user u v s (ground arith)

  -- After SyncADBTunnels every tunnel shows just what its user holds.
  sync-Shows :
      (v : Text) (s : State)
      → HasPorts s
      → Shows v (held_serials v s.0) (sync_adb_tunnels cfg listens s)
  unfolding sync_adb_tunnels
  sync-Shows v s h =
      let all_users = tunnel_users s.1 ++ active_users s.0 in
      elim (Bool-cases (mem v (distinct all_users))) [
        | inl m ↦ sync_users-Shows (distinct all_users) v s h (inl m)
        | inr m ↦ λ t g. absurd (
            let had : get v s.1 ≡ some t = sym (get-sync_users (distinct all_users) v s m) ∙ g in
            ground (
              arith,
              had,
              mem-distinct v all_users,
              any-append (λ j. j == v) (tunnel_users s.1) (active_users s.0),
              mem-tunnel_users v s.1,
            ))
      ]

  -- After SyncADBTunnels a tunnel lists a serial exactly when its user holds an active reservation of
  -- an Android device with that serial: the leases that were reaped are gone from it, those of before a
  -- restart are back. Before, every user with a tunnel had a port.
  pub mem-synced :
      (user serial : Text) (s : State) (t : UserTunnel)
      → HasPorts s
      → get user (sync_adb_tunnels cfg listens s).1 ≡ some t
      → mem serial t.allowed ≡ any (λ d. is_shown user s.0 d && d.serial == serial) s.0.devices
  mem-synced user serial s t h g =
      ap (mem serial) (sync-Shows user s h t g) ∙ mem-held_serials user serial s.0

  -- So a client on that tunnel who asks by host:transport:<serial> for a device that its user does not
  -- hold is refused, and nothing of his connection reaches the adb server. The request is shorter
  -- than 65536 bytes, and before every user with a tunnel had a port. Of the other ways to ask, as
  -- host:tport:serial:<serial>, this does not speak.
  pub handle-synced :
      (user serial rest upstream : Text) (s : State) (t : UserTunnel)
      → HasPorts s
      → get user (sync_adb_tunnels cfg listens s).1 ≡ some t
      → any (λ d. is_shown user s.0 d && d.serial == serial) s.0.devices ≡ false
      → length (transport ++ serial) < 65536
      → handle t.allowed (write_msg (transport ++ serial) ++ rest) (some upstream)
        ≡ record { to_upstream = []; to_client = codes "FAIL" ++ write_msg refusal }
  handle-synced user serial rest upstream s t h g unheld short =
      handle-refused t.allowed serial rest upstream short (mem-synced user serial s t h g ∙ unheld)
