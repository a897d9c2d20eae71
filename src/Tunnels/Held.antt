-- ===== src/Tunnels/Held.antt =====
-- internal/api/debugtunnel.go: the serials that a user may see.
use poligon.Base.{
  Text, any, any-map, any-order_by, any-select, mem, select, text_leb, ◌&&◌, ◌==◌, ◌∙◌, ◌≡◌,
}
use poligon.Store.{Db}
use poligon.Store.Devices.{all_devices}
use poligon.Tunnels.{held_serials, is_shown}

-- A serial is among them exactly when an Android device with it is held by the user.
pub mem-held_serials :
    (user serial : Text) (db : Db)
    → mem serial (held_serials user db)
      ≡ any (λ d. is_shown user db d && d.serial == serial) db.devices
unfolding held_serials
mem-held_serials user serial db =
    any-map (λ s. s == serial) (λ d. d.serial) (select (is_shown user db) (all_devices db))
    ∙ any-select (is_shown user db) (λ d. d.serial == serial) (all_devices db)
    ∙ any-order_by (λ a b. text_leb a.id b.id) (λ d. is_shown user db d && d.serial == serial)
        db.devices
