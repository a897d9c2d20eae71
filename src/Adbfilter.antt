-- ===== src/Adbfilter.antt =====
-- internal/adbfilter/adbfilter.go: the part of adb's wire protocol that the filter speaks, the gate
-- on it and the filtered device list. A connection is the list of the bytes that its peer sends.
-- `strings.Fields` is modelled with the ASCII white space.
pub mod Wire
pub mod Listing
pub mod Gate
use poligon.Base.{
  Bool, List, Option, Text, [], codes, eqb, has_prefix, if◌then◌else◌, is_empty, leb, length, ltb,
  mem, none, not, select, some, suc, zero, ℕ, ◌%◌, ◌&&◌, ◌*◌, ◌++◌, ◌+◌, ◌-◌, ◌/◌, ◌==◌, ◌||◌, ◌∷◌,
}
use poligon.Screen.{ended}

abbrev pub newline : ℕ
newline = b'\n'

unfoldable pub hex_digit : ℕ → ℕ
hex_digit d = if ltb d 10 then b'0' + d else b'a' + (d - 10)

-- The digits above the lowest four, if there are any; the fuel bounds their number.
unfoldable pub high_hex : ℕ → ℕ → Text → Text
high_hex zero n out = out
high_hex (suc f) n out =
    let rest = high_hex f (n / 16) (hex_digit (n % 16) ∷ out) in if eqb n 0 then out else rest

-- fmt's %04x
unfoldable pub hex4 : ℕ → Text
unfolding hex_digit high_hex
hex4 n = high_hex n (n / 65536) (
    hex_digit (n / 4096 % 16)
    ∷ hex_digit (n / 256 % 16)
    ∷ hex_digit (n / 16 % 16)
    ∷ hex_digit (n % 16)
    ∷ [])

unfoldable pub write_msg : Text → Text
unfolding hex4
write_msg s = hex4 (length s) ++ s

-- One digit of strconv.ParseUint(…, 16, 32).
unfoldable pub parse_digit : ℕ → Option ℕ
parse_digit c =
    if leb b'0' c && leb c b'9'
    then some (c - b'0')
    else if leb b'a' c && leb c b'f'
    then some (c - b'a' + 10)
    else if leb b'A' c && leb c b'F'
    then some (c - b'A' + 10)
    else none

infixl 5 ◌>>=◌
abbrev ◌>>=◌ {α β} : {X : Type α} {Y : Type β} → Option X → (X → Option Y) → Option Y
some x >>= next = next x
none >>= next = none

-- io.ReadFull of n bytes, with what follows them.
unfoldable pub read_full : ℕ → Text → Option (Text × Text)
read_full zero s = some ([], s)
read_full (suc n) [] = none
read_full (suc n) (c ∷ s) = read_full n s >>= λ r. some (c ∷ r.0, r.1)

unfoldable pub read_msg : Text → Option (Text × Text)
unfolding parse_digit read_full
read_msg (a ∷ b ∷ c ∷ d ∷ s) = do
  a' ← parse_digit a
  b' ← parse_digit b
  c' ← parse_digit c
  d' ← parse_digit d
  read_full (a' * 4096 + b' * 256 + c' * 16 + d') s
read_msg _ = none

-- bufio.ScanLines, with the line read so far: no final empty line, and one CR off each end.
unfoldable pub strip_cr : Text → Text
strip_cr [] = []
strip_cr (c ∷ s) = if is_empty s && eqb c b'\r' then [] else c ∷ strip_cr s

unfoldable pub scan_lines : Text → Text → List Text
unfolding strip_cr
scan_lines line [] = if is_empty line then [] else strip_cr line ∷ []
scan_lines line (c ∷ s) =
    let ended = strip_cr line ∷ scan_lines [] s in
    let longer = scan_lines (line ++ c ∷ []) s in if eqb c newline then ended else longer

abbrev pub is_space : ℕ → Bool
is_space c = eqb c b' ' || (leb 9 c && leb c 13)

unfoldable pub take_field : Text → Text
take_field [] = []
take_field (c ∷ s) = if is_space c then [] else c ∷ take_field s

-- strings.Fields(line)[0], or the empty text if there is no field.
unfoldable pub first_field : Text → Text
unfolding take_field
first_field [] = []
first_field (c ∷ s) = let rest = first_field s in if is_space c then rest else take_field (c ∷ s)

abbrev pub shows : List Text → Text → Bool
shows allowed line = not (is_empty (first_field line)) && mem (first_field line) allowed

unfoldable pub render : List Text → Text
render [] = []
render (l ∷ ls) = l ++ (newline ∷ render ls)

unfoldable pub filter_device_list : List Text → Text → Text
unfolding scan_lines first_field render
filter_device_list allowed payload = render (select (shows allowed) (scan_lines [] payload))

-- What a connection makes of its two peers' bytes.
pub record Exchange : Type 0 where
  pub to_upstream : Text
  pub to_client : Text

abbrev pub okay : Text
okay = codes "OKAY"

-- The message behind FAIL, if there is one.
abbrev pub fail_message : Text → Text
fail_message rest = elim (read_msg rest) [ none ↦ [] | some (m, _) ↦ write_msg m ]

-- relayStatus: what goes to the client, and what is left if the status was OKAY.
unfoldable pub relay_status : Text → Text × Option Text
relay_status upstream = elim (read_full 4 upstream) [
  | none ↦ ([], none)
  | some (st, rest) ↦ if st == okay then (st, some rest) else (st ++ fail_message rest, none)
]

-- The loop of filterTrack: the fuel is the number of bytes, and every message takes some.
unfoldable pub track : ℕ → List Text → Text → Text
track zero allowed s = []
track (suc f) allowed s = elim (read_msg s) [
  | none ↦ []
  | some (payload, rest) ↦ write_msg (filter_device_list allowed payload) ++ track f allowed rest
]

abbrev pub filter_once : List Text → Text → Text
filter_once allowed s = elim (read_msg s) [
  | none ↦ []
  | some (payload, _) ↦ write_msg (filter_device_list allowed payload)
]

-- What happens behind the status, if it was OKAY.
abbrev pub after_status : (Text → Text × Text) → Text → Text → Exchange
after_status next sent upstream =
    let (shown, left) = relay_status upstream in
    elim left [
      | none ↦ record { to_upstream = sent; to_client = shown }
      | some rest ↦
          let (up, down) = next rest in
          record { to_upstream = sent ++ up; to_client = shown ++ down }
    ]

abbrev pub transport : Text
transport = codes "host:transport:"

abbrev pub is_list : Text → Bool
is_list msg = msg == codes "host:devices" || msg == codes "host:devices-l"

abbrev pub is_track : Text → Bool
is_track msg = msg == codes "host:track-devices" || msg == codes "host:track-devices-l"

abbrev pub refusal : Text
refusal = codes "device not reserved by you on this farm"

-- The switch of `handle`, once a message is read and the upstream is dialled.
unfoldable pub dispatch : List Text → Text → Text → Text → Exchange
dispatch allowed msg client upstream = elim (has_prefix transport msg) [
  | some serial ↦
      if not (mem serial allowed)
      then record { to_upstream = []; to_client = codes "FAIL" ++ write_msg refusal }
      else after_status (λ rest. (client, rest)) (write_msg msg) upstream
  | none ↦
      if is_list msg
      then after_status (λ rest. ([], filter_once allowed rest)) (write_msg msg) upstream
      else if is_track msg
      then after_status (λ rest. ([], track (length rest) allowed rest)) (write_msg msg) upstream
      else record { to_upstream = write_msg msg ++ client; to_client = upstream }
]

-- `none` for the upstream: the dial failed.
unfoldable pub handle : List Text → Text → Option Text → Exchange
unfolding dispatch
handle allowed client upstream = elim (read_msg client) [
  | none ↦ record { to_upstream = []; to_client = [] }
  | some (msg, rest) ↦ elim upstream [
    | none ↦ record { to_upstream = []; to_client = [] }
    | some bytes ↦ dispatch allowed msg rest bytes
  ]
]
