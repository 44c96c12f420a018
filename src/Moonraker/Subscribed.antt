-- ===== src/Moonraker/Subscribed.antt =====
-- internal/moonraker/types.go with cmd/axm-edge/main.go: what the daemon subscribes to, against what
-- the packetizer reads.
use axm_sfn.Common.{
  Bool, true, false, ◌||◌, List, [], ◌∷◌, ◌++◌, ◌≡◌, refl, inl, inr, Bool-cases, arith, some,
  if◌then◌else◌,
}
use axm_sfn.Common.Int.{ℤ}
use axm_sfn.Common.Text.{Bytes, bytes_eq, bytes_eq_iff, bytes_eq_refl}
use axm_sfn.Custody.Delta.{
  StatusObject, extruder, heater_bed, motion_report, print_stats, mcu, chamber, other, object_of,
}
use axm_sfn.Moonraker.Objects.{
  client_config, subscribe_params, moon_objects, default_subscribe_objects, is_member, put_object,
  put_objects,
}

-- A case of applyDelta's switch stands for the object.
pub is_read : StatusObject → Bool
is_read other = false
is_read extruder = true
is_read heater_bed = true
is_read motion_report = true
is_read print_stats = true
is_read mcu = true
is_read chamber = true

-- No name twice.
pub is_distinct : List Bytes → Bool
is_distinct [] = true
is_distinct (x ∷ xs) = if is_member x xs then false else is_distinct xs

default-is_read : (o : Bytes) → is_member o default_subscribe_objects ≡ is_read (object_of o)
unfolding is_member default_subscribe_objects object_of is_read
default-is_read o = ground arith

is_member-append :
    (o : Bytes) (xs : List Bytes) (x : Bytes)
    → is_member o (xs ++ x ∷ []) ≡ (is_member o xs || bytes_eq o x)
unfolding is_member
is_member-append o [] x = ground arith
is_member-append o (y ∷ ys) x = ground (arith, is_member-append o ys x)

is_member-put_object :
    (o x : Bytes) (xs : List Bytes)
    → is_member o (put_object x xs) ≡ (bytes_eq o x || is_member o xs)
unfolding put_object
is_member-put_object o x xs = elim (Bool-cases (is_member x xs)) [
  | inl there ↦ rw there (elim (Bool-cases (bytes_eq o x)) [
    | inl same ↦ ground (arith, there, bytes_eq_iff o x)
    | inr n ↦ rw n
  ])
  | inr n ↦ rw n (ground (arith, is_member-append o xs x))
]

is_member-put_objects :
    (o : Bytes) (more xs : List Bytes)
    → is_member o (put_objects more xs) ≡ (is_member o xs || is_member o more)
unfolding put_objects is_member
is_member-put_objects o [] xs = ground arith
is_member-put_objects o (x ∷ more) xs =
    ground (arith, is_member-put_objects o more (put_object x xs), is_member-put_object o x xs)

is_distinct-append :
    (x : Bytes) (xs : List Bytes)
    → is_member x xs ≡ false
    → is_distinct xs ≡ true
    → is_distinct (xs ++ x ∷ []) ≡ true
unfolding is_distinct is_member
is_distinct-append x [] new h = refl
is_distinct-append x (y ∷ ys) new h = ground (
  arith,
  is_member-append y ys x,
  is_distinct-append x ys,
  bytes_eq_iff x y,
  bytes_eq_iff y x,
  bytes_eq_refl x,
)

is_distinct-put_objects :
    (more xs : List Bytes) → is_distinct xs ≡ true → is_distinct (put_objects more xs) ≡ true
unfolding put_objects put_object
is_distinct-put_objects [] xs h = h
is_distinct-put_objects (x ∷ more) xs h =
    is_distinct-put_objects more (put_object x xs) (elim (Bool-cases (is_member x xs)) [
      | inl there ↦ rw there h
      | inr new ↦ rw new (is_distinct-append x xs new h)
    ])

default-is_distinct : is_distinct default_subscribe_objects ≡ true
unfolding is_distinct is_member default_subscribe_objects bytes_eq
default-is_distinct = refl

-- The client that runDaemon makes subscribes, each once, to the objects that applyDelta reads and to the
-- configured ones, whatever these are, and to no others.
pub subscribe_params-is_read :
    (endpoint key name version : Bytes) (delay : ℤ) (configured : List Bytes) (o : Bytes)
    → let asked =
        subscribe_params
          (client_config endpoint key name version delay (some (moon_objects configured))) in
      (is_member o asked.objects ≡ (is_read (object_of o) || is_member o configured))
      × (is_distinct asked.objects ≡ true)
unfolding subscribe_params client_config moon_objects
subscribe_params-is_read endpoint key name version delay configured o = (
  rw (is_member-put_objects o configured default_subscribe_objects, default-is_read o),
  is_distinct-put_objects configured default_subscribe_objects default-is_distinct,
)
