-- ===== src/Moonraker/Reading.antt =====
-- internal/moonraker/client.go: readLoop against the deltas that come in.
use axm_sfn.Common.{
  ℕ, ◌≤◌, ◌<◌, ◌≡◌, refl, sym, ap, ◌∙◌, Bool, true, false, List, [], ◌∷◌, ◌++◌, Option, none, some,
  inl, inr, arith, length, take, ltb, if◌then◌else◌, Bool-cases, append-nil, append_assoc,
  length-append, take_of_length-le, take_append-le, take-take_append, length-take, ltb-false,
  ltb→lt,
}
use axm_sfn.Common.Int.{is_zero}
use axm_sfn.Common.Text.{codes, bytes_eq, bytes_eq→eq}
use axm_sfn.Moonraker.State.{Status}
use axm_sfn.Moonraker.Client.{
  Response, StatusDelta, Client, ClientJson, klippy_disconnected, offer, offer_status, offer_params,
  handle_status_update, read_frame, Incoming, broken, garbled, frame, read_loop, updates_capacity,
}

apart : bytes_eq (codes "notify_klippy_disconnected") (codes "notify_status_update") ≡ false
unfolding bytes_eq
apart = refl

module _ {Raw F : Type 0} (json : ClientJson Raw F) where
  abbrev pub status_of : ℕ → F → Option (Status Raw) → List (StatusDelta Raw F)
  status_of now time none = []
  status_of now time (some status) =
      record { status = status; event_time = time; received_at = now } ∷ []

  abbrev pub params_of : ℕ → Option (List Raw) → List (StatusDelta Raw F)
  params_of now none = []
  params_of now (some []) = []
  params_of now (some (x ∷ [])) = []
  params_of now (some (x ∷ y ∷ rest)) = status_of now (json.number y) (json.status x)

  -- The delta that a frame carries: it is a notification, of the status, with two parameters that decode.
  abbrev pub delta_of : ℕ → Response Raw → List (StatusDelta Raw F)
  delta_of now r =
      if is_zero r.id
      then (if bytes_eq r.method (codes "notify_status_update")
          then params_of now (json.array r.params)
          else [])
      else []

  abbrev pub is_disconnect : Response Raw → Bool
  is_disconnect r =
      if is_zero r.id then bytes_eq r.method (codes "notify_klippy_disconnected") else false

  -- The deltas up to the end of the reading.
  abbrev pub deltas : List (Incoming Raw) → List (StatusDelta Raw F)
  deltas [] = []
  deltas (broken ∷ rest) = []
  deltas (garbled ∷ rest) = deltas rest
  deltas (frame now r ∷ rest) =
      let later = deltas rest in if is_disconnect r then [] else delta_of now r ++ later

  offer-take :
      (d : StatusDelta Raw F) (c : Client Raw F)
      → length c.updates ≤ updates_capacity
      → (offer d c).updates ≡ take updates_capacity (c.updates ++ d ∷ [])
  offer-take d c h = elim (Bool-cases (ltb (length c.updates) updates_capacity)) [
    | inl room ↦
        let small : length c.updates < updates_capacity =
          ltb→lt (length c.updates) updates_capacity room in
        rw room (
          sym (
            take_of_length-le updates_capacity (c.updates ++ d ∷ [])
              (omega (arith, small, length-append c.updates (d ∷ [])))))
    | inr full ↦
        let all : updates_capacity ≤ length c.updates =
          ltb-false (length c.updates) updates_capacity full in
        rw full (
          sym (
            take_append-le updates_capacity c.updates (d ∷ []) all
            ∙ take_of_length-le updates_capacity c.updates h))
  ]

  kept :
      (c : Client Raw F)
      → length c.updates ≤ updates_capacity
      → c.updates ≡ take updates_capacity (c.updates ++ [])
  kept c h = sym (
      ap (take updates_capacity) (append-nil c.updates)
      ∙ take_of_length-le updates_capacity c.updates h)

  offer_status-take :
      (now : ℕ) (time : F) (o : Option (Status Raw)) (c : Client Raw F)
      → length c.updates ≤ updates_capacity
      → (offer_status json now time o c).updates
        ≡ take updates_capacity (c.updates ++ status_of now time o)
  offer_status-take now time none c h = kept c h
  offer_status-take now time (some status) c h = offer-take _ c h

  offer_params-take :
      (now : ℕ) (o : Option (List Raw)) (c : Client Raw F)
      → length c.updates ≤ updates_capacity
      → (offer_params json now o c).updates ≡ take updates_capacity (c.updates ++ params_of now o)
  offer_params-take now none c h = kept c h
  offer_params-take now (some []) c h = kept c h
  offer_params-take now (some (x ∷ [])) c h = kept c h
  offer_params-take now (some (x ∷ y ∷ rest)) c h =
      offer_status-take now (json.number y) (json.status x) c h

  -- A frame that goes on being read gives its delta to the channel, as far as there is room.
  pub read_frame-take :
      (now : ℕ) (r : Response Raw) (c : Client Raw F)
      → length c.updates ≤ updates_capacity
      → is_disconnect r ≡ false
      → (after : Client Raw F) × (read_frame json now r c ≡ (none, after))
        × (after.updates ≡ take updates_capacity (c.updates ++ delta_of now r))
  unfolding read_frame handle_status_update
  read_frame-take now r c h on = elim (Bool-cases (is_zero r.id)) [
    | inr n ↦ rw n (_, refl, kept c h)
    | inl y ↦ elim (Bool-cases (bytes_eq r.method (codes "notify_status_update"))) [
      | inl e ↦ rw (y, e) (_, refl, offer_params-take now (json.array r.params) c h)
      | inr n ↦
          let other : bytes_eq r.method (codes "notify_klippy_disconnected") ≡ false = rw y at on in
          rw (y, n, other) (c, refl, kept c h)
    ]
  ]

  pub read_frame-disconnect :
      (now : ℕ) (r : Response Raw) (c : Client Raw F)
      → is_disconnect r ≡ true
      → read_frame json now r c ≡ (some klippy_disconnected, c)
  unfolding read_frame
  read_frame-disconnect now r c off = elim (Bool-cases (is_zero r.id)) [
    | inr n ↦ absurd (ground (arith, rw n at off))
    | inl y ↦
        let e : bytes_eq r.method (codes "notify_klippy_disconnected") ≡ true = rw y at off in
        let other : bytes_eq r.method (codes "notify_status_update") ≡ false =
          rw (bytes_eq→eq r.method (codes "notify_klippy_disconnected") e) apart in
        rw (y, other, e)
  ]

  -- While nothing is taken out of a channel with at most 64 deltas, readLoop gives it the deltas of the
  -- frames in their order, up to the end of the reading, and drops those that find it full: what it
  -- holds are the first 64 of its own and the new ones.
  pub read_loop-take :
      (frames : List (Incoming Raw)) (c : Client Raw F)
      → length c.updates ≤ updates_capacity
      → (read_loop json frames c).1.updates ≡ take updates_capacity (c.updates ++ deltas frames)
  unfolding read_loop
  read_loop-take [] c h = kept c h
  read_loop-take (broken ∷ rest) c h = kept c h
  read_loop-take (garbled ∷ rest) c h = read_loop-take rest c h
  read_loop-take (frame now r ∷ rest) c h = elim (Bool-cases (is_disconnect r)) [
    | inl off ↦
        let stop = read_frame-disconnect now r c off in
        rw (stop, read_loop, off) (ap (λ x. x.1.updates) stop ∙ kept c h)
    | inr on ↦
        let (next, done, given) = read_frame-take now r c h on in
        let room : length next.updates ≤ updates_capacity =
          omega
            (arith, ap length given, length-take updates_capacity (c.updates ++ delta_of now r)) in
        rw (done, read_loop, on)
          (ap (λ x. (read_loop json rest x.1).1.updates) done
            ∙ read_loop-take rest next room
            ∙ ap (λ l. take updates_capacity (l ++ deltas rest)) given
            ∙ take-take_append updates_capacity (c.updates ++ delta_of now r) (deltas rest)
            ∙ ap (take updates_capacity) (append_assoc c.updates (delta_of now r) (deltas rest)))
  ]
