-- ===== src/Moonraker/Delivery/Lossless.antt =====
-- internal/moonraker/client.go and custody/packetizer.go: a packetizer that keeps up with readLoop.
use axm_sfn.Common.{
  ℕ, ◌≤◌, ◌<◌, ◌≡◌, refl, sym, ap, ◌∙◌, subst, true, List, [], ◌∷◌, ◌++◌, Option, none, some, inl,
  inr, arith, length, Bool-cases, append-nil, append_assoc, length-append, take_of_length-le,
}
use axm_sfn.Common.Text.{bytes_eq, codes}
use axm_sfn.Common.Int.{is_zero}
use axm_sfn.Moonraker.Client.{
  Response, ClientJson, Incoming, broken, garbled, frame, updates_capacity,
}
use axm_sfn.Moonraker.State.{Status}
use axm_sfn.Moonraker.Reading.{deltas, delta_of, params_of, status_of, is_disconnect}
use axm_sfn.Moonraker.Delivery.{
  Turn, reads, receives, Pipe, receive, take_turn, take_turns, reads_of, offered, line,
  receive-line, receive-reading, read-line, read-offered, idle-read, idle-offered,
}

module _ {Raw F : Type 0} (json : ClientJson Raw F) where
  -- Before each of the turns the channel has room for one delta at least.
  unfoldable pub HasRoom : List (Turn Raw) → Pipe Raw F → Type 0
  HasRoom [] p = length p.client.updates ≤ updates_capacity
  HasRoom (t ∷ ts) p =
      (length p.client.updates < updates_capacity) × HasRoom ts (take_turn json t p)

  status_of-one :
      (now : ℕ) (time : F) (s : Option (Status Raw)) → length (status_of json now time s) ≤ 1
  status_of-one now time none = omega arith
  status_of-one now time (some s) = omega arith

  params_of-one : (now : ℕ) (ps : Option (List Raw)) → length (params_of json now ps) ≤ 1
  params_of-one now none = omega arith
  params_of-one now (some []) = omega arith
  params_of-one now (some (x ∷ [])) = omega arith
  params_of-one now (some (x ∷ y ∷ rest)) = status_of-one now (json.number y) (json.status x)

  delta_of-one : (now : ℕ) (r : Response Raw) → length (delta_of json now r) ≤ 1
  delta_of-one now r = elim (Bool-cases (is_zero r.id)) [
    | inr n ↦ rw n (omega arith)
    | inl y ↦ elim (Bool-cases (bytes_eq r.method (codes "notify_status_update"))) [
      | inr n ↦ rw (y, n) (omega arith)
      | inl e ↦ rw (y, e) (params_of-one now (json.array r.params))
    ]
  ]

  deltas-one : (f : Incoming Raw) → length (deltas json (f ∷ [])) ≤ 1
  deltas-one broken = omega arith
  deltas-one garbled = omega arith
  deltas-one (frame now r) = elim (Bool-cases (is_disconnect json r)) [
    | inl off ↦ rw off (omega arith)
    | inr on ↦
        rw on (omega (arith, delta_of-one now r, ap length (append-nil (delta_of json now r))))
  ]

  -- A read of a channel with room keeps its delta.
  roomy_read-line :
      (f : Incoming Raw) (p : Pipe Raw F)
      → p.looping ≡ true
      → length p.client.updates < updates_capacity
      → line json (take_turn json (reads f) p) ≡ line json p ++ deltas json (f ∷ [])
  roomy_read-line f p on room =
      read-line json f p on (omega arith)
      ∙ ap (λ l. p.received ++ l)
          (take_of_length-le updates_capacity (p.client.updates ++ deltas json (f ∷ []))
            (omega (arith, deltas-one f, length-append p.client.updates (deltas json (f ∷ [])))))
      ∙ sym (append_assoc p.received p.client.updates (deltas json (f ∷ [])))

  -- Where the packetizer takes so often that the channel has room before every turn, no delta is lost
  -- and none is doubled or moved: what it has received, with what still waits, is what it had and what
  -- waited, followed by the deltas of the frames behind up to the end of the reading.
  pub take_turns-lossless :
      (ts : List (Turn Raw)) (p : Pipe Raw F)
      → HasRoom ts p
      → line json (take_turns json ts p) ≡ line json p ++ offered json p.looping ts
  unfolding take_turns offered reads_of HasRoom
  take_turns-lossless [] p room = elim (Bool-cases p.looping) [
    | inr off ↦ rw off (sym (append-nil (line json p)))
    | inl on ↦ rw on (sym (append-nil (line json p)))
  ]
  take_turns-lossless (receives ∷ ts) p (room, later) =
      take_turns-lossless ts (receive p.client.updates p) later
      ∙ ap (λ b. line json (receive p.client.updates p) ++ offered json b ts)
          (receive-reading json p.client.updates p)
      ∙ ap (λ l. l ++ offered json p.looping ts) (receive-line json p.client.updates p refl)
  take_turns-lossless (reads f ∷ ts) p (room, later) = elim (Bool-cases p.looping) [
    | inr off ↦
        ap (λ q. line json (take_turns json ts q)) (idle-read json f p off)
        ∙ take_turns-lossless ts p (subst (HasRoom ts) (idle-read json f p off) later)
        ∙ ap (λ l. line json p ++ l) (sym (idle-offered json f ts p off))
    | inl on ↦
        take_turns-lossless ts (take_turn json (reads f) p) later
        ∙ ap (λ l. l ++ offered json (take_turn json (reads f) p).looping ts)
            (roomy_read-line f p on room)
        ∙ sym (read-offered json f ts p on (omega arith))
  ]
