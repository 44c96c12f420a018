-- ===== src/Moonraker/Delivery.antt =====
-- internal/moonraker/client.go and custody/packetizer.go: the channel Updates between readLoop and the
-- packetizer's select, in whatever order the two have their turns.
pub mod Lossless
use mathlib.Core.List.{Sublistᴰ}
use mathlib.Core.List.Sublistᴰ.{
  trans, append, nil-sublist, slnil, cons, cons-cons, refl as sublist_refl,
}
use axm_sfn.Common.{
  ℕ, zero, suc, ◌≤◌, ◌<◌, ◌≡◌, refl, sym, ap, ◌∙◌, subst, Bool, true, false, List, [], ◌∷◌, ◌++◌,
  Option, none, some, inl, inr, arith, length, take, ltb, if◌then◌else◌, Bool-cases, append-nil,
  append_assoc, length-append, length-take, take_of_length-le,
}
use axm_sfn.Moonraker.Client.{
  StatusDelta, Client, ClientJson, ClientError, Incoming, broken, garbled, frame, read_loop,
  read_frame, updates_capacity,
}
use axm_sfn.Moonraker.Reading.{
  deltas, delta_of, is_disconnect, read_frame-take, read_frame-disconnect, read_loop-take,
}

-- readLoop reads once more, or the packetizer receives.
pub data Turn (Raw : Type 0) : Type 0 where
  reads : Incoming Raw → Turn Raw
  receives : Turn Raw

-- The client, whether readLoop goes on, and what the packetizer has received.
pub record Pipe (Raw : Type 0) (F : Type 0) : Type 0 where
  pub client : Client Raw F
  pub looping : Bool
  pub received : List (StatusDelta Raw F)

abbrev pub is_none {ℓ} : {A : Type ℓ} → Option A → Bool
is_none none = true
is_none (some a) = false

unfoldable pub reads_of : {Raw : Type 0} → List (Turn Raw) → List (Incoming Raw)
reads_of [] = []
reads_of (reads f ∷ ts) = f ∷ reads_of ts
reads_of (receives ∷ ts) = reads_of ts

module _ {Raw F : Type 0} where
  abbrev pub receive : List (StatusDelta Raw F) → Pipe Raw F → Pipe Raw F
  receive [] p = p
  receive (d ∷ rest) p = record p {
    client = record p.client { updates = rest };
    received = p.received ++ d ∷ [];
  }

  abbrev pub take_turn : ClientJson Raw F → Turn Raw → Pipe Raw F → Pipe Raw F
  take_turn json (reads f) p =
      if p.looping
      then record p {
        client = (read_loop json (f ∷ []) p.client).1;
        looping = is_none (read_loop json (f ∷ []) p.client).0;
      }
      else p
  take_turn json receives p = receive p.client.updates p

  unfoldable pub take_turns : ClientJson Raw F → List (Turn Raw) → Pipe Raw F → Pipe Raw F
  take_turns json [] p = p
  take_turns json (t ∷ ts) p = take_turns json ts (take_turn json t p)

module _ {ℓ} {A : Type ℓ} where
  Sublistᴰ-take : (n : ℕ) (xs : List A) → Sublistᴰ (take n xs) xs
  Sublistᴰ-take zero xs = nil-sublist xs
  Sublistᴰ-take (suc n) [] = slnil
  Sublistᴰ-take (suc n) (x ∷ xs) = cons-cons refl (Sublistᴰ-take n xs)

module _ {Raw F : Type 0} (json : ClientJson Raw F) where
  -- One read of a loop that goes on, against the deltas of all reads from it on.
  deltas-split :
      (f : Incoming Raw) (rest : List (Incoming Raw)) (c : Client Raw F)
      → length c.updates ≤ updates_capacity
      → deltas json (f ∷ rest)
        ≡ deltas json (f ∷ [])
          ++ (if is_none (read_loop json (f ∷ []) c).0 then deltas json rest else [])
  unfolding read_loop
  deltas-split broken rest c h = refl
  deltas-split garbled rest c h = refl
  deltas-split (frame now r) rest c h = elim (Bool-cases (is_disconnect json r)) [
    | inl off ↦ rw (off, read_frame-disconnect json now r c off, read_loop)
    | inr on ↦
        let (next, done, given) = read_frame-take json now r c h on in
        rw (on, done, read_loop)
          (ap (λ l. l ++ deltas json rest) (sym (append-nil (delta_of json now r))))
  ]

  -- The deltas that reach the channel or find it full, while readLoop goes on.
  unfoldable pub offered : Bool → List (Turn Raw) → List (StatusDelta Raw F)
  offered reading ts = if reading then deltas json (reads_of ts) else []

  pub receive-bounded :
      (l : List (StatusDelta Raw F)) (p : Pipe Raw F)
      → length p.client.updates ≤ updates_capacity
      → p.client.updates ≡ l
      → length (receive l p).client.updates ≤ updates_capacity
  receive-bounded [] p h e = h
  receive-bounded (d ∷ rest) p h e = omega (arith, ap length e)

  pub take_turn-bounded :
      (t : Turn Raw) (p : Pipe Raw F)
      → length p.client.updates ≤ updates_capacity
      → length (take_turn json t p).client.updates ≤ updates_capacity
  take_turn-bounded (reads f) p h = elim (Bool-cases p.looping) [
    | inr n ↦ rw n h
    | inl y ↦ rw y (
        omega (
          arith,
          ap length (read_loop-take json (f ∷ []) p.client h),
          length-take updates_capacity (p.client.updates ++ deltas json (f ∷ [])),
        ))
  ]
  take_turn-bounded receives p h = receive-bounded p.client.updates p h refl

  -- What a turn does to the sequence of the received and the waiting deltas.
  abbrev pub line : Pipe Raw F → List (StatusDelta Raw F)
  line p = p.received ++ p.client.updates

  pub receive-line :
      (l : List (StatusDelta Raw F)) (p : Pipe Raw F)
      → p.client.updates ≡ l
      → line (receive l p) ≡ line p
  receive-line [] p e = refl
  receive-line (d ∷ rest) p e =
      append_assoc p.received (d ∷ []) rest ∙ ap (λ l. p.received ++ l) (sym e)

  pub receive-reading :
      (l : List (StatusDelta Raw F)) (p : Pipe Raw F) → (receive l p).looping ≡ p.looping
  receive-reading [] p = refl
  receive-reading (d ∷ rest) p = refl

  -- A read appends its deltas to the line, up to the capacity of the channel.
  pub read-line :
      (f : Incoming Raw) (p : Pipe Raw F)
      → p.looping ≡ true
      → length p.client.updates ≤ updates_capacity
      → line (take_turn json (reads f) p)
        ≡ p.received ++ take updates_capacity (p.client.updates ++ deltas json (f ∷ []))
  read-line f p on h = rw on (ap (λ l. p.received ++ l) (read_loop-take json (f ∷ []) p.client h))

  pub read-offered :
      (f : Incoming Raw) (ts : List (Turn Raw)) (p : Pipe Raw F)
      → p.looping ≡ true
      → length p.client.updates ≤ updates_capacity
      → line p ++ offered p.looping (reads f ∷ ts)
        ≡ (line p ++ deltas json (f ∷ [])) ++ offered (take_turn json (reads f) p).looping ts
  unfolding offered reads_of
  read-offered f ts p on h = rw on (
      ap (λ l. line p ++ l) (deltas-split f (reads_of ts) p.client h)
      ∙ sym (append_assoc (line p) (deltas json (f ∷ [])) _))

  pub idle-read :
      (f : Incoming Raw) (p : Pipe Raw F) → p.looping ≡ false → take_turn json (reads f) p ≡ p
  idle-read f p off = rw off

  pub idle-offered :
      (f : Incoming Raw) (ts : List (Turn Raw)) (p : Pipe Raw F)
      → p.looping ≡ false
      → offered p.looping (reads f ∷ ts) ≡ offered p.looping ts
  unfolding offered
  idle-offered f ts p off = rw off

  read-sublist :
      (f : Incoming Raw) (p : Pipe Raw F)
      → p.looping ≡ true
      → length p.client.updates ≤ updates_capacity
      → Sublistᴰ (line (take_turn json (reads f) p)) (line p ++ deltas json (f ∷ []))
  read-sublist f p on h =
      subst (λ l. Sublistᴰ l (line p ++ deltas json (f ∷ []))) (sym (read-line f p on h))
        (subst
          (Sublistᴰ
            (p.received ++ take updates_capacity (p.client.updates ++ deltas json (f ∷ []))))
          (sym (append_assoc p.received p.client.updates (deltas json (f ∷ []))))
          (append (sublist_refl p.received)
            (Sublistᴰ-take updates_capacity (p.client.updates ++ deltas json (f ∷ [])))))

  -- However readLoop and the packetizer take turns on a channel with at most 64 deltas: what the
  -- packetizer has received, with what still waits, is what it had and what waited with the deltas of
  -- the frames behind, in their order and none twice, some of which may be dropped.
  pub take_turns-sublist :
      (ts : List (Turn Raw)) (p : Pipe Raw F)
      → length p.client.updates ≤ updates_capacity
      → Sublistᴰ (line (take_turns json ts p)) (line p ++ offered p.looping ts)
  unfolding take_turns offered reads_of
  take_turns-sublist [] p h =
      subst (λ l. Sublistᴰ l (line p ++ offered p.looping [])) (append-nil (line p))
        (append (sublist_refl (line p)) (nil-sublist (offered p.looping [])))
  take_turns-sublist (receives ∷ ts) p h =
      let c = receive p.client.updates p in
      let ih = take_turns-sublist ts c (receive-bounded p.client.updates p h refl) in
      subst (λ l. Sublistᴰ (line (take_turns json ts c)) (l ++ offered p.looping ts))
        (receive-line p.client.updates p refl)
        (subst (λ b. Sublistᴰ (line (take_turns json ts c)) (line c ++ offered b ts))
          (receive-reading p.client.updates p) ih)
  take_turns-sublist (reads f ∷ ts) p h = elim (Bool-cases p.looping) [
    | inr off ↦
        subst
          (λ q. Sublistᴰ (line (take_turns json ts q)) (line p ++ offered p.looping (reads f ∷ ts)))
          (sym (idle-read f p off))
          (subst (λ l. Sublistᴰ (line (take_turns json ts p)) (line p ++ l))
            (sym (idle-offered f ts p off)) (take_turns-sublist ts p h))
    | inl on ↦
        let next = take_turn json (reads f) p in
        let rest = offered next.looping ts in
        let ih = take_turns-sublist ts next (take_turn-bounded (reads f) p h) in
        subst (Sublistᴰ (line (take_turns json ts next))) (sym (read-offered f ts p on h))
          (trans ih (append (read-sublist f p on h) (sublist_refl rest)))
  ]
