-- ===== src/Moonraker/Deaf.antt =====
-- internal/moonraker/client.go: what comes of a call that waits before readLoop is started.
use axm_sfn.Common.{
  ◌+◌, ◌≡◌, ◌⊎◌, true, false, refl, ◌∙◌, List, [], ◌∷◌, inl, inr, ==_refl, Bool-cases,
}
use axm_sfn.Moonraker.Client.{
  Client, ClientJson, ClientError, dial_failed, marshal_failed, write_failed, failed,
}
use axm_sfn.Moonraker.Handshake.{
  Background, ping, CallEnv, expiry, reply_of, run_background, send, await, call, ConnectEnv, ended,
  waits, identify, run_once, run_client,
}

module _ {Raw F : Type 0} where
  run_background_same : (bs : List Background) (c : Client Raw F) → run_background bs c ≡ c
  unfolding run_background
  run_background_same [] c = refl
  run_background_same (ping written ∷ bs) c = run_background_same bs c

  -- Nothing puts a response into the channel of a call, so the call ends with an error, having used
  -- one request number.
  call_fails :
      (env : CallEnv) (c : Client Raw F)
      → (e : ClientError) × (after : Client Raw F) × (call env c ≡ (failed e, after))
        × (after.updates ≡ c.updates)
        × (after.next_id ≡ c.next_id + 1)
  unfolding call send await reply_of
  call_fails env c = elim (Bool-cases env.marshals) [
    | inr n ↦ rw n (marshal_failed, _, refl, refl, refl)
    | inl y ↦ elim (Bool-cases env.writes) [
      | inr n ↦ rw (y, n) (write_failed, _, refl, refl, refl)
      | inl z ↦
          rw (y, z, run_background_same env.meanwhile, ==_refl (c.next_id + 1))
            (expiry env.context_expires, _, refl, refl, refl)
    ]
  ]

  -- Attempts to connect of which none comes past identify: one that is not dialled ends with that error
  -- and changes nothing; one that is dialled ends with the error of identify's call, which is the only
  -- request that the connection makes, and in the state that this call leaves.
  pub data Deaf (json : ClientJson Raw F)
      : List (ConnectEnv Raw) → Client Raw F → Client Raw F → Type 0 where
    over :
        {envs : List (ConnectEnv Raw)} {c after : Client Raw F}
        → envs ≡ []
        → after ≡ c
        → Deaf json envs c after
    undialled :
        {attempts envs : List (ConnectEnv Raw)} {c after : Client Raw F} (env : ConnectEnv Raw)
        → attempts ≡ env ∷ envs
        → env.dials ≡ false
        → run_once json env c ≡ ended dial_failed c
        → Deaf json envs c after
        → Deaf json attempts c after
    refused :
        {attempts envs : List (ConnectEnv Raw)} {c after : Client Raw F} (env : ConnectEnv Raw)
        (e : ClientError) (next : Client Raw F)
        → attempts ≡ env ∷ envs
        → env.dials ≡ true
        → call env.identify_env c ≡ (failed e, next)
        → next.updates ≡ c.updates
        → next.next_id ≡ c.next_id + 1
        → run_once json env c ≡ ended e next
        → Deaf json envs next after
        → Deaf json attempts c after

module _ {Raw F : Type 0} (json : ClientJson Raw F) where
  run_once_cases :
      (env : ConnectEnv Raw) (c : Client Raw F)
      → ((env.dials ≡ false) × (run_once json env c ≡ ended dial_failed c))
        ⊎ ((env.dials ≡ true)
            × (e : ClientError) × (next : Client Raw F) × (call env.identify_env c
                ≡ (failed e, next))
            × (run_once json env c ≡ ended e next)
            × (next.updates ≡ c.updates)
            × (next.next_id ≡ c.next_id + 1))
  unfolding run_once identify
  run_once_cases env c = elim (Bool-cases env.dials) [
    | inr n ↦ inl (n, rw n refl)
    | inl y ↦
        let (e, next, called, same, one) = call_fails env.identify_env c in
        inr (y, e, next, called, rw (y, called) refl, same, one)
  ]

  -- A connection ends at the latest in identify, and gives nothing out.
  pub run_once_fails :
      (env : ConnectEnv Raw) (c : Client Raw F)
      → (e : ClientError) × (after : Client Raw F) × (run_once json env c ≡ ended e after)
        × (after.updates ≡ c.updates)
  run_once_fails env c = elim (run_once_cases env c) [
    | inl (n, done) ↦ (dial_failed, c, done, refl)
    | inr (y, e, next, called, done, same, one) ↦ (e, next, done, same)
  ]

  -- Whatever Moonraker sends, and however often the client reconnects: no connection comes past
  -- identify, since its call waits for a response that only readLoop would hand over. A connection that is
  -- dialled makes that one request and ends with its error, one that is not ends with the error of the
  -- dial, and the channel of updates stays as it was.
  pub run_client_silent :
      (envs : List (ConnectEnv Raw)) (c : Client Raw F)
      → (after : Client Raw F) × (run_client json envs c ≡ waits after)
        × (after.updates ≡ c.updates)
        × Deaf json envs c after
  unfolding run_client
  run_client_silent [] c = (c, refl, refl, over refl refl)
  run_client_silent (env ∷ envs) c = elim (run_once_cases env c) [
    | inl (n, done) ↦
        let (after, rest, kept, deaf) = run_client_silent envs c in
        rw (done, run_client) (after, rest, kept, undialled env refl n done deaf)
    | inr (y, e, next, called, done, same, one) ↦
        let (after, rest, kept, deaf) = run_client_silent envs next in
        rw (done, run_client)
          (after, rest, kept ∙ same, refused env e next refl y called same one done deaf)
  ]
