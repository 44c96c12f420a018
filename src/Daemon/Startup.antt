-- ===== src/Daemon/Startup.antt =====
-- cmd/axm-edge/main.go: the key evidence across a restart.
use axm_sfn.Common.{
  ℕ, ◌≡◌, refl, sym, ap, ◌∙◌, subst, Bool, true, false, [], Option, none, some, arith, Bool-cases,
  inl, inr,
}
use axm_sfn.Common.Text.{Bytes, codes, bytes_eq, bytes_eq_refl}
use axm_sfn.HotBuffer.Tables.{Buffer, Error, Result, ok, err}
use axm_sfn.HotBuffer.Writes.{has_key, write_attestation_key}
use axm_sfn.Tpm.{KeyEvidence}
use axm_sfn.Daemon.{
  StartEnv, public_alg, then_start, finish_start, persist_ek_cert, persist_ek, persist_ak,
  persist_keys, start,
}

abbrev pub Holds : Bytes → Bytes → Buffer → Type 0
Holds role material b = has_key role material b.keys ≡ true

module _ (up : Bool) (now : ℕ) (role alg material : Bytes) (b : Buffer) where
  -- A key that was written is there.
  write_attestation_key-Holds :
      (after : Buffer)
      → write_attestation_key up now role alg material b ≡ (ok tt, after)
      → Holds role material after
  unfolding write_attestation_key has_key
  write_attestation_key-Holds after e = ground (arith, bytes_eq_refl role, bytes_eq_refl material)

  -- A key that is there is not written again.
  write_attestation_key_again :
      Holds role material b → (write_attestation_key up now role alg material b).1 ≡ b
  unfolding write_attestation_key
  write_attestation_key_again there = ground arith

  -- Keys that are there stay.
  write_attestation_key-keeps :
      (r d : Bytes) (after : Buffer)
      → write_attestation_key up now role alg material b ≡ (ok tt, after)
      → Holds r d b
      → Holds r d after
  unfolding write_attestation_key has_key
  write_attestation_key-keeps r d after e there = ground arith

then_start-ok :
    (r : Result (Unit {0}) × Buffer) (next : Buffer → Option Error × Buffer) (after : Buffer)
    → then_start r next ≡ (none, after)
    → (b : Buffer) × (r ≡ (ok tt, b)) × (next b ≡ (none, after))
then_start-ok (ok done, b) next after e = (b, refl, e)
then_start-ok (err x, b) next after e = absurd (ground arith)

finish_start-ok :
    (r : Result (Unit {0}) × Buffer) (after : Buffer)
    → finish_start r ≡ (none, after)
    → r ≡ (ok tt, after)
finish_start-ok (ok done, b) after e = ap (λ c. (ok tt, c)) (ground arith)
finish_start-ok (err x, b) after e = absurd (ground arith)

then_start_still :
    (r : Result (Unit {0}) × Buffer) (next : Buffer → Option Error × Buffer) (b : Buffer)
    → r.1 ≡ b
    → (next b).1 ≡ b
    → (then_start r next).1 ≡ b
then_start_still (ok done, c) next b same still = ap (λ x. (next x).1) same ∙ still
then_start_still (err x, c) next b same still = same

finish_start_still :
    (r : Result (Unit {0}) × Buffer) (b : Buffer) → r.1 ≡ b → (finish_start r).1 ≡ b
finish_start_still (ok done, c) b same = same
finish_start_still (err x, c) b same = same

-- The key material of the environment is in the table.
abbrev pub HoldsCert : Bytes → Option Bytes → Buffer → Type 0
HoldsCert path none b = Unit
HoldsCert path (some cert) b = bytes_eq path [] ≡ false → Holds (codes "ek_cert") cert b

pub record HoldsAll (env : StartEnv) (ev : KeyEvidence) (b : Buffer) : Type 0 where
  pub sign : Holds (codes "sign_pub") ev.sign_pub b
  pub ak : Holds (codes "ak_pub") ev.ak_pub b
  pub ek : HoldsCert env.ek_cert_path env.ek_cert b

persist_ek_cert-keeps :
    (env : StartEnv) (cert : Option Bytes) (b after : Buffer) (r d : Bytes)
    → persist_ek_cert env cert b ≡ (none, after)
    → Holds r d b
    → Holds r d after
persist_ek_cert-keeps env none b after r d e there = rw (ap (λ x. x.1) (sym e)) there
persist_ek_cert-keeps env (some cert) b after r d e there =
    write_attestation_key-keeps env.ek_up env.now (codes "ek_cert") (codes "x509:der") cert b r d
      after (finish_start-ok _ after e) there

persist_ek_cert-HoldsCert :
    (env : StartEnv) (path : Bytes) (cert : Option Bytes) (b after : Buffer)
    → persist_ek_cert env cert b ≡ (none, after)
    → HoldsCert path cert after
persist_ek_cert-HoldsCert env path none b after e = tt
persist_ek_cert-HoldsCert env path (some cert) b after e = λ given.
    write_attestation_key-Holds env.ek_up env.now (codes "ek_cert") (codes "x509:der") cert b after
      (finish_start-ok _ after e)

no_path-HoldsCert :
    (path : Bytes) (cert : Option Bytes) (b : Buffer)
    → bytes_eq path [] ≡ true
    → HoldsCert path cert b
no_path-HoldsCert path none b e = tt
no_path-HoldsCert path (some cert) b e = λ given. absurd (ground (arith, sym e ∙ given))

pub persist_keys-HoldsAll :
    (env : StartEnv) (ev : KeyEvidence) (b after : Buffer)
    → persist_keys env (some ev) b ≡ (none, after)
    → HoldsAll env ev after
persist_keys-HoldsAll env ev b after e =
    let (b1, w1, e1) =
      then_start-ok
        (write_attestation_key env.sign_up env.now (codes "sign_pub") public_alg ev.sign_pub b)
        (persist_ak env ev) after e in
    let (b2, w2, e2) =
      then_start-ok
        (write_attestation_key env.ak_up env.now (codes "ak_pub") public_alg ev.ak_pub b1)
        (persist_ek env) after e1 in
    let ak_kept =
      write_attestation_key-keeps env.ak_up env.now (codes "ak_pub") public_alg ev.ak_pub b1 in
    let sign =
      write_attestation_key-Holds env.sign_up env.now (codes "sign_pub") public_alg ev.sign_pub b b1
        w1 in
    let ak =
      write_attestation_key-Holds env.ak_up env.now (codes "ak_pub") public_alg ev.ak_pub b1 b2
        w2 in
    let sign2 = ak_kept (codes "sign_pub") ev.sign_pub b2 w2 sign in
    elim (Bool-cases (bytes_eq env.ek_cert_path [])) [
      | inl none_given ↦
          let same : b2 ≡ after = ap (λ x. x.1) (rw none_given at e2) in
          record {
            sign = subst (Holds (codes "sign_pub") ev.sign_pub) same sign2;
            ak = subst (Holds (codes "ak_pub") ev.ak_pub) same ak;
            ek = no_path-HoldsCert env.ek_cert_path env.ek_cert after none_given;
          }
      | inr given ↦
          let e3 : persist_ek_cert env env.ek_cert b2 ≡ (none, after) = rw given at e2 in
          record {
            sign =
                persist_ek_cert-keeps env env.ek_cert b2 after (codes "sign_pub") ev.sign_pub e3
                  sign2;
            ak = persist_ek_cert-keeps env env.ek_cert b2 after (codes "ak_pub") ev.ak_pub e3 ak;
            ek = persist_ek_cert-HoldsCert env env.ek_cert_path env.ek_cert b2 after e3;
          }
    ]

persist_ek_cert_still :
    (env : StartEnv) (cert : Option Bytes) (b : Buffer)
    → bytes_eq env.ek_cert_path [] ≡ false
    → HoldsCert env.ek_cert_path cert b
    → (persist_ek_cert env cert b).1 ≡ b
persist_ek_cert_still env none b given there = refl
persist_ek_cert_still env (some cert) b given there = finish_start_still _ b (
    write_attestation_key_again env.ek_up env.now (codes "ek_cert") (codes "x509:der") cert b
      (there given))

persist_ek_still :
    (env : StartEnv) (b : Buffer)
    → HoldsCert env.ek_cert_path env.ek_cert b
    → (persist_ek env b).1 ≡ b
persist_ek_still env b there = elim (Bool-cases (bytes_eq env.ek_cert_path [])) [
  | inl e ↦ rw e
  | inr n ↦ rw n (persist_ek_cert_still env env.ek_cert b n there)
]

persist_keys_still :
    (env : StartEnv) (ev : KeyEvidence) (b : Buffer)
    → HoldsAll env ev b
    → (persist_keys env (some ev) b).1 ≡ b
persist_keys_still env ev b there =
    then_start_still
      (write_attestation_key env.sign_up env.now (codes "sign_pub") public_alg ev.sign_pub b)
      (persist_ak env ev) b
      (write_attestation_key_again env.sign_up env.now (codes "sign_pub") public_alg ev.sign_pub b
        there.sign)
      (then_start_still
        (write_attestation_key env.ak_up env.now (codes "ak_pub") public_alg ev.ak_pub b)
        (persist_ek env) b
        (write_attestation_key_again env.ak_up env.now (codes "ak_pub") public_alg ev.ak_pub b
          there.ak)
        (persist_ek_still env b there.ek))

-- After a start that succeeded, a restart with the same keys and certificate leaves the tables as they
-- are, at whatever time, and whether its statements succeed.
start_again :
    (env : StartEnv) (now : ℕ) (sign_up ak_up ek_up : Bool) (b after : Buffer)
    → start env b ≡ (none, after)
    → (start (record env { now = now; sign_up = sign_up; ak_up = ak_up; ek_up = ek_up }) after).1
      ≡ after
unfolding start
start_again env now sign_up ak_up ek_up b after e = start_cases env.evidence e
  where
    start_cases :
        (found : Option KeyEvidence)
        → persist_keys env found b ≡ (none, after)
        → (persist_keys
            (record env { now = now; sign_up = sign_up; ak_up = ak_up; ek_up = ek_up })
            found
            after).1
          ≡ after
    start_cases none e = refl
    start_cases (some ev) e =
        let there = persist_keys-HoldsAll env ev b after e in
        persist_keys_still
          (record env { now = now; sign_up = sign_up; ak_up = ak_up; ek_up = ek_up }) ev after
          (record { sign = there.sign; ak = there.ak; ek = there.ek })
