-- ===== src/Http/Submit/Refused.antt =====
-- Which submissions never reach the node, and what a node gets that accepts one.
use go_eth2_client.Prelude.{
  ℕ, zero, suc, ◌<◌, Text, Bytes, codes, Error, Result, ok, err, wrap, Ending, returns, panics,
  Option, none, some, List, [], ◌∷◌, map, ◌≡◌, ◌≢◌, ◌⊎◌, refl, arith, ap₂, sym, ◌∙◌, ap,
}
use go_eth2_client.Spec.DataVersion.{by_version}
use go_eth2_client.Spec.Blocks.{SignedBeaconBlock}
use go_eth2_client.Spec.Versioned.{VersionedSignedBeaconBlock}
use go_eth2_client.Api.SignedBlinded.{VersionedSignedBlindedBeaconBlock}
use go_eth2_client.Http.Service.{Service, Server, pure, after, rewrap}
use go_eth2_client.Http.Get.{post}
use go_eth2_client.Http.Submit.{
  VersionedSignedValidatorRegistration, sent, submit_beacon_block, submit_blinded_beacon_block,
  unwrap_one, unwrap, registered, submit_validator_registrations,
}

by_version-other : {A : Type 0} (n : ℕ) (p a b c o : A) → 3 < n → by_version n p a b c o ≡ o
by_version-other (suc (suc (suc (suc n)))) p a b c o h = refl
by_version-other zero p a b c o h = absurd (omega arith)
by_version-other (suc zero) p a b c o h = absurd (omega arith)
by_version-other (suc (suc zero)) p a b c o h = absurd (omega arith)
by_version-other (suc (suc (suc zero))) p a b c o h = absurd (omega arith)

by_version-refused :
    {A : Type 0} (n : ℕ) (p a o : Error) (b c : Result A)
    → (n < 2) ⊎ (3 < n)
    → (e : Error) × (by_version n (err p) (err a) b c (err o) ≡ err e)
by_version-refused zero p a o b c h = (p, refl)
by_version-refused (suc zero) p a o b c h = (a, refl)
by_version-refused (suc (suc zero)) p a o b c h = absurd (ground arith)
by_version-refused (suc (suc (suc zero))) p a o b c h = absurd (ground arith)
by_version-refused (suc (suc (suc (suc n)))) p a o b c h = (o, refl)

module _ (server : Server) where
  open server use {World}

  -- What a submission that succeeds has done: one request, with what was encoded.
  abbrev pub HasSent : Text → Result Bytes → Service → World → Service → World → Type 0
  HasSent url content s w s' w' =
      (body : Bytes) × (content ≡ ok body)
      × (answer : Bytes) × (post server url body s w ≡ (returns (ok answer), s', w'))

  posted :
      (failed : Text) (r : Ending Bytes × Service × World) {s' : Service} {w' : World}
      → after (λ answer. pure tt) (rewrap failed r) ≡ (returns (ok tt), s', w')
      → (answer : Bytes) × (r ≡ (returns (ok answer), s', w'))
  posted failed (panics, s, w) h = ground arith
  posted failed (returns (err e), s, w) h = ground arith
  posted failed (returns (ok a), s, w) h = (a, ground arith)

  sent-HasSent :
      (unencoded url failed : Text) (content : Result Bytes) (s : Service) (w : World)
      {s' : Service} {w' : World}
      → sent server unencoded url failed content s w ≡ (returns (ok tt), s', w')
      → HasSent url content s w s' w'
  sent-HasSent unencoded url failed (err e) s w h = ground arith
  sent-HasSent unencoded url failed (ok body) s w h =
      let (answer, e) = posted failed (post server url body s w) h in (body, refl, answer, e)

  module _ (encode : (Rest : Type 0) → Option (SignedBeaconBlock Rest) → Result Bytes) where
    -- No block, a block of an unknown version, no blinded block, and a blinded block of a version
    -- other than Bellatrix and Capella are refused with an error: nothing is sent to the node,
    -- and the client stays as it was.
    pub submit_block_refused :
        (b : VersionedSignedBeaconBlock) (v : VersionedSignedBlindedBeaconBlock) (s : Service)
        (w : World)
        → 3 < b.version
        → (v.version < 2) ⊎ (3 < v.version)
        → (submit_beacon_block server encode none s w
            ≡ (returns (err (codes "no block supplied")), s, w))
          × (submit_blinded_beacon_block server encode none s w
              ≡ (returns (err (codes "no blinded block supplied")), s, w))
          × (submit_beacon_block server encode (some b) s w
              ≡ (returns (err (codes "failed to marshal JSON: unknown block version")), s, w))
          × ((e : Error) × (submit_blinded_beacon_block server encode (some v) s w
                ≡ (returns (err e), s, w)))
    unfolding submit_beacon_block submit_blinded_beacon_block
    submit_block_refused b v s w h k =
        let (e, r) =
          by_version-refused v.version (codes "blinded phase0 blocks not supported")
            (codes "blinded altair blocks not supported") (codes "unknown block version")
            (encode _ v.bellatrix_data) (encode _ v.capella_data) k in
        (
          refl,
          refl,
          rw (
              by_version-other b.version (encode _ b.phase0_data) (encode _ b.altair_data)
                (encode _ b.bellatrix_data) (encode _ b.capella_data)
                (err (codes "unknown block version")) h),
          (wrap e (codes "failed to marshal JSON"), rw r),
        )

module _ {R : Type 0} where
  -- A registration of the one version that there is.
  abbrev pub first_version : Option R → Option (VersionedSignedValidatorRegistration R)
  first_version r = some (record { version = 0; v1 = r })

  module _ (encode : List (Option R) → Result Bytes) (server : Server) where
    open server use {World}

    unwrap_one-ok :
        (version : Option ℕ) (r : VersionedSignedValidatorRegistration R)
        (rest : Result (List (Option R))) {out : List (Option R)}
        → unwrap_one server encode version r rest ≡ ok out
        → (rs : List (Option R)) × (rest ≡ ok rs)
          × (out ≡ r.v1 ∷ rs)
          × (some r ≡ first_version r.v1)
    unwrap_one-ok version r (err e) h = ground arith
    unwrap_one-ok version r (ok rs) h = (rs, refl, ground arith, ground arith)

    unwrap-first_version :
        (version : Option ℕ) (regs : List (Option (VersionedSignedValidatorRegistration R)))
        {out : List (Option R)}
        → unwrap server encode version regs ≡ ok out
        → regs ≡ map first_version out
    unfolding unwrap
    unwrap-first_version version [] h = ground arith
    unwrap-first_version version (none ∷ regs) h = ground arith
    unwrap-first_version none (some r ∷ regs) h =
        let (rs, e, o, f) = unwrap_one-ok none r (unwrap server encode (some r.version) regs) h in
        ap₂ ◌∷◌ f (unwrap-first_version (some r.version) regs e) ∙ sym (ap (map first_version) o)
    unwrap-first_version (some v) (some r ∷ regs) h =
        let (rs, e, o, f) = unwrap_one-ok (some v) r (unwrap server encode (some v) regs) h in
        ap₂ ◌∷◌ f (unwrap-first_version (some v) regs e) ∙ sym (ap (map first_version) o)

    registered-HasSent :
        (r : Result (List (Option R))) (s : Service) (w : World) {s' : Service} {w' : World}
        → registered server encode r s w ≡ (returns (ok tt), s', w')
        → (rs : List (Option R)) × (r ≡ ok rs)
          × HasSent server (codes "/eth/v1/validator/register_validator") (encode rs) s w s' w'
    registered-HasSent (err e) s w h = ground arith
    registered-HasSent (ok rs) s w h = (
      rs,
      refl,
      sent-HasSent server (codes "failed to marshal JSON")
          (codes "/eth/v1/validator/register_validator")
          (codes "failed to submit validator registration") (encode rs) s w h,
    )

    -- Of registrations that are submitted without an error there is one at least; each is there
    -- and has the first version; and the node was sent, in one request, what the list of their
    -- first versions is encoded as, in their order.
    pub submit_validator_registrations-HasSent :
        (regs : List (Option (VersionedSignedValidatorRegistration R))) (s : Service) (w : World)
        {s' : Service} {w' : World}
        → submit_validator_registrations server encode regs s w ≡ (returns (ok tt), s', w')
        → (regs ≢ [])
          × ((rs : List (Option R)) × (regs ≡ map first_version rs)
              × HasSent server (codes "/eth/v1/validator/register_validator") (encode rs) s w s' w')
    unfolding submit_validator_registrations
    submit_validator_registrations-HasSent [] s w h = ground arith
    submit_validator_registrations-HasSent (r ∷ regs) s w h =
        let (rs, e, sent) = registered-HasSent (unwrap server encode none (r ∷ regs)) s w h in
        (λ k. cc, (rs, unwrap-first_version none (r ∷ regs) e, sent))
