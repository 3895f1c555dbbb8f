-- ===== src/Http/Blocks/Versioning.antt =====
-- What the check of the API's version leaves.
use go_eth2_client.Prelude.{
  zero, suc, Text, Bytes, codes, Result, ok, err, Ending, returns, panics, true, false, Option,
  none, some, ◌≡◌, ◌⊎◌, inl, inr, refl, ap, arith, ◌++◌,
}
use go_eth2_client.Spec.DataVersion.{DataVersion}
use go_eth2_client.Spec.Blocks.{SignedBeaconBlock}
use go_eth2_client.Spec.Versioned.{VersionedSignedBeaconBlock}
use go_eth2_client.Http.Service.{Service, Server, lift, or_wrap}
use go_eth2_client.Http.Service.Steps.{IsQuiet, after-IsQuiet, rewrap-IsQuiet}
use go_eth2_client.Http.Get.{get}
use go_eth2_client.Http.Blocks.{
  ForkDecoders, as_phase0, as_altair, as_bellatrix, as_capella, signed_of, signed_v2,
  signed_by_version, signed_beacon_block_v2, signed_beacon_block, with_versions,
  check_api_versioning,
}

-- A decoder of a fork's block panics on some body of a response.
abbrev pub CanPanic : {B : Type 0 → Type 0} → ForkDecoders B → Type 0
CanPanic decoders =
    (body : Bytes) × ((decoders.phase0_decoder body ≡ panics)
      ⊎ ((decoders.altair_decoder body ≡ panics)
          ⊎ ((decoders.bellatrix_decoder body ≡ panics)
              ⊎ (decoders.capella_decoder body ≡ panics))))

module _ (server : Server) (response_version : Bytes → Result DataVersion)
    (decoders : ForkDecoders SignedBeaconBlock) (s : Service) where
  open server use {World}
  open decoders use {phase0_decoder, altair_decoder, bellatrix_decoder, capella_decoder}

  lift-IsQuiet :
      {A : Type 0} (r : Result A) (w : World) → IsQuiet (CanPanic decoders) s (lift r s w)
  lift-IsQuiet r w = (λ k. ground arith, refl)

  get-IsQuiet :
      (endpoint : Text) (w : World) → IsQuiet (CanPanic decoders) s (get server endpoint s w)
  unfolding get
  get-IsQuiet endpoint w = (λ k. ground arith, refl)

  signed_of-IsQuiet :
      {A : Type 0} (t : Text) (store : A → VersionedSignedBeaconBlock) (d : Ending A) (w : World)
      → (d ≡ panics → CanPanic decoders)
      → IsQuiet (CanPanic decoders) s (signed_of server response_version decoders t store d s w)
  signed_of-IsQuiet t store panics w p = (λ k. p refl, refl)
  signed_of-IsQuiet t store (returns (err e)) w p = (λ k. ground arith, refl)
  signed_of-IsQuiet t store (returns (ok a)) w p = (λ k. ground arith, refl)

  signed_by_version-IsQuiet :
      (body : Bytes) (version : DataVersion) (w : World)
      → IsQuiet
          (CanPanic decoders)
          s
          (signed_by_version server response_version decoders body version s w)
  signed_by_version-IsQuiet body zero w =
      signed_of-IsQuiet (codes "failed to parse phase 0 signed beacon block") as_phase0
        (phase0_decoder body) w (λ k. (body, inl k))
  signed_by_version-IsQuiet body (suc zero) w =
      signed_of-IsQuiet (codes "failed to parse altair signed beacon block") as_altair
        (altair_decoder body) w (λ k. (body, inr (inl k)))
  signed_by_version-IsQuiet body (suc (suc zero)) w =
      signed_of-IsQuiet (codes "failed to parse bellatrix signed beacon block") as_bellatrix
        (bellatrix_decoder body) w (λ k. (body, inr (inr (inl k))))
  signed_by_version-IsQuiet body (suc (suc (suc zero))) w =
      signed_of-IsQuiet (codes "failed to parse capella signed beacon block") as_capella
        (capella_decoder body) w (λ k. (body, inr (inr (inr k))))
  signed_by_version-IsQuiet body (suc (suc (suc (suc n)))) w = (λ k. ground arith, refl)

  signed_v2-IsQuiet :
      (body : Option Bytes) (w : World)
      → IsQuiet (CanPanic decoders) s (signed_v2 server response_version decoders body s w)
  signed_v2-IsQuiet none w = (λ k. ground arith, refl)
  signed_v2-IsQuiet (some body) w =
      after-IsQuiet (CanPanic decoders) s (signed_by_version server response_version decoders body)
        (or_wrap (codes "failed to parse response") (lift (response_version body)) s w)
        (rewrap-IsQuiet (CanPanic decoders) s (codes "failed to parse response")
          (lift (response_version body) s w) (lift-IsQuiet (response_version body) w))
        (signed_by_version-IsQuiet body)

  signed_beacon_block_v2-IsQuiet :
      (block_id : Text) (w : World)
      → IsQuiet
          (CanPanic decoders)
          s
          (signed_beacon_block_v2 server response_version decoders block_id s w)
  unfolding signed_beacon_block_v2
  signed_beacon_block_v2-IsQuiet block_id w =
      let url = codes "/eth/v2/beacon/blocks/" ++ block_id in
      after-IsQuiet (CanPanic decoders) s (signed_v2 server response_version decoders)
        (or_wrap (codes "failed to request signed beacon block") (get server url) s w)
        (rewrap-IsQuiet (CanPanic decoders) s (codes "failed to request signed beacon block")
          (get server url s w) (get-IsQuiet url w))
        signed_v2-IsQuiet

-- The client's state after the check: all the flags are set, or that of the blocks is not.
abbrev pub IsVersioned : Service → Service → Type 0
IsVersioned s s' =
    (s' ≡ record s {
      supports_v2_beacon_blocks = true;
      supports_v2_beacon_state = true;
      supports_v2_validator_blocks = true;
    })
    ⊎ (s' ≡ record s { supports_v2_beacon_blocks = false })

-- The check ended in a panic, and `P` holds, or it returned without an error.
abbrev pub IsChecked : {W : Type 0} → Type 0 → Service → Ending (Unit {0}) × Service × W → Type 0
IsChecked P s (r, s', w) = ((r ≡ panics) × P) ⊎ ((r ≡ returns (ok tt)) × IsVersioned s s')

module _ (server : Server) (response_version : Bytes → Result DataVersion)
    (decoders : ForkDecoders SignedBeaconBlock) where
  open server use {World}

  with_versions-IsVersioned :
      (s : Service) (r : Ending (Option VersionedSignedBeaconBlock) × Service × World)
      → IsQuiet (CanPanic decoders) (record s { supports_v2_beacon_blocks = true }) r
      → IsChecked (CanPanic decoders) s (with_versions server response_version decoders r)
  with_versions-IsVersioned s (panics, s', w) (np, e) = inl (refl, np refl)
  with_versions-IsVersioned s (returns (err e'), s', w) (np, e) =
      inr (refl, inr (ap (λ (s : Service). record s { supports_v2_beacon_blocks = false }) e))
  with_versions-IsVersioned s (returns (ok b), s', w) (np, e) = inr (
    refl,
    inl (
        ap
          (λ (s : Service). record s {
            supports_v2_beacon_state = true;
            supports_v2_validator_blocks = true;
          })
          e),
  )

  pub check_api_versioning-IsVersioned :
      (s : Service) (w : World)
      → IsChecked (CanPanic decoders) s (check_api_versioning server response_version decoders s w)
  unfolding check_api_versioning signed_beacon_block
  check_api_versioning-IsVersioned s w = with_versions-IsVersioned s _ (
      signed_beacon_block_v2-IsQuiet server response_version decoders
        (record s { supports_v2_beacon_blocks = true }) (codes "0") w)
