-- ===== src/Http/Blinded/Proposed.antt =====
-- A blinded block that is proposed is the one that was asked for.
use go_eth2_client.Prelude.{
  zero, suc, Bytes, Slot, BlsSignature, Result, ok, returns, ◌==◌, Option, none, some, ◌≡◌, refl,
  codes,
}
use go_eth2_client.Spec.DataVersion.{DataVersion, by_version}
use go_eth2_client.Spec.Blocks.{BeaconBlock}
use go_eth2_client.Api.Blinded
use go_eth2_client.Api.Blinded.{VersionedBlindedBeaconBlock}
use go_eth2_client.Http.Service.{Service, Server}
use go_eth2_client.Http.Service.Steps.{Yields, after-Yields, Yields-ok}
use go_eth2_client.Http.Spec.{copied}
use go_eth2_client.Http.Blocks.Proposed.{shown, shown_slot, proposal_of-Yields}
use go_eth2_client.Http.Blinded.{
  BlindedDecoders, as_bellatrix, as_capella, blinded, requested, blinded_by_version, blinded_data,
  blinded_proposal, blinded_beacon_block_proposal,
}

-- The slot, the RANDAO reveal and the graffiti of the block of the version.
abbrev pub blinded_shown : VersionedBlindedBeaconBlock → Option (Slot × Bytes × Bytes)
blinded_shown v =
    by_version v.version none none (shown v.bellatrix_data) (shown v.capella_data) none

-- The block of the version shows what was asked for, and only a block of Capella is called empty.
abbrev pub IsWanted : Slot → Bytes → Bytes → VersionedBlindedBeaconBlock → Type 0
IsWanted slot reveal graffiti v =
    (blinded_shown v ≡ some (slot, reveal, graffiti))
    × (Blinded.slot v ≡ ok slot)
    × (Blinded.is_empty v ≡ (v.version == 3))

bellatrix-IsWanted :
    {slot : Slot} {reveal graffiti : Bytes} (b : BeaconBlock Blinded.BlindedBellatrixRest)
    → shown (some b) ≡ some (slot, reveal, graffiti)
    → IsWanted slot reveal graffiti (as_bellatrix (some b))
unfolding Blinded.slot Blinded.is_empty
bellatrix-IsWanted b h = (h, shown_slot (codes "bellatrix") (some b) h, refl)

capella-IsWanted :
    {slot : Slot} {reveal graffiti : Bytes} (b : BeaconBlock Blinded.BlindedCapellaRest)
    → shown (some b) ≡ some (slot, reveal, graffiti)
    → IsWanted slot reveal graffiti (as_capella (some b))
unfolding Blinded.slot Blinded.is_empty
capella-IsWanted b h = (h, shown_slot (codes "capella") (some b) h, refl)

module _ (server : Server) (response_version : Bytes → Result DataVersion)
    (decoders : BlindedDecoders) (slot : Slot) (reveal : BlsSignature) where
  open server use {World}

  module _ (graffiti : Bytes) where
    blinded_by_version-IsWanted :
        (body : Bytes) (version : DataVersion) (s : Service) (w : World)
        → Yields (IsWanted slot reveal graffiti) (
            blinded_by_version server response_version decoders slot reveal graffiti body version s
              w)
    blinded_by_version-IsWanted body zero s w = tt
    blinded_by_version-IsWanted body (suc zero) s w = tt
    blinded_by_version-IsWanted body (suc (suc zero)) s w =
        proposal_of-Yields server response_version slot reveal graffiti
          (IsWanted slot reveal graffiti) blinded
          (codes "failed to parse bellatrix blinded beacon block proposal") as_bellatrix
          (decoders.bellatrix_decoder body) s w bellatrix-IsWanted
    blinded_by_version-IsWanted body (suc (suc (suc zero))) s w =
        proposal_of-Yields server response_version slot reveal graffiti
          (IsWanted slot reveal graffiti) blinded
          (codes "failed to parse capella blinded beacon block proposal") as_capella
          (decoders.capella_decoder body) s w capella-IsWanted
    blinded_by_version-IsWanted body (suc (suc (suc (suc n)))) s w = tt

    blinded_proposal-IsWanted :
        (s : Service) (w : World)
        → Yields
            (IsWanted slot reveal graffiti)
            (blinded_proposal server response_version decoders slot reveal graffiti s w)
    unfolding blinded_proposal
    blinded_proposal-IsWanted s w =
        after-Yields (IsWanted slot reveal graffiti)
          (blinded_data server response_version decoders slot reveal graffiti)
          (requested server response_version decoders slot reveal graffiti s w)
          (λ body s w.
            after-Yields (IsWanted slot reveal graffiti) _ _
              (λ version s w. blinded_by_version-IsWanted body version s w))

  -- Whatever the node answers: a blinded block that `BlindedBeaconBlockProposal` returns has a
  -- body, is for the requested slot, has the given RANDAO reveal and has as graffiti the given
  -- one, cut or filled with zeros to 32 bytes; the accessor `Slot` returns that slot without an
  -- error; and `IsEmpty` says that it is empty exactly if it is of Capella.
  pub blinded_proposal-IsRequested :
      (graffiti : Bytes) (s : Service) (w : World) {v : VersionedBlindedBeaconBlock} {s' : Service}
      {w' : World}
      → blinded_beacon_block_proposal server response_version decoders slot reveal graffiti s w
        ≡ (returns (ok v), s', w')
      → IsWanted slot reveal (copied 32 graffiti) v
  unfolding blinded_beacon_block_proposal
  blinded_proposal-IsRequested graffiti s w h =
      Yields-ok (IsWanted slot reveal (copied 32 graffiti)) _
        (blinded_proposal-IsWanted (copied 32 graffiti) s w) h
