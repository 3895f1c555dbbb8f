-- ===== src/Multi/Providers/Attestations.antt =====
-- multi/submitattestations.go: the one method whose error handler decides on the failover.
use go_eth2_client.Prelude.{
  Text, codes, Error, Bool, true, false, ◌&&◌, Option, some, List, contains, text_eq, if◌then◌else◌,
}
use go_eth2_client.Multi.Pool.{Service}
use go_eth2_client.Multi.Call.{Network, ErrHandlerFunc, provider_info}
use go_eth2_client.Multi.Providers.{Method, Submission, submit}

module _ (net : Network) where
  open net use {World}

  -- The switch of the error handler, on the provider's name.
  abbrev pub is_failover : Text → Error → Bool
  is_failover provider e =
      if text_eq provider (codes "lighthouse") && contains (codes "PriorAttestationKnown") e
      then false
      else if text_eq provider (codes "lighthouse") && contains (codes "UnknownHeadBlock") e
      then true
      else true

  abbrev pub handled : Error → Text × World → Bool × Option Error × World
  handled e (provider, w) = (is_failover provider e, some e, w)

  unfoldable pub attestations_err_handler : ErrHandlerFunc net
  attestations_err_handler client e w = handled e (provider_info net client w)

  abbrev pub submit_attestations :
      {Attestation : Type 0}
      → (List Attestation → Method net (Unit {0}))
      → List Attestation
      → Service
      → World
      → Submission net
  submit_attestations submitter attestations =
      submit net (some attestations_err_handler) (submitter attestations)
