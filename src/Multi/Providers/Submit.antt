-- ===== src/Multi/Providers/Submit.antt =====
-- multi/submit*.go: the methods that submit data with no error handler.
use go_eth2_client.Prelude.{none, List}
use go_eth2_client.Multi.Pool.{Service}
use go_eth2_client.Multi.Call.{Network}
use go_eth2_client.Multi.Providers.{Method, Submission, submit}

module _ (net : Network) where
  open net use {World}

  abbrev pub submit_aggregate_attestations :
      {SignedAggregateAndProof : Type 0}
      → (List SignedAggregateAndProof → Method net (Unit {0}))
      → List SignedAggregateAndProof
      → Service
      → World
      → Submission net
  submit_aggregate_attestations submitter aggregate_and_proofs =
      submit net none (submitter aggregate_and_proofs)

  abbrev pub submit_beacon_block :
      {SignedBlock : Type 0}
      → (SignedBlock → Method net (Unit {0}))
      → SignedBlock
      → Service
      → World
      → Submission net
  submit_beacon_block submitter block = submit net none (submitter block)

  abbrev pub submit_beacon_committee_subscriptions :
      {Subscription : Type 0}
      → (List Subscription → Method net (Unit {0}))
      → List Subscription
      → Service
      → World
      → Submission net
  submit_beacon_committee_subscriptions submitter subscriptions =
      submit net none (submitter subscriptions)

  abbrev pub submit_blinded_beacon_block :
      {SignedBlock : Type 0}
      → (SignedBlock → Method net (Unit {0}))
      → SignedBlock
      → Service
      → World
      → Submission net
  submit_blinded_beacon_block submitter block = submit net none (submitter block)

  abbrev pub submit_proposal_preparations :
      {ProposalPreparation : Type 0}
      → (List ProposalPreparation → Method net (Unit {0}))
      → List ProposalPreparation
      → Service
      → World
      → Submission net
  submit_proposal_preparations submitter preparations = submit net none (submitter preparations)

  abbrev pub submit_sync_committee_contributions :
      {SignedContributionAndProof : Type 0}
      → (List SignedContributionAndProof → Method net (Unit {0}))
      → List SignedContributionAndProof
      → Service
      → World
      → Submission net
  submit_sync_committee_contributions submitter contribution_and_proofs =
      submit net none (submitter contribution_and_proofs)

  abbrev pub submit_sync_committee_messages :
      {SyncCommitteeMessage : Type 0}
      → (List SyncCommitteeMessage → Method net (Unit {0}))
      → List SyncCommitteeMessage
      → Service
      → World
      → Submission net
  submit_sync_committee_messages submitter messages = submit net none (submitter messages)

  abbrev pub submit_sync_committee_subscriptions :
      {Subscription : Type 0}
      → (List Subscription → Method net (Unit {0}))
      → List Subscription
      → Service
      → World
      → Submission net
  submit_sync_committee_subscriptions submitter subscriptions =
      submit net none (submitter subscriptions)

  abbrev pub submit_validator_registrations :
      {Registration : Type 0}
      → (List Registration → Method net (Unit {0}))
      → List Registration
      → Service
      → World
      → Submission net
  submit_validator_registrations submitter registrations = submit net none (submitter registrations)

  abbrev pub submit_voluntary_exit :
      {SignedVoluntaryExit : Type 0}
      → (SignedVoluntaryExit → Method net (Unit {0}))
      → SignedVoluntaryExit
      → Service
      → World
      → Submission net
  submit_voluntary_exit submitter voluntary_exit = submit net none (submitter voluntary_exit)
