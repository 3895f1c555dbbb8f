-- ===== src/Api/Event.antt =====
-- api/v1/event.go: the topics of events, and their data by topic. The types of the data and their
-- decoders (`json.Unmarshal` into each type) are parameters.
use go_eth2_client.Prelude.{Text, Bytes, codes, Result, Bool, false, ◌||◌, List, [], ◌∷◌, text_eq}

-- `SupportedEventTopics`.
abbrev pub supported_event_topics : List Text
supported_event_topics =
    codes "attestation"
    ∷ codes "block"
    ∷ codes "chain_reorg"
    ∷ codes "finalized_checkpoint"
    ∷ codes "head"
    ∷ codes "voluntary_exit"
    ∷ codes "contribution_and_proof"
    ∷ []

-- Whether a text stands in a list.
abbrev pub mentions : List Text → Text → Bool
mentions [] t = false
mentions (u ∷ us) t = text_eq u t || mentions us t

pub record Formats : Type 1 where
  pub HeadEvent : Type 0
  pub BlockEvent : Type 0
  pub Attestation : Type 0
  pub SignedVoluntaryExit : Type 0
  pub FinalizedCheckpointEvent : Type 0
  pub ChainReorgEvent : Type 0
  pub SignedContributionAndProof : Type 0
  pub decode_head : Bytes → Result HeadEvent
  pub decode_block : Bytes → Result BlockEvent
  pub decode_attestation : Bytes → Result Attestation
  pub decode_voluntary_exit : Bytes → Result SignedVoluntaryExit
  pub decode_finalized_checkpoint : Bytes → Result FinalizedCheckpointEvent
  pub decode_chain_reorg : Bytes → Result ChainReorgEvent
  pub decode_contribution_and_proof : Bytes → Result SignedContributionAndProof

-- What the field `Data` may hold.
pub data EventData (f : Formats) : Type 0 where
  head_event : f.HeadEvent → EventData f
  block_event : f.BlockEvent → EventData f
  attestation : f.Attestation → EventData f
  voluntary_exit : f.SignedVoluntaryExit → EventData f
  finalized_checkpoint : f.FinalizedCheckpointEvent → EventData f
  chain_reorg : f.ChainReorgEvent → EventData f
  contribution_and_proof : f.SignedContributionAndProof → EventData f

pub record Event (f : Formats) : Type 0 where
  pub topic : Text
  pub event_data : EventData f
