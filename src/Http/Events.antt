-- ===== src/Http/Events.antt =====
-- http/events.go: which topics can be asked for, and what is made of a message of the stream. The
-- stream is a library's.
pub mod Dispatch
use go_eth2_client.Prelude.{
  Text, Bytes, codes, Error, Result, ok, err, wrap, Bool, true, false, not, Option, none, some,
  List, [], ◌∷◌, ◌++◌, text_eq, if◌then◌else◌,
}
use go_eth2_client.Api.Event.{
  supported_event_topics, mentions, Formats, EventData, head_event, block_event, attestation,
  voluntary_exit, finalized_checkpoint, chain_reorg, contribution_and_proof, Event,
}

abbrev check_topics : List Text → Result (Unit {0})
check_topics [] = ok tt
check_topics (t ∷ ts) =
    if not (mentions supported_event_topics t)
    then err (codes "unsupported event topic " ++ t)
    else check_topics ts

abbrev joined : List Text → Text
joined [] = []
joined (t ∷ []) = t
joined (t ∷ u ∷ ts) = t ++ codes "&topics=" ++ joined (u ∷ ts)

abbrev reference_of : List Text → Result (Unit {0}) → Result Text
reference_of topics (err e) = err (wrap e (codes "invalid endpoint"))
reference_of topics (ok _) = ok (codes "eth/v1/events?topics=" ++ joined topics)

abbrev checked_topics : (Text → Result (Unit {0})) → List Text → Result (Unit {0}) → Result Text
checked_topics valid_url topics (err e) = err e
checked_topics valid_url topics (ok _) =
    reference_of topics (valid_url (codes "eth/v1/events?topics=" ++ joined topics))

-- `Events` up to the start of the stream: its reference to the node's address. `valid_url` is
-- `url.Parse`.
unfoldable pub events : (Text → Result (Unit {0})) → List Text → Result Text
events valid_url [] = err (codes "no topics supplied")
events valid_url (t ∷ ts) = checked_topics valid_url (t ∷ ts) (check_topics (t ∷ ts))

-- A message of the stream.
pub record Message : Type 0 where
  pub event : Text
  pub content : Bytes

module _ (f : Formats) where
  open f use {
    decode_head, decode_block, decode_attestation, decode_voluntary_exit,
    decode_finalized_checkpoint, decode_chain_reorg, decode_contribution_and_proof,
  }

  -- The event that is given to the handler, if the data is decoded.
  abbrev pub parsed : {A : Type 0} → Text → (A → EventData f) → Result A → Option (Event f)
  parsed topic of_data (err e) = none
  parsed topic of_data (ok a) = some (record { topic = topic; event_data = of_data a })

  abbrev pub dispatch : Text → Bytes → Option (Event f)
  dispatch topic content =
      if text_eq (codes "head") topic
      then parsed topic head_event (decode_head content)
      else if text_eq (codes "block") topic
      then parsed topic block_event (decode_block content)
      else if text_eq (codes "attestation") topic
      then parsed topic attestation (decode_attestation content)
      else if text_eq (codes "voluntary_exit") topic
      then parsed topic voluntary_exit (decode_voluntary_exit content)
      else if text_eq (codes "finalized_checkpoint") topic
      then parsed topic finalized_checkpoint (decode_finalized_checkpoint content)
      else if text_eq (codes "chain_reorg") topic
      then parsed topic chain_reorg (decode_chain_reorg content)
      else if text_eq (codes "contribution_and_proof") topic
      then parsed topic contribution_and_proof (decode_contribution_and_proof content)
      else none

  -- `handleEvent`: the event that the handler gets. The flag tells whether there is a handler.
  unfoldable pub handle_event : Bool → Option Message → Option (Event f)
  handle_event false m = none
  handle_event true none = none
  handle_event true (some m) = dispatch m.event m.content
