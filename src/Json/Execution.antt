-- ===== src/Json/Execution.antt =====
-- The JSON of execution payloads and of their headers.
use go_eth2_client.Prelude.{ok, Ending, returns, All, ◌≡◌, ◌↔◌}
use go_eth2_client.Codec.Panics.{GivesAtEnd}
use go_eth2_client.Codec.Payload.Laws.{IsNotEmpty}
use go_eth2_client.Spec.Blocks.{ExecutionPayload, CapellaPayload}
use go_eth2_client.Api.Blinded.{ExecutionPayloadHeader, CapellaHeader}
use go_eth2_client.Json.Payload.{
  ExecutionPayloadJson, CapellaPayloadJson, marshal_execution_payload, unmarshal_execution_payload,
  marshal_capella_payload, unmarshal_capella_payload,
}
use go_eth2_client.Json.Payload.Kept.{IsExecutionPayload, payloads_survive}
use go_eth2_client.Json.PayloadHeader.{
  ExecutionPayloadHeaderJson, CapellaHeaderJson, marshal_execution_payload_header,
  unmarshal_execution_payload_header, marshal_capella_header, unmarshal_capella_header,
}
use go_eth2_client.Json.PayloadHeader.Kept.{
  IsExecutionPayloadHeader, IsCapellaHeader, payload_headers_survive,
}

-- Written and read back.
abbrev pub again : ExecutionPayload → Ending ExecutionPayload
again x = unmarshal_execution_payload (marshal_execution_payload x)

abbrev pub capella_again : CapellaPayload → Ending CapellaPayload
capella_again y = unmarshal_capella_payload (marshal_capella_payload y)

abbrev pub header_again : ExecutionPayloadHeader → Ending ExecutionPayloadHeader
header_again u = unmarshal_execution_payload_header (marshal_execution_payload_header u)

abbrev pub capella_header_again : CapellaHeader → Ending CapellaHeader
capella_header_again v = unmarshal_capella_header (marshal_capella_header v)

-- An execution payload of Bellatrix or of Capella is valid and has no empty transaction exactly
-- if it is read back from what it is written as in JSON, its base fee, which is stored with the
-- lowest byte first and written as one number, and its extra data included. A header of either is
-- valid exactly if it is read back. Whatever is read without an error is valid.
pub execution_survive :
    (x : ExecutionPayload) (y : CapellaPayload) (u : ExecutionPayloadHeader) (v : CapellaHeader)
    (j : ExecutionPayloadJson) (k : CapellaPayloadJson) (l : ExecutionPayloadHeaderJson)
    (m : CapellaHeaderJson)
    → ((IsExecutionPayload x × All IsNotEmpty x.transactions) ↔ (again x ≡ returns (ok x)))
      × ((IsExecutionPayload y.payload × All IsNotEmpty y.payload.transactions)
          ↔ (capella_again y ≡ returns (ok y)))
      × (IsExecutionPayloadHeader u ↔ (header_again u ≡ returns (ok u)))
      × (IsCapellaHeader v ↔ (capella_header_again v ≡ returns (ok v)))
      × GivesAtEnd IsExecutionPayload (unmarshal_execution_payload j)
      × GivesAtEnd
          (λ (z : CapellaPayload). IsExecutionPayload z.payload)
          (unmarshal_capella_payload k)
      × GivesAtEnd IsExecutionPayloadHeader (unmarshal_execution_payload_header l)
      × GivesAtEnd IsCapellaHeader (unmarshal_capella_header m)
execution_survive x y u v j k l m =
    let (a, b, c, d) = payloads_survive x y j k in
    let (e, f, g, h) = payload_headers_survive u v l m in (a, b, e, f, c, d, g, h)
