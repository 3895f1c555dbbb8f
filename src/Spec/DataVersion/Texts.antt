-- ===== src/Spec/DataVersion/Texts.antt =====
-- The texts of the versions in spec/dataversion.go are read back.
use go_eth2_client.Prelude.{
  Text, codes, to_lower, text_eq, text_eq→eq, Result, ok, returns, ◌≡◌, ap, sym, ◌∙◌, ◌↔◌, arith,
  refl, zero, suc, Bool-cases, inl, inr, if◌then◌else◌,
}
use go_eth2_client.Spec.DataVersion.{DataVersion, marshal_json, unmarshal_json}

-- One case of the switch.
case :
    (s t : Text) (d : DataVersion) (rest : Result DataVersion) {v : DataVersion}
    → marshal_json d ≡ returns (ok t)
    → (if text_eq s t then ok d else rest) ≡ ok v
    → (rest ≡ ok v → marshal_json v ≡ returns (ok s))
    → marshal_json v ≡ returns (ok s)
case s t d rest {v} m h other = elim (Bool-cases (text_eq s t)) [
  | inl hit ↦
      let k : ok d ≡ ok v = rw hit at h in
      let e : d ≡ v = cc in
      sym (ap marshal_json e) ∙ m ∙ ap (λ u. returns (ok u)) (sym (text_eq→eq s t hit))
  | inr miss ↦ other (rw miss at h)
]

unmarshal_json-ok :
    (input : Text) {v : DataVersion}
    → unmarshal_json input ≡ ok v
    → marshal_json v ≡ returns (ok (to_lower input))
unfolding unmarshal_json marshal_json
unmarshal_json-ok input {v} h = case (to_lower input) _ 0 _ refl h (λ h.
    case (to_lower input) _ 1 _ refl h (λ h.
      case (to_lower input) _ 2 _ refl h
        (λ h. case (to_lower input) _ 3 _ refl h (λ h. ground arith))))

marshal_json-returns :
    (input : Text) (v : DataVersion)
    → marshal_json v ≡ returns (ok (to_lower input))
    → unmarshal_json input ≡ ok v
unfolding unmarshal_json marshal_json
marshal_json-returns input zero h = let e : to_lower input ≡ codes "\"phase0\"" = cc in rw e
marshal_json-returns input (suc zero) h = let e : to_lower input ≡ codes "\"altair\"" = cc in rw e
marshal_json-returns input (suc (suc zero)) h =
    let e : to_lower input ≡ codes "\"bellatrix\"" = cc in rw e
marshal_json-returns input (suc (suc (suc zero))) h =
    let e : to_lower input ≡ codes "\"capella\"" = cc in rw e
marshal_json-returns input (suc (suc (suc (suc n)))) h = ground arith

-- A text is read as a data version exactly when the text in lower case is what the version is
-- written as: what is written is read back, and no other text is read.
pub unmarshal_json-marshal_json :
    (input : Text) (v : DataVersion)
    → (unmarshal_json input ≡ ok v) ↔ (marshal_json v ≡ returns (ok (to_lower input)))
unmarshal_json-marshal_json input v = (unmarshal_json-ok input, marshal_json-returns input v)
