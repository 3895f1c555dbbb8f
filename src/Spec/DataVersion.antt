-- ===== src/Spec/DataVersion.antt =====
-- spec/dataversion.go: the fork that a piece of data belongs to, an integer in the source.
pub mod Texts
use go_eth2_client.Prelude.{
  ℕ, zero, suc, Text, codes, to_lower, text_eq, Result, ok, err, Ending, returns, panics, Option,
  none, some, List, [], ◌∷◌, ◌++◌, get_elem?, if◌then◌else◌,
}

-- Phase 0, Altair, Bellatrix and Capella are 0 to 3; any uint64 can be held.
abbrev pub DataVersion : Type 0
DataVersion = ℕ

abbrev pub phase0 : DataVersion
phase0 = 0

abbrev pub altair : DataVersion
altair = 1

abbrev pub bellatrix : DataVersion
bellatrix = 2

abbrev pub capella : DataVersion
capella = 3

abbrev pub data_version_strings : List Text
data_version_strings = codes "phase0" ∷ codes "altair" ∷ codes "bellatrix" ∷ codes "capella" ∷ []

abbrev quoted_version : Option Text → Ending Text
quoted_version none = panics
quoted_version (some t) = returns (ok (b'"' ∷ t ++ b'"' ∷ []))

-- `MarshalJSON`, which is out of range for other integers.
unfoldable pub marshal_json : DataVersion → Ending Text
marshal_json d = quoted_version (get_elem? data_version_strings d)

unfoldable pub unmarshal_json : Text → Result DataVersion
unmarshal_json input =
    if text_eq (to_lower input) (codes "\"phase0\"")
    then ok phase0
    else if text_eq (to_lower input) (codes "\"altair\"")
    then ok altair
    else if text_eq (to_lower input) (codes "\"bellatrix\"")
    then ok bellatrix
    else if text_eq (to_lower input) (codes "\"capella\"")
    then ok capella
    else err (codes "unrecognised data version " ++ input)

abbrev known_or : Option Text → Text
known_or none = codes "unknown"
known_or (some t) = t

-- `String`. From 2^63 on `int(d)` is negative and the code panics; no version that is read or set is
-- so large.
unfoldable pub data_version_string : DataVersion → Text
data_version_string d = known_or (get_elem? data_version_strings d)

-- The branches of a `switch` on a version, the default last.
abbrev pub by_version {ℓ} : {R : Type ℓ} → DataVersion → R → R → R → R → R → R
by_version zero p a b c other = p
by_version (suc zero) p a b c other = a
by_version (suc (suc zero)) p a b c other = b
by_version (suc (suc (suc zero))) p a b c other = c
by_version (suc (suc (suc (suc n)))) p a b c other = other
