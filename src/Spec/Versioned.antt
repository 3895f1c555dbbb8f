-- ===== src/Spec/Versioned.antt =====
-- Data of one of the forks: the shape of spec/versionedbeaconblock.go and its likes. Each has a
-- version and a pointer for each fork, of which the version's is meant.
pub mod Block
pub mod Signed
pub mod Switches
pub mod Agreement
pub mod Tests
use go_eth2_client.Prelude.{
  ℕ, Text, codes, Root, Ending, returns, panics, Error, Result, ok, err, Bool, true, false, ◌&&◌,
  Option, none, some, ◌++◌,
}
use go_eth2_client.Spec.DataVersion.{DataVersion, by_version}
use go_eth2_client.Spec.Blocks.{
  BeaconBlock, BeaconBlockBody, SignedBeaconBlock, Phase0Rest, AltairRest, BellatrixRest,
  CapellaRest,
}

-- `B Rest` is a fork's type of data.
pub record Versioned (B : Type 0 → Type 0) : Type 0 where
  pub version : DataVersion
  pub phase0_data : Option (B Phase0Rest)
  pub altair_data : Option (B AltairRest)
  pub bellatrix_data : Option (B BellatrixRest)
  pub capella_data : Option (B CapellaRest)

abbrev pub VersionedBeaconBlock : Type 0
VersionedBeaconBlock = Versioned BeaconBlock

abbrev pub VersionedSignedBeaconBlock : Type 0
VersionedSignedBeaconBlock = Versioned SignedBeaconBlock

-- The methods of a fork's types that come from its encodings: `HashTreeRoot` and `String`.
pub record Methods (Rest : Type 0) : Type 0 where
  pub hash_block : BeaconBlock Rest → Ending Root
  pub hash_body : BeaconBlockBody Rest → Ending Root
  pub print_block : BeaconBlock Rest → Text
  pub print_signed : SignedBeaconBlock Rest → Text

pub record AllMethods : Type 0 where
  pub phase0_methods : Methods Phase0Rest
  pub altair_methods : Methods AltairRest
  pub bellatrix_methods : Methods BellatrixRest
  pub capella_methods : Methods CapellaRest

-- A `switch` on the version whose branches differ by the fork alone: `f` gets the fork's methods, its
-- name and its pointer.
abbrev pub each_fork :
    {B : Type 0 → Type 0} {R : Type 0}
    → AllMethods
    → ((Rest : Type 0) → Methods Rest → Text → Option (B Rest) → R)
    → R
    → Versioned B
    → R
each_fork all f other v =
    by_version v.version (f _ all.phase0_methods (codes "phase0") v.phase0_data)
      (f _ all.altair_methods (codes "altair") v.altair_data)
      (f _ all.bellatrix_methods (codes "bellatrix") v.bellatrix_data)
      (f _ all.capella_methods (codes "capella") v.capella_data) other

abbrev pub no_block : Text → Error
no_block name = codes "no " ++ name ++ codes " block"

abbrev pub unknown_version : Error
unknown_version = codes "unknown version"

abbrev pub is_none : {A : Type 0} → Option A → Bool
is_none none = true
is_none (some a) = false

-- `IsEmpty`.
unfoldable pub is_empty : {B : Type 0 → Type 0} → Versioned B → Bool
is_empty v =
    is_none v.phase0_data
    && is_none v.altair_data
    && is_none v.bellatrix_data
    && is_none v.capella_data
