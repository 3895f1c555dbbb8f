-- ===== src/Spec/Versioned/Switches.antt =====
-- Two switches on a version agree if their branches do, and the block that a signed block signs.
use go_eth2_client.Prelude.{
  ℕ, zero, suc, Text, Ending, returns, panics, Result, Bool, true, false, Option, none, some, ◌≡◌,
  refl, ap, ◌∙◌,
}
use go_eth2_client.Spec.DataVersion.{by_version}
use go_eth2_client.Spec.Blocks.{BeaconBlock, SignedBeaconBlock}
use go_eth2_client.Spec.Versioned.{
  VersionedBeaconBlock, VersionedSignedBeaconBlock, Methods, AllMethods, each_fork, is_none,
}

abbrev pub message_of :
    {Rest : Type 0} → Option (SignedBeaconBlock Rest) → Option (BeaconBlock Rest)
message_of none = none
message_of (some s) = s.message

-- The block that a signed block signs, with the same version.
abbrev pub unsigned : VersionedSignedBeaconBlock → VersionedBeaconBlock
unsigned v = record {
  version = v.version;
  phase0_data = message_of v.phase0_data;
  altair_data = message_of v.altair_data;
  bellatrix_data = message_of v.bellatrix_data;
  capella_data = message_of v.capella_data;
}

-- Whether a signed block has no message, and whether it has no message with a body.
abbrev pub has_no_message : (Rest : Type 0) → Option (SignedBeaconBlock Rest) → Bool
has_no_message Rest none = false
has_no_message Rest (some s) = is_none s.message

abbrev pub no_body : {Rest : Type 0} → Option (BeaconBlock Rest) → Bool
no_body none = true
no_body (some b) = is_none b.body

abbrev pub has_no_body : (Rest : Type 0) → Option (SignedBeaconBlock Rest) → Bool
has_no_body Rest none = false
has_no_body Rest (some s) = no_body s.message

-- A test of the version's pointer.
abbrev pub lacks :
    ((Rest : Type 0) → Option (SignedBeaconBlock Rest) → Bool) → VersionedSignedBeaconBlock → Bool
lacks test v =
    by_version v.version (test _ v.phase0_data) (test _ v.altair_data) (test _ v.bellatrix_data)
      (test _ v.capella_data) false

abbrev pub panics_if : {A : Type 0} → Bool → Ending A → Ending A
panics_if true e = panics
panics_if false e = e

module _ {R : Type 0} where
  pub by_version-agree :
      (n : ℕ) (p a b c o p' a' b' c' : Ending R) (tp ta tb tc : Bool)
      → p ≡ panics_if tp p'
      → a ≡ panics_if ta a'
      → b ≡ panics_if tb b'
      → c ≡ panics_if tc c'
      → by_version n p a b c o
        ≡ panics_if (by_version n tp ta tb tc false) (by_version n p' a' b' c' o)
  by_version-agree zero p a b c o p' a' b' c' tp ta tb tc hp ha hb hc = hp
  by_version-agree (suc zero) p a b c o p' a' b' c' tp ta tb tc hp ha hb hc = ha
  by_version-agree (suc (suc zero)) p a b c o p' a' b' c' tp ta tb tc hp ha hb hc = hb
  by_version-agree (suc (suc (suc zero))) p a b c o p' a' b' c' tp ta tb tc hp ha hb hc = hc
  by_version-agree (suc (suc (suc (suc n)))) p a b c o p' a' b' c' tp ta tb tc hp ha hb hc = refl

  pub by_version-map :
      {S : Type 0} (f : R → S) (n : ℕ) (p a b c o : R)
      → by_version n (f p) (f a) (f b) (f c) (f o) ≡ f (by_version n p a b c o)
  by_version-map f zero p a b c o = refl
  by_version-map f (suc zero) p a b c o = refl
  by_version-map f (suc (suc zero)) p a b c o = refl
  by_version-map f (suc (suc (suc zero))) p a b c o = refl
  by_version-map f (suc (suc (suc (suc n)))) p a b c o = refl

-- Two accessors agree if they do on each fork.
module _ {A : Type 0} (all : AllMethods)
    (test : (Rest : Type 0) → Option (SignedBeaconBlock Rest) → Bool)
    (f : (Rest : Type 0) → Methods Rest → Text → Option (SignedBeaconBlock Rest) → Ending A)
    (g : (Rest : Type 0) → Methods Rest → Text → Option (BeaconBlock Rest) → Ending A)
    (same : (Rest : Type 0) (m : Methods Rest) (t : Text) (s : Option (SignedBeaconBlock Rest))
      → f Rest m t s ≡ panics_if (test Rest s) (g Rest m t (message_of s))) where
  pub each_fork-agree :
      (o : Ending A) (v : VersionedSignedBeaconBlock)
      → each_fork all f o v ≡ panics_if (lacks test v) (each_fork all g o (unsigned v))
  each_fork-agree o v =
      by_version-agree v.version _ _ _ _ o _ _ _ _ _ _ _ _ (same _ _ _ v.phase0_data)
        (same _ _ _ v.altair_data) (same _ _ _ v.bellatrix_data) (same _ _ _ v.capella_data)

-- The same where the accessor of the block never panics.
module _ {A : Type 0} (all : AllMethods)
    (test : (Rest : Type 0) → Option (SignedBeaconBlock Rest) → Bool)
    (f : (Rest : Type 0) → Methods Rest → Text → Option (SignedBeaconBlock Rest) → Ending A)
    (g : (Rest : Type 0) → Methods Rest → Text → Option (BeaconBlock Rest) → Result A)
    (same : (Rest : Type 0) (m : Methods Rest) (t : Text) (s : Option (SignedBeaconBlock Rest))
      → f Rest m t s ≡ panics_if (test Rest s) (returns (g Rest m t (message_of s)))) where
  pub each_fork_returns :
      (o : Result A) (v : VersionedSignedBeaconBlock)
      → each_fork all f (returns o) v
        ≡ panics_if (lacks test v) (returns (each_fork all g o (unsigned v)))
  each_fork_returns o v =
      each_fork-agree all test f (λ Rest m t b. returns (g Rest m t b)) same (returns o) v
      ∙ ap (panics_if (lacks test v)) (by_version-map returns v.version _ _ _ _ o)
