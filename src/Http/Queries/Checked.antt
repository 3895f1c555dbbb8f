-- ===== src/Http/Queries/Checked.antt =====
-- What is returned is what was asked for.
use go_eth2_client.Prelude.{
  Bytes, Slot, Root, CommitteeIndex, codes, Result, ok, err, returns, ◌==◌, Option, none, some,
  List, [], ◌∷◌, All, text_eq, text_eq→eq, ◌≡◌, refl, ap, sym, subst, ◌∙◌, arith, Bool-cases, inl,
  inr,
}
use go_eth2_client.Spec.Blocks.{Attestation, AttestationData}
use go_eth2_client.Http.Service.{Service, Server, M, lift, or_wrap}
use go_eth2_client.Http.Service.Steps.{
  Yields, after-Yields, after-Yields_from, Yields-ok, Yields-map,
}
use go_eth2_client.Http.Queries.{
  check_entry, check_data, fetch_data, attestation_data, entry_data, check_entries, check_pool,
  fetch_pool, attestation_pool, check_root, check_aggregate_data, check_aggregate,
  aggregate_attestation,
}

-- An entry whose pointers lead to data for the slot.
abbrev pub IsAtSlot : Slot → Option Attestation → Type 0
IsAtSlot slot a = (d : AttestationData) × (entry_data a ≡ some d) × (d.slot ≡ slot)

module _ (server : Server) (slot : Slot) where
  open server use {World}

  abbrev IsDataFor : CommitteeIndex → AttestationData → Type 0
  IsDataFor committee_index d = (d.slot ≡ slot) × (d.index ≡ committee_index)

  check_data-IsDataFor :
      (i : CommitteeIndex) (d : Option AttestationData) (s : Service) (w : World)
      → Yields (IsDataFor i) (check_data server slot i d s w)
  check_data-IsDataFor i none s w = tt
  check_data-IsDataFor i (some d) s w = elim (Bool-cases (d.slot == slot)) [
    | inr miss ↦ rw miss tt
    | inl hit ↦ elim (Bool-cases (d.index == i)) [
      | inr miss ↦ rw (hit, miss) tt
      | inl hit' ↦ rw (hit, hit') (ground arith, ground arith)
    ]
  ]

  check_entry-IsAtSlot :
      (a : Option Attestation) (o : Option AttestationData)
      (next : M World (List (Option Attestation))) (pool rest : List (Option Attestation))
      (s : Service) (w : World)
      → entry_data a ≡ o
      → Yields (λ (p : List (Option Attestation)). (p ≡ pool) × All (IsAtSlot slot) rest) (next s w)
      → Yields
          (λ (p : List (Option Attestation)). (p ≡ pool) × All (IsAtSlot slot) (a ∷ rest))
          (check_entry server slot o next s w)
  check_entry-IsAtSlot a none next pool rest s w e h = tt
  check_entry-IsAtSlot a (some d) next pool rest s w e h = elim (Bool-cases (d.slot == slot)) [
    | inr miss ↦ rw miss tt
    | inl hit ↦ rw hit (Yields-map _ _ (next s w) (λ p k. (k.0, ((d, e, ground arith), k.1))) h)
  ]

  check_entries-IsAtSlot :
      (pool rest : List (Option Attestation)) (s : Service) (w : World)
      → Yields
          (λ (p : List (Option Attestation)). (p ≡ pool) × All (IsAtSlot slot) rest)
          (check_entries server slot pool rest s w)
  check_entries-IsAtSlot pool [] s w = (refl, tt)
  check_entries-IsAtSlot pool (a ∷ rest) s w =
      check_entry-IsAtSlot a (entry_data a) (check_entries server slot pool rest) pool rest s w refl
        (check_entries-IsAtSlot pool rest s w)

  check_pool-IsAtSlot :
      (pool : Option (List (Option Attestation))) (s : Service) (w : World)
      → Yields (All (IsAtSlot slot)) (check_pool server slot pool s w)
  check_pool-IsAtSlot none s w = tt
  check_pool-IsAtSlot (some pool) s w =
      Yields-map _ (All (IsAtSlot slot)) (check_entries server slot pool pool s w)
        (λ p k. subst (All (IsAtSlot slot)) (sym k.0) k.1) (check_entries-IsAtSlot pool pool s w)

  -- In a pool that `AttestationPool` returns, each entry is there, has data, and its data is for
  -- the requested slot.
  pub attestation_pool_lem :
      (decode : Bytes → Result (Option (List (Option Attestation)))) (s : Service) (w : World)
      {pool : List (Option Attestation)} {s' : Service} {w' : World}
      → attestation_pool server slot decode s w ≡ (returns (ok pool), s', w')
      → All (IsAtSlot slot) pool
  unfolding attestation_pool
  attestation_pool_lem decode s w h =
      Yields-ok (All (IsAtSlot slot)) (attestation_pool server slot decode s w)
        (after-Yields (All (IsAtSlot slot)) (check_pool server slot)
          (fetch_pool server slot decode s w) check_pool-IsAtSlot)
        h

  module _ (hash_data : AttestationData → Result Root) (data_root : Root) where
    -- No attestation, or one whose data is for the slot and has the root.
    abbrev pub IsAggregate : Option Attestation → Type 0
    IsAggregate none = Unit {0}
    IsAggregate (some a) =
        (d : AttestationData) × (a.attestation_data ≡ some d)
        × (d.slot ≡ slot)
        × (hash_data d ≡ ok data_root)

    hashed :
        (d : AttestationData) (s : Service) (w : World) (r : Result Root)
        → hash_data d ≡ r
        → Yields
            (λ r. hash_data d ≡ ok r)
            (or_wrap
              (codes "failed to obtain hash tree root of aggregate attestation data")
              (lift r)
              s
              w)
    hashed d s w (err e) h = tt
    hashed d s w (ok r) h = h

    rooted :
        (a : Attestation) (d : AttestationData) (r : Root) (s : Service) (w : World)
        → a.attestation_data ≡ some d
        → d.slot ≡ slot
        → hash_data d ≡ ok r
        → Yields IsAggregate (check_root server slot hash_data data_root a r s w)
    rooted a d r s w e at k = elim (Bool-cases (text_eq r data_root)) [
      | inr miss ↦ rw miss tt
      | inl hit ↦ rw hit (d, e, at, k ∙ ap ok (text_eq→eq r data_root hit))
    ]

    check_aggregate_data-IsAggregate :
        (a : Attestation) (o : Option AttestationData) (s : Service) (w : World)
        → a.attestation_data ≡ o
        → Yields IsAggregate (check_aggregate_data server slot hash_data data_root a o s w)
    check_aggregate_data-IsAggregate a none s w e = tt
    check_aggregate_data-IsAggregate a (some d) s w e = elim (Bool-cases (d.slot == slot)) [
      | inr miss ↦ rw miss tt
      | inl hit ↦ rw hit (
          after-Yields_from IsAggregate (λ r. hash_data d ≡ ok r)
            (check_root server slot hash_data data_root a)
            (or_wrap (codes "failed to obtain hash tree root of aggregate attestation data")
              (lift (hash_data d)) s w)
            (hashed d s w (hash_data d) refl) (λ r s w k. rooted a d r s w e (ground arith) k))
    ]

    check_aggregate-IsAggregate :
        (a : Option Attestation) (s : Service) (w : World)
        → Yields IsAggregate (check_aggregate server slot hash_data data_root a s w)
    check_aggregate-IsAggregate none s w = tt
    check_aggregate-IsAggregate (some a) s w =
        check_aggregate_data-IsAggregate a a.attestation_data s w refl

    -- What `AggregateAttestation` returns with no error is no attestation, or one whose data is
    -- for the requested slot and hashes to the requested root.
    pub aggregate_attestation_lem :
        (decode : Bytes → Result (Option Attestation)) (s : Service) (w : World)
        {a : Option Attestation} {s' : Service} {w' : World}
        → aggregate_attestation server slot hash_data data_root decode s w
          ≡ (returns (ok a), s', w')
        → IsAggregate a
    unfolding aggregate_attestation
    aggregate_attestation_lem decode s w h =
        Yields-ok IsAggregate (aggregate_attestation server slot hash_data data_root decode s w)
          (after-Yields IsAggregate (check_aggregate server slot hash_data data_root) _
            check_aggregate-IsAggregate)
          h

  -- Attestation data that `AttestationData` returns is for the requested slot and committee
  -- index.
  pub attestation_data_lem :
      (decode : Bytes → Result (Option AttestationData)) (committee_index : CommitteeIndex)
      (s : Service) (w : World) {d : AttestationData} {s' : Service} {w' : World}
      → attestation_data server slot decode committee_index s w ≡ (returns (ok d), s', w')
      → (d.slot ≡ slot) × (d.index ≡ committee_index)
  unfolding attestation_data
  attestation_data_lem decode i s w h =
      Yields-ok (IsDataFor i) (attestation_data server slot decode i s w)
        (after-Yields (IsDataFor i) (check_data server slot i) (fetch_data server slot decode i s w)
          (check_data-IsDataFor i))
        h

  -- For one slot, where each of the three returned without an error: attestation data that
  -- `AttestationData` returns is for the slot and the committee index; in a pool that
  -- `AttestationPool` returns, each entry is there, has data, and its data is for the slot; what
  -- `AggregateAttestation` returns is no attestation, or one whose data is for the slot and
  -- hashes to the requested root.
  pub checked_attestations :
      (hash_data : AttestationData → Result Root) (data_root : Root)
      (committee_index : CommitteeIndex) (decode : Bytes → Result (Option AttestationData))
      (decode_pool : Bytes → Result (Option (List (Option Attestation))))
      (decode_aggregate : Bytes → Result (Option Attestation)) (s : Service) (w : World)
      {d : AttestationData} {pool : List (Option Attestation)} {a : Option Attestation}
      {s1 s2 s3 : Service} {w1 w2 w3 : World}
      → attestation_data server slot decode committee_index s w ≡ (returns (ok d), s1, w1)
      → attestation_pool server slot decode_pool s w ≡ (returns (ok pool), s2, w2)
      → aggregate_attestation server slot hash_data data_root decode_aggregate s w
        ≡ (returns (ok a), s3, w3)
      → (d.slot ≡ slot)
        × (d.index ≡ committee_index)
        × All (IsAtSlot slot) pool
        × IsAggregate hash_data data_root a
  checked_attestations hash_data data_root committee_index decode decode_pool decode_aggregate s w h
        k l =
      let (e, f) = attestation_data_lem decode committee_index s w h in
      (
        e,
        f,
        attestation_pool_lem decode_pool s w k,
        aggregate_attestation_lem hash_data data_root decode_aggregate s w l,
      )
