-- ===== src/Http/New/Started.antt =====
-- A client that the constructor returns.
use go_eth2_client.Prelude.{
  is_zero, Text, Bytes, codes, Result, ok, err, Ending, returns, panics, false, none, List, [], ◌≡◌,
  ◌≢◌, refl, sym, ap, subst, ◌∙◌, inl, inr, arith,
}
use go_eth2_client.Spec.DataVersion.{DataVersion}
use go_eth2_client.Spec.Blocks.{SignedBeaconBlock}
use go_eth2_client.Http.Service.{Service, Server, ℤ, pos, negsuc, M, after, rewrap, or_wrap}
use go_eth2_client.Http.Service.Frames.{IsSame}
use go_eth2_client.Http.Static.{Decoders}
use go_eth2_client.Http.Blocks.{ForkDecoders, check_api_versioning}
use go_eth2_client.Http.Blocks.Versioning.{IsVersioned, IsChecked, check_api_versioning-IsVersioned}
use go_eth2_client.Http.New.{
  Parameters, Parameter, parse_and_check_parameters, apply_all, check_parameters, initial,
  full_address, fetch_static_values, start, finished, new_at, new_with, new,
}
use go_eth2_client.Http.New.Fetched.{
  settings, HasSpec, fetch_static_values-IsSame, fetch_static_values-HasSpec,
}

-- A client made from another: it has a specification, and the same settings.
abbrev IsReady : Service → Service → Type 0
IsReady s s' = (s'.spec ≢ none) × (settings s' ≡ settings s)

abbrev Readies : {W A : Type 0} → Service → Ending A × Service × W → Type 0
Readies s (panics, s', w) = Unit {0}
Readies s (returns (err e), s', w) = Unit {0}
Readies s (returns (ok a), s', w) = IsReady s s'

ready_of :
    {W A : Type 0} (s : Service) (r : Ending A × Service × W)
    → HasSpec r
    → IsSame settings s r
    → Readies s r
ready_of s (panics, s', w) h e = tt
ready_of s (returns (err e'), s', w) h e = tt
ready_of s (returns (ok a), s', w) h e = (h, e)

versioned-IsReady : (s s1 s' : Service) → IsReady s s1 → IsVersioned s1 s' → IsReady s s'
versioned-IsReady s s1 s' (h, e) (inl v) =
    (λ n. h (sym (ap (λ s. s.spec) v) ∙ n), ap settings v ∙ e)
versioned-IsReady s s1 s' (h, e) (inr v) =
    (λ n. h (sym (ap (λ s. s.spec) v) ∙ n), ap settings v ∙ e)

ended-Readies :
    {W P : Type 0} (t : Text) (s s1 : Service) (r : Ending (Unit {0}) × Service × W)
    → IsReady s s1
    → IsChecked P s1 r
    → Readies s (rewrap t r)
ended-Readies t s s1 (panics, s', w) k v = tt
ended-Readies t s s1 (returns (err e), s', w) k v = tt
ended-Readies t s s1 (returns (ok b), s', w) k (inl (e, p)) = ground arith
ended-Readies t s s1 (returns (ok b), s', w) k (inr (e, v)) = versioned-IsReady s s1 s' k v

-- The check of the version comes after a fetch that succeeded.
checked-Readies :
    {W A P : Type 0} (t t' : Text) (s : Service) (f : M W (Unit {0})) (r : Ending A × Service × W)
    → Readies s r
    → ((s1 : Service) (w : W) → IsChecked P s1 (f s1 w))
    → Readies s (after (λ a. or_wrap t f) (rewrap t' r))
checked-Readies t t' s f (panics, s', w) k h = tt
checked-Readies t t' s f (returns (err e), s', w) k h = tt
checked-Readies t t' s f (returns (ok a), s', w) k h = ended-Readies t s s' (f s' w) k (h s' w)

check_parameters-ok :
    (q : Parameters) {p : Parameters}
    → check_parameters q ≡ ok p
    → (is_zero p.index_chunk_size ≡ false) × (is_zero p.pubkey_chunk_size ≡ false)
check_parameters-ok q h = ground arith

sizes :
    (level : ℤ) (params : List Parameter) {p : Parameters}
    → parse_and_check_parameters level params ≡ ok p
    → (is_zero p.index_chunk_size ≡ false) × (is_zero p.pubkey_chunk_size ≡ false)
unfolding parse_and_check_parameters
sizes level params h =
    check_parameters-ok
      (apply_all params (record {
        log_level = level;
        address = [];
        timeout = pos 2000000000;
        index_chunk_size = negsuc 0;
        pubkey_chunk_size = negsuc 0;
      }))
      h

finished-IsReady :
    {W : Type 0} (s : Service) (r : Ending (Unit {0}) × Service × W) {s' : Service} {w' : W}
    → Readies s r
    → finished r ≡ (returns (ok s'), w')
    → IsReady s s'
finished-IsReady s (panics, s1, w) h e = ground arith
finished-IsReady s (returns (err e'), s1, w) h e = ground arith
finished-IsReady s (returns (ok u), s1, w) {s'} h e =
    let k : s1 ≡ s' = ground arith in subst (IsReady s) k h

-- What a new client is, for its parameters and the text of its URL.
abbrev pub IsNew : Parameters → Text → Service → Type 0
IsNew p base s =
    (s.spec ≢ none)
    × (settings s ≡ (base, p.address, p.index_chunk_size, p.pubkey_chunk_size))
    × (is_zero p.index_chunk_size ≡ false)
    × (is_zero p.pubkey_chunk_size ≡ false)

module _ (server : Server) (decoders : Decoders) (spec_data : Bytes → Result (List (Text × Text)))
    (response_version : Bytes → Result DataVersion) (blocks : ForkDecoders SignedBeaconBlock)
    (base_of : Text → Result Text) where
  open server use {World}

  start-Readies :
      (s : Service) (w : World)
      → Readies s (start server decoders spec_data response_version blocks base_of s w)
  start-Readies s w =
      checked-Readies (codes "failed to check API versioning")
        (codes "failed to confirm node connection") s
        (check_api_versioning server response_version blocks)
        (fetch_static_values server decoders spec_data s w)
        (ready_of s (fetch_static_values server decoders spec_data s w)
          (fetch_static_values-HasSpec server decoders spec_data s w)
          (fetch_static_values-IsSame server decoders spec_data s w))
        (check_api_versioning-IsVersioned server response_version blocks)

  new_at-IsNew :
      (p : Parameters) (w : World) (b : Result Text) {s : Service} {w' : World}
      → (is_zero p.index_chunk_size ≡ false) × (is_zero p.pubkey_chunk_size ≡ false)
      → new_at server decoders spec_data response_version blocks base_of p w b
        ≡ (returns (ok s), w')
      → (base : Text) × (b ≡ ok base) × IsNew p base s
  new_at-IsNew p w (err e) z h = ground arith
  new_at-IsNew p w (ok base) z h =
      let (has, same) =
        finished-IsReady (initial p base)
          (start server decoders spec_data response_version blocks base_of (initial p base) w)
          (start-Readies (initial p base) w) h in
      (base, refl, (has, same, z.0, z.1))

  new_with-IsNew :
      (w : World) (q : Result Parameters) {s : Service} {w' : World}
      → ((p : Parameters)
          → q ≡ ok p
          → (is_zero p.index_chunk_size ≡ false) × (is_zero p.pubkey_chunk_size ≡ false))
      → new_with server decoders spec_data response_version blocks base_of w q
        ≡ (returns (ok s), w')
      → (p : Parameters) × (q ≡ ok p)
        × (base : Text) × (base_of (full_address p.address) ≡ ok base)
        × IsNew p base s
  new_with-IsNew w (err e) z h = ground arith
  new_with-IsNew w (ok p) z h =
      let (base, e, k) = new_at-IsNew p w (base_of (full_address p.address)) (z p refl) h in
      (p, refl, base, e, k)

  -- A client that `New` returns was made from accepted parameters and an address whose URL
  -- parsed, whatever the node answered on the way: it has that URL, that address and the chunk
  -- sizes that were given, neither of them zero, and it has a specification.
  pub new-IsNew :
      (level : ℤ) (params : List Parameter) (w : World) {s : Service} {w' : World}
      → new server decoders spec_data response_version blocks base_of level params w
        ≡ (returns (ok s), w')
      → (p : Parameters) × (parse_and_check_parameters level params ≡ ok p)
        × (base : Text) × (base_of (full_address p.address) ≡ ok base)
        × IsNew p base s
  unfolding new
  new-IsNew level params w h =
      new_with-IsNew w (parse_and_check_parameters level params) (λ p e. sizes level params e) h
