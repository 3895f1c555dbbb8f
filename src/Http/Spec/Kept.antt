-- ===== src/Http/Spec/Kept.antt =====
-- The specification is requested once.
use go_eth2_client.Prelude.{
  codes, ◌∙◌, Text, Bytes, Result, ok, err, Ending, returns, panics, Option, none, some, List, ◌≡◌,
  refl, subst,
}
use go_eth2_client.Http.Service.{Service, Server, SpecMap, M, after, lift}
use go_eth2_client.Http.Service.Frames.{IsSame, after-IsSame, rewrap-IsSame, request-IsSame}
use go_eth2_client.Http.Spec.{
  spec, spec_or, fetch_spec, request_spec, parse_spec, store_texts, on_spec, config,
}

-- A map that is returned is the one that the client keeps from then on.
abbrev pub Keeps : {W : Type 0} → Ending SpecMap × Service × W → Type 0
Keeps (panics, s, w) = Unit {0}
Keeps (returns (err e), s, w) = Unit {0}
Keeps (returns (ok m), s, w) = s.spec ≡ some m

after-Keeps :
    {W B : Type 0} (f : B → M W SpecMap) (r : Ending B × Service × W)
    → ((b : B) (s : Service) (w : W) → Keeps (f b s w))
    → Keeps (after f r)
after-Keeps f (panics, s, w) h = tt
after-Keeps f (returns (err e), s, w) h = tt
after-Keeps f (returns (ok b), s, w) h = h b s w

module _ (server : Server) (spec_data : Bytes → Result (List (Text × Text))) where
  open server use {World}

  fetch_spec-Keeps : (s : Service) (w : World) → Keeps (fetch_spec server spec_data s w)
  unfolding fetch_spec
  fetch_spec-Keeps s w =
      after-Keeps (on_spec server spec_data) (request_spec server spec_data s w) (λ body s w.
        after-Keeps (store_texts server spec_data) (parse_spec server spec_data body s w)
          (λ texts s w. refl))

  spec_or-Keeps :
      (o : Option SpecMap) (s : Service) (w : World)
      → s.spec ≡ o
      → Keeps (spec_or server spec_data o (fetch_spec server spec_data) s w)
  spec_or-Keeps none s w e = fetch_spec-Keeps s w
  spec_or-Keeps (some m) s w e = e

  pub spec-Keeps : (s : Service) (w : World) → Keeps (spec server spec_data s w)
  unfolding spec
  spec-Keeps s w = spec_or-Keeps s.spec s w refl

  kept :
      (s : Service) (w : World) {m : SpecMap}
      → s.spec ≡ some m
      → spec server spec_data s w ≡ (returns (ok m), s, w)
  unfolding spec
  kept s w e = rw e refl

  -- After `Spec` returned a map, a later call on the client as it was left returns the same map,
  -- asks the node nothing and changes nothing.
  pub spec_again :
      (s : Service) (w later : World) {m : SpecMap} {s' : Service} {w' : World}
      → spec server spec_data s w ≡ (returns (ok m), s', w')
      → spec server spec_data s' later ≡ (returns (ok m), s', later)
  unfolding spec
  spec_again s w later e = kept _ later (subst Keeps e (spec_or-Keeps s.spec s w refl))

  module _ {X : Type 0} (view : Service → X)
      (blind : (s : Service) (o : Option SpecMap) → view (record s { spec = o }) ≡ view s) where
    fetch_spec-IsSame : (s : Service) (w : World) → IsSame view s (fetch_spec server spec_data s w)
    unfolding fetch_spec
    fetch_spec-IsSame s w =
        after-IsSame view s (on_spec server spec_data) (request_spec server spec_data s w)
          (request-IsSame server view (codes "/eth/v1/config/spec") (codes "failed to request spec")
            (codes "failed to obtain spec") s w)
          (λ body s' w' e.
            after-IsSame view s' (store_texts server spec_data)
              (parse_spec server spec_data body s' w')
              (rewrap-IsSame view s' (codes "failed to parse spec") (lift (spec_data body) s' w')
                refl)
              (λ texts s1 w1 e1. blind s1 (some (config texts)) ∙ e1)
            ∙ e)

    spec_or-IsSame :
        (o : Option SpecMap) (s : Service) (w : World)
        → IsSame view s (spec_or server spec_data o (fetch_spec server spec_data) s w)
    spec_or-IsSame none s w = fetch_spec-IsSame s w
    spec_or-IsSame (some m) s w = refl

    pub spec-IsSame : (s : Service) (w : World) → IsSame view s (spec server spec_data s w)
    unfolding spec
    spec-IsSame s w = spec_or-IsSame s.spec s w
