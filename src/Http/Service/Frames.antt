-- ===== src/Http/Service/Frames.antt =====
-- Methods that leave a part of the client's state as it was: `view` shows that part.
use go_eth2_client.Prelude.{
  Text, Bytes, ok, err, Ending, returns, panics, Option, none, some, ◌≡◌, refl, ◌∙◌,
}
use go_eth2_client.Http.Service.{Service, Server, M, after, rewrap, or_wrap}
use go_eth2_client.Http.Get.{get}
use go_eth2_client.Http.Static.{need_body, request}

module _ {W : Type 0} {X : Type 0} (view : Service → X) where
  abbrev pub IsSame : {A : Type 0} → Service → Ending A × Service × W → Type 0
  IsSame s r = view r.1 ≡ view s

  pub after-IsSame :
      {A B : Type 0} (s : Service) (f : B → M W A) (r : Ending B × Service × W)
      → IsSame s r
      → ((b : B) (s' : Service) (w : W) → view s' ≡ view s → IsSame s (f b s' w))
      → IsSame s (after f r)
  after-IsSame s f (panics, s', w) k h = k
  after-IsSame s f (returns (err e), s', w) k h = k
  after-IsSame s f (returns (ok b), s', w) k h = h b s' w k

  pub rewrap-IsSame :
      {A : Type 0} (s : Service) (t : Text) (r : Ending A × Service × W)
      → IsSame s r
      → IsSame s (rewrap t r)
  rewrap-IsSame s t (panics, s', w) k = k
  rewrap-IsSame s t (returns (err e), s', w) k = k
  rewrap-IsSame s t (returns (ok a), s', w) k = k

module _ (server : Server) {X : Type 0} (view : Service → X) where
  open server use {World}

  pub get-IsSame :
      (endpoint : Text) (s : Service) (w : World) → IsSame view s (get server endpoint s w)
  unfolding get
  get-IsSame endpoint s w = refl

  pub need_body-IsSame :
      (t : Text) (b : Option Bytes) (s : Service) (w : World)
      → IsSame view s (need_body server t b s w)
  need_body-IsSame t none s w = refl
  need_body-IsSame t (some b) s w = refl

  pub request-IsSame :
      (endpoint failed missing : Text) (s : Service) (w : World)
      → IsSame view s (request server endpoint failed missing s w)
  request-IsSame endpoint failed missing s w =
      after-IsSame view s (need_body server missing) (or_wrap failed (get server endpoint) s w)
        (rewrap-IsSame view s failed (get server endpoint s w) (get-IsSame endpoint s w))
        (λ b s' w' e. need_body-IsSame missing b s' w' ∙ e)
