-- ===== src/Multi/Pool/Partition.antt =====
-- No interleaving of moves loses a client, doubles one, or makes one up.
use mathlib.Core.List.{Perm, Nodup, perm_middle, perm_append_comm}
use mathlib.Core.List.Perm
use go_eth2_client.Prelude.{
  Text, ◌==◌, List, [], ◌∷◌, ◌++◌, append_assoc, ◌≡◌, refl, Bool-cases, inl, inr,
}
use go_eth2_client.Multi.Pool.{Client, Service, deactivate_client, activate_client}
use go_eth2_client.Multi.Pool.Moves.{only, others, deactivate_client_lists, activate_client_lists}

-- All clients of a service.
abbrev pub clients : Service → List Client
clients s = s.active_clients ++ s.inactive_clients

split-perm : (c : Client) (xs : List Client) → Perm (others c xs ++ only c xs) xs
split-perm c [] = Perm.refl []
split-perm c (x ∷ xs) = elim (Bool-cases (x == c)) [
  | inl hit ↦
      rw hit (Perm.trans (perm_middle (others c xs) (only c xs)) (Perm.cons x (split-perm c xs)))
  | inr miss ↦ rw miss (Perm.cons x (split-perm c xs))
]

-- One step on the pool, under the lock: some goroutine moves a client.
pub data Move : Type 0 where
  activate deactivate : Client → Move

module _ (address : Client → Text) where
  abbrev pub move : Move → Service → Service
  move (activate c) s = activate_client address c s
  move (deactivate c) s = deactivate_client address c s

  abbrev pub run_moves : List Move → Service → Service
  run_moves [] s = s
  run_moves (m ∷ ms) s = run_moves ms (move m s)

  pub run_moves-append :
      (ms ns : List Move) (s : Service) → run_moves (ms ++ ns) s ≡ run_moves ns (run_moves ms s)
  run_moves-append [] ns s = refl
  run_moves-append (m ∷ ms) ns s = run_moves-append ms ns (move m s)

  move-perm : (m : Move) (s : Service) → Perm (clients (move m s)) (clients s)
  move-perm (activate c) s =
      let (a, i) = activate_client_lists address c s in
      rw (a, i, append_assoc)
        (Perm.append_left s.active_clients (
          Perm.trans (perm_append_comm (only c s.inactive_clients) (others c s.inactive_clients))
            (split-perm c s.inactive_clients)))
  move-perm (deactivate c) s =
      let (a, i) = deactivate_client_lists address c s in
      rw (a, i)
        (Perm.trans
          (Perm.append_left (others c s.active_clients)
            (perm_append_comm s.inactive_clients (only c s.active_clients)))
          (rw
            (← append_assoc (others c s.active_clients) (only c s.active_clients)
              s.inactive_clients)
            (Perm.append_right s.inactive_clients (split-perm c s.active_clients))))

  -- Whatever activations and deactivations any number of goroutines make, and in whatever order,
  -- the service holds the clients that it held before, each as often: none is lost, doubled or
  -- made up.
  pub run_moves-perm : (ms : List Move) (s : Service) → Perm (clients (run_moves ms s)) (clients s)
  run_moves-perm [] s = Perm.refl _
  run_moves-perm (m ∷ ms) s = Perm.trans (run_moves-perm ms (move m s)) (move-perm m s)

  -- So no client is ever listed twice, or both as active and as inactive.
  pub run_moves-Nodup :
      (ms : List Move) (s : Service) → Nodup (clients s) → Nodup (clients (run_moves ms s))
  run_moves-Nodup ms s = Perm.nodup (Perm.symm (run_moves-perm ms s))
