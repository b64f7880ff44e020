-- ===== src/Server/Stopping.antt =====
-- Stopping, which happens once (pkg/xenorchestra-csi/server.go).
use xenorchestra_csi_driver.Base.{ℕ, true, List, [], ◌∷◌, ◌≡◌, refl, arith, ◌∙◌, ap}
use xenorchestra_csi_driver.Server.{Grpc, Process, stop, graceful_stop}

-- A call on the server object at a place.
pub data StopCall : Type 0 where
  stop_call graceful_stop_call : ℕ → StopCall

module _ {S Server Listener : Type 0} (grpc : Grpc S Server Listener) where
  abbrev pub after_call : StopCall → Process S Server → Process S Server
  after_call (stop_call i) p = stop grpc i p
  after_call (graceful_stop_call i) p = graceful_stop grpc i p

  abbrev pub after_calls : List StopCall → Process S Server → Process S Server
  after_calls [] p = p
  after_calls (c ∷ calls) p = after_calls calls (after_call c p)

  marks : (c : StopCall) (p : Process S Server) → (after_call c p).stop_once ≡ true
  unfolding stop graceful_stop
  marks (stop_call i) p = ground arith
  marks (graceful_stop_call i) p = ground arith

  kept : (c : StopCall) (p : Process S Server) → p.stop_once ≡ true → after_call c p ≡ p
  unfolding stop graceful_stop
  kept (stop_call i) p h = ground arith
  kept (graceful_stop_call i) p h = ground arith

  all_kept :
      (calls : List StopCall) (p : Process S Server) → p.stop_once ≡ true → after_calls calls p ≡ p
  all_kept [] p h = refl
  all_kept (c ∷ calls) p h = ap (after_calls calls) (kept c p h) ∙ all_kept calls p h

  -- Any sequence of calls of `Stop` and `GracefulStop`, on whatever servers of the process, does what its
  -- first call does, and nothing more.
  pub after_calls_once :
      (c : StopCall) (calls : List StopCall) (p : Process S Server)
      → after_calls (c ∷ calls) p ≡ after_call c p
  after_calls_once c calls p = all_kept calls (after_call c p) (marks c p)
