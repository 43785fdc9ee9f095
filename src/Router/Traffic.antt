-- ===== src/Router/Traffic.antt =====
-- What the tasks of src/client.rs do while a command waits: the reader routes messages, and the
-- heartbeat task sends PINGs.
use oxicast.Common.{Bool, true, false, List, [], ◌∷◌, ◌++◌, ◌≡◌, refl, sym, ap, ◌∙◌, if◌then◌else◌}
use mathlib.Core.List.{append_assoc}
use oxicast.Types.{F64, F32}
use oxicast.Message.{CastMessage}
use oxicast.Serde.{SerdeJson}
use oxicast.Heartbeat.{is_ping, ping, pong}
use oxicast.Router.{World, write, route}
use oxicast.Router.Session.{route-written}

-- The reader reads a message, or a PING of the heartbeat task is taken by the write channel.
pub data Traffic : Type 0 where
  reads : CastMessage → Traffic
  beats : Traffic

push_if :
    (b : Bool) (xs : List CastMessage) (m : CastMessage) (ws : List CastMessage)
    → xs ++ (if b then m ∷ ws else ws) ≡ (xs ++ (if b then m ∷ [] else [])) ++ ws
push_if true xs m ws = sym (append_assoc xs (m ∷ []) ws)
push_if false xs m ws = sym (append_assoc xs [] ws)

module _ (j : SerdeJson) where
  -- What the tasks send of themselves, newest first: a PONG for each PING read, and their own PINGs.
  abbrev pub heartbeats : List Traffic → List CastMessage
  heartbeats [] = []
  heartbeats (reads m ∷ more) = heartbeats more ++ (if is_ping m then pong j ∷ [] else [])
  heartbeats (beats ∷ more) = heartbeats more ++ (ping j ∷ [])

module _ (j : SerdeJson) (to_f32 : F64 → F32) where
  abbrev pub pass : Traffic → World j.Value → World j.Value
  pass (reads m) w = route j to_f32 m w
  pass beats w = write (ping j) w

  unfoldable pub pass_all : List Traffic → World j.Value → World j.Value
  pass_all [] w = w
  pass_all (x ∷ more) w = pass_all more (pass x w)

  pub pass_all-append :
      (xs ys : List Traffic) (w : World j.Value)
      → pass_all (xs ++ ys) w ≡ pass_all ys (pass_all xs w)
  unfolding pass_all
  pass_all-append [] ys w = refl
  pass_all-append (x ∷ xs) ys w = pass_all-append xs ys (pass x w)

  pub pass_all-written :
      (traffic : List Traffic) (w : World j.Value)
      → (pass_all traffic w).written ≡ heartbeats j traffic ++ w.written
  unfolding pass_all
  pass_all-written [] w = refl
  pass_all-written (reads m ∷ more) w =
      pass_all-written more (route j to_f32 m w)
      ∙ (ap (λ ws. heartbeats j more ++ ws) (route-written j to_f32 m w)
          ∙ push_if (is_ping m) (heartbeats j more) (pong j) w.written)
  pass_all-written (beats ∷ more) w =
      pass_all-written more (write (ping j) w)
      ∙ sym (append_assoc (heartbeats j more) (ping j ∷ []) w.written)
