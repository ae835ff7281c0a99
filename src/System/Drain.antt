-- ===== src/System/Drain.antt =====
-- The boards and the agent: the consumers come to an end.
use sag_c8y_nb_iot_demo.Base.{ℕ, ◌≤◌, ◌⊎◌, List, arith}
use sag_c8y_nb_iot_demo.Agent.Drain.{
  Idle, work, Serves, Serves-work, Servable, Serves-Orderly, Orderly-Servable,
}
use sag_c8y_nb_iot_demo.Agent.Handler.{Platform}
use sag_c8y_nb_iot_demo.Agent.Routes.{Agent}
use sag_c8y_nb_iot_demo.Node.{Readings}
use sag_c8y_nb_iot_demo.System.Network.{World, Alone, Sent, GoodAt, Run, Start, Gives}
use sag_c8y_nb_iot_demo.System.Safety.{Inv, Start-Inv, Run-Inv, Gives-Sound}

module _ (At : List ℕ → ℕ → List ℕ → Type 0) (Granted : List ℕ → List ℕ → Type 0)
    (Measured : List ℕ → Readings → Type 0) (platform : Platform) (alone : Alone At)
    (gives : Gives At Granted Measured platform) where
  -- Behind any run of the boards, the network and the agent, the consumers empty the queues: of a
  -- sequence of messages that they take, whichever and in whatever order, with what they put into
  -- the credentials queue themselves, the length is at most twice the measurements and the
  -- registrations and once the credentials that were waiting; and at the end of each such sequence
  -- the queues are empty, or there is a message whose consumer finishes. No datagram comes in
  -- meanwhile. What is asked of the run, the addresses and Cumulocity is what `Run-Safe` asks.
  pub Run-Drains :
      {w w' : World platform} {n : ℕ} {b : Agent platform}
      → Run At Granted Measured platform w w'
      → Start w
      → Serves platform (Sent At Granted Measured) w'.agent n b
      → (n ≤ work w'.agent) × (Idle b ⊎ Servable platform (Sent At Granted Measured) b)
  Run-Drains {w} {w'} {n} {b} run start serves =
      let sound = Gives-Sound At Granted Measured platform gives in
      let h : Inv At Granted Measured platform w' =
        Run-Inv At Granted Measured platform alone gives run
          (Start-Inv At Granted Measured platform w start) in
      (
        omega (arith, Serves-work platform (Sent At Granted Measured) serves),
        Orderly-Servable platform (Sent At Granted Measured) At (GoodAt At Granted Measured) sound b
            (Serves-Orderly platform (Sent At Granted Measured) At (GoodAt At Granted Measured)
              sound serves h.orderly),
      )
