-- ===== src/Tests/Drain.antt =====
-- The agent's consumers behind the arrival of a registration.
use sag_c8y_nb_iot_demo.Base.{◌≤◌, ◌⊎◌, refl, []}
use sag_c8y_nb_iot_demo.Agent.Drain.{Idle, work, Serves, none_yet, one_more, Servable}
use sag_c8y_nb_iot_demo.Agent.Steps.{registers}
use sag_c8y_nb_iot_demo.System.Drain.{Run-Drains}
use sag_c8y_nb_iot_demo.System.Network.{Sent}
use sag_c8y_nb_iot_demo.Tests.Network.{
  At, Granted, Measured, At-Alone, open-Gives, start-Start, arrived, message, queued, replying,
  message-replying,
}
use sag_c8y_nb_iot_demo.Tests.Service.{open_platform}

queued-Serves : Serves open_platform (Sent At Granted Measured) queued 1 replying
queued-Serves = one_more none_yet (registers [] [] message refl message-replying)

Run-Drains_example :
    (1 ≤ work queued) × (Idle replying ⊎ Servable open_platform (Sent At Granted Measured) replying)
Run-Drains_example =
    Run-Drains At Granted Measured open_platform At-Alone open-Gives arrived start-Start
      queued-Serves
