-- ===== src/System/Safety.antt =====
-- The boards, the agent and the network: what holds along every run.
use sag_c8y_nb_iot_demo.Base.{
  All-append, All-taken, All-put, ℕ, inl, inr, refl, sym, All, List, [], ◌∷◌,
}
use mathlib.Core.Path.{subst}
use sag_c8y_nb_iot_demo.Agent.Handler.{Platform}
use sag_c8y_nb_iot_demo.Agent.Orderly.{Orderly, Sound}
use sag_c8y_nb_iot_demo.Agent.Progress.{receive-Orderly, Served-Orderly, Handles, Orderly-Handles}
use sag_c8y_nb_iot_demo.Agent.Routes.{Agent}
use sag_c8y_nb_iot_demo.Agent.Safety.{Reach-posts}
use sag_c8y_nb_iot_demo.Agent.Steps.{receives, serves, Reach, here, next, Kept}
use sag_c8y_nb_iot_demo.Node.{Readings}
use sag_c8y_nb_iot_demo.System.Ready.{Own, Turn-Ready}
use sag_c8y_nb_iot_demo.System.Network.{
  Member, World, Alone, Sent, GoodAt, Event, turns, arrives, consumes, Run, still, then, Ready, New,
  Start, Gives,
}

module _ (At : List ℕ → ℕ → List ℕ → Type 0) (Granted : List ℕ → List ℕ → Type 0)
    (Measured : List ℕ → Readings → Type 0) (platform : Platform) where
  abbrev SentHere : List ℕ → List ℕ → Readings → Type 0
  SentHere = Sent At Granted Measured

  abbrev GoodHere : List ℕ → ℕ → List ℕ → Type 0
  GoodHere = GoodAt At Granted Measured

  abbrev IsReady : Member → Type 0
  IsReady b = Ready (Granted b.imei) b.imei b.node

  pub record Inv (w : World platform) : Type 0 where
    pub ready : All IsReady w.boards
    pub sent : All (Own At Granted Measured platform) w.uplink
    pub orderly : Orderly platform SentHere At GoodHere w.agent

  New-Ready : (bs : List Member) → All New bs → All IsReady bs
  New-Ready [] h = tt
  New-Ready (b ∷ bs) (new, h) = (
    record {
      id_line = new.id_line;
      id_filled = new.id_filled;
      short_id = new.short_id;
      same_id = new.same_id;
      token = inl new.no_token;
      room = new.room;
    },
    New-Ready bs h,
  )

  pub Start-Inv : (w : World platform) → Start w → Inv w
  Start-Inv w h = record {
    ready = New-Ready w.boards h.boards;
    sent = rw h.nothing_sent tt;
    orderly = record {
      measurements = rw h.measurements tt;
      registrations = rw h.registrations tt;
      credentials = rw h.credentials tt;
      answers = rw h.no_answers tt;
    };
  }

  pub Gives-Sound : Gives At Granted Measured platform → Sound platform SentHere At GoodHere
  Gives-Sound gives = record {
    reset = λ ip port. inl refl;
    granted = λ ip port device_id password id s s' s'' located polled created.
        let (pl, il, filled, credential) = gives device_id password id s s' s'' polled created in
        (
          pl,
          il,
          filled,
          inr (record { device_id = device_id; located = located; credential = credential }),
        );
  }

  module _ (alone : Alone At) (gives : Gives At Granted Measured platform) where
    Event-Inv : {w w' : World platform} → Event At Granted Measured platform w w' → Inv w → Inv w'
    Event-Inv {w} (turns before after b n' sent taken turn e) h =
        let (ready, others) = All-taken IsReady before after b (rw taken at h.ready) in
        let (ready', parcels) =
          Turn-Ready At Granted Measured platform alone turn h.orderly.answers ready in
        rw⁻¹ e (record {
          ready = All-put IsReady before after (record b { node = n' }) ready' others;
          sent = All-append (Own At Granted Measured platform) sent w.uplink parcels h.sent;
          orderly = h.orderly;
        })
    Event-Inv {w} (arrives ip port now before after x il small stamp from located e) h =
        let (own, _) =
          All-taken (Own At Granted Measured platform) before after x (rw from at h.sent) in
        rw⁻¹ e (record {
          ready = h.ready;
          sent = h.sent;
          orderly =
              receive-Orderly platform SentHere At GoodHere (Gives-Sound gives) ip port now il small
                stamp w.agent h.orderly x.bytes own.from
                (subst (λ d. At ip port d) (sym own.same_id) located);
        })
    Event-Inv {w} (consumes a served e) h = rw⁻¹ e (record {
      ready = h.ready;
      sent = h.sent;
      orderly = Served-Orderly platform SentHere At GoodHere (Gives-Sound gives) served h.orderly;
    })

    pub Run-Inv : {w w' : World platform} → Run At Granted Measured platform w w' → Inv w → Inv w'
    Run-Inv still h = h
    Run-Inv (then run event) h = Event-Inv event (Run-Inv run h)

    -- To the agent an event is one of its steps, or nothing.
    Event-Reach :
        {w w' : World platform} {a : Agent platform}
        → Inv w
        → Event At Granted Measured platform w w'
        → Reach platform SentHere a w.agent
        → Reach platform SentHere a w'.agent
    Event-Reach h (turns before after b n' sent taken turn e) reach = rw⁻¹ e reach
    Event-Reach {w} h (arrives ip port now before after x il small stamp from located e) reach =
        let (own, _) =
          All-taken (Own At Granted Measured platform) before after x (rw from at h.sent) in
        rw⁻¹ e (next reach (receives ip port now x.bytes il small stamp own.from refl))
    Event-Reach h (consumes a served e) reach = rw⁻¹ e (next reach (serves served))

    Run-Reach :
        {w w' : World platform}
        → Run At Granted Measured platform w w'
        → Inv w
        → Reach platform SentHere w.agent w'.agent
    Run-Reach still h = here
    Run-Reach (then run event) h = Event-Reach (Run-Inv run h) event (Run-Reach run h)

    -- From boards without a password, whose EEPROMs have room for one, and an agent with empty queues,
    -- whatever the network loses, repeats and reorders, in whatever order the consumers work and the
    -- boards take their turns: no consumer of the agent ever throws or waits on a message of its
    -- queue; what the agent has sent to an address is a newline, or a password and an id that
    -- Cumulocity gave the device there; so each board's token stays empty, a newline, or what
    -- Cumulocity gave this board, and never another's; and what Cumulocity keeps has every property
    -- that survives its calls, a post only of readings of the board in whose name it is, under its
    -- own token. An address is that of one device, and datagrams come from an address of their
    -- board. What Cumulocity gives is asked to be a password and an id, of one line each, of 20
    -- characters with the newline between them at most, without a NUL and neither of them empty; a
    -- board's id has no
    -- newline, is not empty and has at most 15 characters. A board's turns are rounds of `loop` that
    -- take in a datagram of the agent, which the modem delivers as a whole, or whose receiving leaves
    -- the board's id, token and EEPROM as they are, and time that does; at the end of a round its id
    -- is the same.
    pub Run-Safe :
        (I : platform.State → Type 0)
        → Kept platform SentHere I
        → {w w' : World platform} → Run At Granted Measured platform w w'
        → Start w
        → I w.agent.platform_state
        → Handles platform SentHere At GoodHere w'.agent
          × All (λ x. GoodHere x.ip_address x.port x.bytes) w'.agent.sent
          × All IsReady w'.boards
          × I w'.agent.platform_state
    Run-Safe I kept {w} {w'} run start i =
        let h = Run-Inv run (Start-Inv w start) in
        (
          Orderly-Handles platform SentHere At GoodHere (Gives-Sound gives) w'.agent h.orderly,
          h.orderly.answers,
          h.ready,
          Reach-posts platform SentHere I kept (Run-Reach run (Start-Inv w start))
              start.measurements i,
        )
