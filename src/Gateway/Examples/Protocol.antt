-- ===== src/Gateway/Examples/Protocol.antt =====
-- The theorems on flags and on the protocol's base class (atgateway/session.h,
-- protocols/proto_base.cpp), applied to concrete values.
use atsf4g_co.Base.{pos, ◌≡◌, refl, true, List, [], ◌∷◌, if◌then◌else◌}
use atsf4g_co.Gateway.Proto.{Callbacks, create}
use atsf4g_co.Gateway.Proto.Lifecycle.{
  Call, start_write, writes_done, closes, handshakes_done, run, close_calls, done_calls,
  callbacks_once,
}

abbrev all_callbacks : Callbacks
all_callbacks = record {
  has_close_fn = true;
  close_fn = λ r. pos 0;
  has_handshake_done_fn = true;
  has_handshake_update_fn = true;
}

-- A handshake, an update that is not asked for, and two closes.
abbrev some_calls : List Call
some_calls =
    handshakes_done (pos 0)
    ∷ handshakes_done (pos 0)
    ∷ start_write
    ∷ closes 3
    ∷ closes 4
    ∷ writes_done (pos 0)
    ∷ []

callbacks_once_example :
    let p = run (create true all_callbacks) some_calls in
    (close_calls p.calls ≡ (if p.closing then 1 else 0))
    × (done_calls p.calls ≡ (if p.handshake_done then 1 else 0))
callbacks_once_example = callbacks_once all_callbacks some_calls refl refl
