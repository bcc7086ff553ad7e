-- ===== src/Driver/Run.antt =====
-- The driver of src/driver/tp_driver.c as a whole: `tp_driver_init`, the handlers that
-- `tp_driver_on_control_fragment` calls, and `tp_driver_do_work` (less the polling of the control
-- stream, whose fragments are the events here, and the supervisor, which has a state of its own).
use tensor_pool_c.Common.{ℕ, ◌&&◌, List, [], ◌∷◌, ◌++◌, map, ltb, leb, ◌==◌, if◌then◌else◌}
use tensor_pool_c.Common.Words.{add64, mul64}
use tensor_pool_c.Driver.State.{Config, Stream, StreamDef, Driver, Env, Message, announce}
use tensor_pool_c.Driver.Attach.{AttachRequest, Outcome, attach}
use tensor_pool_c.Driver.Leases.{DetachRequest, Keepalive, detach, keepalive, handle_expired_leases}

unfoldable pub init_stream : Config → StreamDef → Stream
init_stream config def = record {
  stream_id = def.stream_id;
  profile = def.profile;
  epoch = 0;
  epoch_created_ns = 0;
  producer_lease_id = 0;
  producer_client_id = 0;
  require_hugepages = config.require_hugepages;
}

-- `tp_driver_init` on a loaded configuration, where memory for the streams is given.
unfoldable pub init : Config → Driver
unfolding init_stream
init config = record {
  config = record config {
    announce_period_ms = if config.announce_period_ms == 0 then 1000 else config.announce_period_ms;
  };
  streams = map (init_stream config) config.streams;
  leases = [];
  lease_capacity = 0;
  lease_counter = 0;
  next_announce_ns = 0;
  cooldowns = [];
  cooldown_capacity = 0;
}

unfoldable pub announcements : List Stream → List Message
announcements [] = []
announcements (s ∷ streams) =
    if s.epoch == 0
    then announcements streams
    else announce s.stream_id s.producer_client_id s.epoch ∷ announcements streams

-- The periodic part of `tp_driver_do_work`; `check_ns` is its reading of the clock.
unfoldable pub announce_due : Env → Driver → Outcome
announce_due env d =
    if ltb 0 period_ns && leb d.next_announce_ns env.check_ns
    then (record d { next_announce_ns = add64 env.check_ns period_ns }, announcements d.streams)
    else (d, [])
  where
    period_ns : ℕ
    period_ns = mul64 d.config.announce_period_ms 1000000

unfoldable pub do_work : Env → Driver → Outcome
do_work env d =
    let swept = handle_expired_leases env d in
    let done = announce_due env swept.0 in (done.0, swept.1 ++ done.1)

-- What reaches the driver, each with what the outside world answers to it.
pub data Event : Type 0 where
  attach_request : Env → AttachRequest → Event
  detach_request : Env → DetachRequest → Event
  lease_keepalive : Env → Keepalive → Event
  work : Env → Event

unfoldable pub step : Driver → Event → Outcome
step d (attach_request env req) = attach env req d
step d (detach_request env req) = detach env req d
step d (lease_keepalive env req) = (keepalive env req d, [])
step d (work env) = do_work env d

unfoldable pub run : Driver → List Event → Driver
unfolding step
run d [] = d
run d (e ∷ events) = run (step d e).0 events
