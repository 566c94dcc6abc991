-- ===== src/Nsq/Tests.antt =====
-- The package nsq with one consumer.
use go_cook.Shared.{
  ◌≡◌, refl, ℕ, suc, String, String-discrete, if◌then◌else◌, ◌==◌, panics, returns, none, some, new,
  wrap, ok, err,
}
use go_cook.Shared.Int.{pos}
use go_cook.Nsq.{
  NsqConfig, Library, Handler, NsqClient, settings_of, handle_message, register_consumer,
}

-- A library whose world counts calls, and that connects to nothing.
abbrev lib : Library
lib = record {
  World = ℕ;
  Producer = String;
  Consumer = String;
  new_producer = λ address settings n. (ok address, n);
  ping = λ p n. (none, n);
  publish = λ p topic body n. (none, n);
  new_consumer = λ topic channel settings n. (ok topic, suc n);
  add_handlers = λ c handler count n. suc n;
  cancel = λ ctx n. n;
  connect = λ c address n. (some (new "refused"), n);
}

abbrev config : NsqConfig
config = record {
  nsqd_host = "localhost";
  nsqd_tcp_port = "4150";
  lookupd_http_port = "4161";
  max_in_flight = pos 10;
  concurrent_consumer = pos 2;
  read_timeout = pos 60;
  write_timeout = pos 10;
  heartbeat_interval = pos 30;
  backoff_multiplier = pos 1;
  max_backoff_duration = pos 120;
}

abbrev client : NsqClient lib
client = record {
  producer = "localhost:4150";
  config = config;
  settings = settings_of lib config;
  lookupd = "localhost:4161";
  concurrent_consumer = pos 2;
}

-- A function that panics on the body "bad".
abbrev picky : Handler lib
picky ctx body n = if body == "bad" then (panics, suc n) else (returns tt, suc n)

acknowledged : handle_message lib "orders" picky "good" 0 ≡ (returns none, 1)
unfolding handle_message String-discrete
acknowledged = refl

panicked : handle_message lib "orders" picky "bad" 0 ≡ (panics, 1)
unfolding handle_message String-discrete
panicked = refl

refused-registration :
    register_consumer lib client "orders" "mail" picky 0
    ≡ (err (wrap "failed to connect to nsqd: " (new "refused")), 2)
unfolding register_consumer
refused-registration = refl
