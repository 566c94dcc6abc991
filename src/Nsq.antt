-- ===== src/Nsq.antt =====
-- The package nsq: a producer, and consumers that call a handler for each message.
pub mod Delivery
pub mod Tests
use go_cook.Shared.{
  ℕ, String, Option, none, some, List, [], ◌∷◌, ◌<>◌, Error, wrap, Result, ok, err, Action, pure,
  Call, panics, returns, ◌>>=◌, ◌>>◌, wrapping, to_result,
}
use go_cook.Shared.Int.{ℤ, pos, duration, second}

-- `NSQConfig`
pub record NsqConfig : Type 0 where
  pub nsqd_host : String
  pub nsqd_tcp_port : String
  pub lookupd_http_port : String
  pub max_in_flight : ℤ
  pub concurrent_consumer : ℤ
  pub read_timeout : ℤ
  pub write_timeout : ℤ
  pub heartbeat_interval : ℤ
  pub backoff_multiplier : ℤ
  pub max_backoff_duration : ℤ

-- The fields of `nsq.Config` that the package sets; durations in nanoseconds.
pub record Settings : Type 0 where
  pub max_in_flight : ℤ
  pub read_timeout : ℤ
  pub write_timeout : ℤ
  pub heartbeat_interval : ℤ
  pub backoff_multiplier : ℤ
  pub max_backoff_duration : ℤ

-- The context of a handler: a value under a key, and the time until it ends by itself.
pub record Context : Type 0 where
  pub key : String
  pub value : String
  pub timeout : ℤ

-- What the package calls of go-nsq, and `cancel` of a context, after which nobody waits for it. A
-- message handler gets the body and answers with an error, which would send the message back to the
-- queue, or panics. go-nsq runs as many handlers at a time as it is told with them, and sends a message
-- back whose handler takes longer than the message timeout of nsqd: neither is said of it here.
pub record Library : Type 1 where
  pub World : Type 0
  pub Producer : Type 0
  pub Consumer : Type 0
  pub new_producer : String → Settings → World → Result Producer × World
  pub ping : Producer → World → Option Error × World
  pub publish : Producer → String → String → World → Option Error × World
  pub new_consumer : String → String → Settings → World → Result Consumer × World
  pub add_handlers : Consumer → (String → World → Call (Option Error) × World) → ℤ → World → World
  pub connect : Consumer → String → World → Option Error × World
  pub cancel : Context → World → World

module _ (lib : Library) where
  open lib use {World, Producer, Consumer}

  -- `nsqClient`
  pub record NsqClient : Type 0 where
    pub producer : Producer
    pub config : NsqConfig
    pub settings : Settings
    pub lookupd : String
    pub concurrent_consumer : ℤ

  unfoldable pub settings_of : NsqConfig → Settings
  settings_of cfg = record {
    max_in_flight = cfg.max_in_flight;
    read_timeout = duration cfg.read_timeout second;
    write_timeout = duration cfg.write_timeout second;
    heartbeat_interval = duration cfg.heartbeat_interval second;
    backoff_multiplier = duration cfg.backoff_multiplier second;
    max_backoff_duration = duration cfg.max_backoff_duration second;
  }

  abbrev pub nsqd_address : NsqConfig → String
  nsqd_address cfg = cfg.nsqd_host <> ":" <> cfg.nsqd_tcp_port

  abbrev call : (World → Option Error × World) → Action World (Unit {0})
  call f world = let (e, world') = f world in (to_result e, world')

  -- `NewNsqClient`
  unfoldable pub new_nsq_client : NsqConfig → Action World NsqClient
  new_nsq_client cfg = do
    producer ←
        wrapping "failed to create NSQ producer: "
          (lib.new_producer (nsqd_address cfg) (settings_of cfg))
    wrapping ("nsqd unreachable at " <> nsqd_address cfg <> ": ") (call (lib.ping producer))
    pure (record {
      producer = producer;
      config = cfg;
      settings = settings_of cfg;
      lookupd = cfg.nsqd_host <> ":" <> cfg.lookupd_http_port;
      concurrent_consumer = cfg.concurrent_consumer;
    })

  -- `Publish`
  pub publish : NsqClient → String → String → Action World (Unit {0})
  publish n topic body = call (lib.publish n.producer topic body)

  -- The context that a message is handled under: the body under the topic, for 30 seconds.
  abbrev pub message_context : String → String → Context
  message_context topic body = record {
    key = topic;
    value = body;
    timeout = duration (pos 30) second;
  }

  -- An application's function for messages, which may panic; the other handlers that run meanwhile
  -- are among what changes the world.
  abbrev pub Handler : Type 0
  Handler = Context → String → World → Call (Unit {0}) × World

  -- `return nil`, where nothing has panicked
  abbrev pub acknowledge : Call (Unit {0}) → Call (Option Error)
  acknowledge panics = panics
  acknowledge (returns _) = returns none

  -- The handler that `RegisterConsumer` adds. The deferred cancel also runs where the application's
  -- function panics, which nothing recovers; where it returns, so does the inner function, with nil.
  unfoldable pub handle_message : String → Handler → String → World → Call (Option Error) × World
  handle_message topic handler body world =
      let ctx = message_context topic body in
      let (x, world') = handler ctx body world in (acknowledge x, lib.cancel ctx world')

  -- `RegisterConsumer`
  unfoldable pub register_consumer : NsqClient → String → String → Handler → Action World (Unit {0})
  unfolding handle_message
  register_consumer n topic channel handler = do
    consumer ←
        wrapping "failed to create NSQ consumer: " (lib.new_consumer topic channel n.settings)
    (λ world. (
      ok tt,
      lib.add_handlers consumer (handle_message topic handler) n.concurrent_consumer world,
    ))
    wrapping "failed to connect to nsqd: " (call (lib.connect consumer (nsqd_address n.config)))
