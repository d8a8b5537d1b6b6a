-- ===== src/Worker/Parsed/Tests.antt =====
-- Tests of Parsed.antt.
use launce.Base.{ℕ, ◌≡◌, inr, refl, false, Option, none, some, [], ◌∷◌}
use launce.Worker.Wire.{Bytes, Error, plain}
use launce.Worker.Parsed.{ParsedFields, ParsedOptions, decode_msgpack, options}

abbrev zero_fields : ParsedFields ℕ
zero_fields = record {
  locustfile = "";
  config = "";
  host = "";
  num_users = none;
  spawn_rate = none;
  hatch_rate = 0;
  run_time = none;
  list_commands = false;
  config_users = none;
  web_host = "";
  web_host_display_name = "";
  web_port = 0;
  headless = false;
  autostart = false;
  autoquit = 0;
  headful = false;
  web_auth = none;
  web_login = false;
  tls_cert = "";
  tls_key = "";
  class_picker = false;
  build_path = "";
  legacy_ui = false;
  web_base_path = "";
  master = false;
  master_bind_host = "";
  master_bind_port = 0;
  expect_workers = 0;
  expect_workers_max_wait = 0;
  enable_rebalancing = false;
  expect_slaves = false;
  worker = false;
  processes = none;
  slave = false;
  master_host = "";
  master_port = 0;
  tags = none;
  exclude_tags = none;
  csv_prefix = none;
  stats_history_enabled = false;
  print_stats = false;
  only_summary = false;
  reset_stats = false;
  html_file = none;
  json = false;
  json_file = none;
  skip_log_setup = false;
  loglevel = "";
  logfile = none;
  show_task_ratio = false;
  show_task_ratio_json = false;
  exit_code_on_error = 0;
  stop_timeout = 0;
  equal_weights = false;
  profile = none;
  otel = false;
  user_classes = [];
}

abbrev zero_options : ParsedOptions ℕ
zero_options = record { fields = zero_fields; raw = [] }

-- A decoder that fails on no bytes, and reads one tag in all others.
abbrev unmarshal : ParsedFields ℕ → Bytes → Option Error × ParsedFields ℕ
unmarshal p [] = (some (plain "EOF"), p)
unmarshal p (b ∷ bs) = (none, record p { tags = some ("api" ∷ []) })

-- A value that takes the bytes as they are.
abbrev unmarshal_value : Bytes → Bytes → Option Error × Bytes
unmarshal_value v b = (none, b)

fails_test : decode_msgpack unmarshal zero_options (inr []) ≡ (some (plain "EOF"), zero_options)
unfolding decode_msgpack
fails_test = refl

kept : ParsedOptions ℕ
unfolding decode_msgpack
kept = (decode_msgpack unmarshal zero_options (inr (7 ∷ []))).1

-- The bytes are kept for `Options`.
options_test :
    (kept.fields.tags ≡ some ("api" ∷ []))
    × (options unmarshal_value (some kept) [] ≡ (none, 7 ∷ []))
unfolding kept decode_msgpack options
options_test = (refl, refl)
