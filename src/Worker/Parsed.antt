-- ===== src/Worker/Parsed.antt =====
-- parsed_options.go and worker.go: the command line options of the master as they reach the users of a
-- worker. What msgpack makes of bytes is an argument; integers are bit patterns, and a float64 is a value of
-- an abstract type.
mod Tests
use launce.Base.{ℕ, Bool, ◌⊎◌, inl, inr, Option, none, some, List, String}
use launce.Worker.Wire.{Bytes, Error}

-- `ParsedOptions` without its field `raw`, with the names that the fields have in messages.
pub record ParsedFields {ℓ} (F : Type ℓ) : Type ℓ where
  pub locustfile : String
  pub config : String
  pub host : String
  pub num_users : Option ℕ
  pub spawn_rate : Option F
  pub hatch_rate : ℕ
  pub run_time : Option ℕ
  pub list_commands : Bool
  pub config_users : Option (List String)
  pub web_host : String
  pub web_host_display_name : String
  pub web_port : ℕ
  pub headless : Bool
  pub autostart : Bool
  pub autoquit : ℕ
  pub headful : Bool
  pub web_auth : Option String
  pub web_login : Bool
  pub tls_cert : String
  pub tls_key : String
  pub class_picker : Bool
  pub build_path : String
  pub legacy_ui : Bool
  pub web_base_path : String
  pub master : Bool
  pub master_bind_host : String
  pub master_bind_port : ℕ
  pub expect_workers : ℕ
  pub expect_workers_max_wait : ℕ
  pub enable_rebalancing : Bool
  pub expect_slaves : Bool
  pub worker : Bool
  pub processes : Option ℕ
  pub slave : Bool
  pub master_host : String
  pub master_port : ℕ
  pub tags : Option (List String)
  pub exclude_tags : Option (List String)
  pub csv_prefix : Option String
  pub stats_history_enabled : Bool
  pub print_stats : Bool
  pub only_summary : Bool
  pub reset_stats : Bool
  pub html_file : Option String
  pub json : Bool
  pub json_file : Option String
  pub skip_log_setup : Bool
  pub loglevel : String
  pub logfile : Option String
  pub show_task_ratio : Bool
  pub show_task_ratio_json : Bool
  pub exit_code_on_error : ℕ
  pub stop_timeout : ℕ
  pub equal_weights : Bool
  pub profile : Option String
  pub otel : Bool
  pub user_classes : List String

-- `ParsedOptions`.
pub record ParsedOptions {ℓ} (F : Type ℓ) : Type ℓ where
  pub fields : ParsedFields F
  pub raw : Bytes

module _ {ℓ} {F : Type ℓ}
    (unmarshal : ParsedFields F → Bytes → (Option Error × ParsedFields F)) where
  -- `DecodeMsgpack`, where `raw` is what `DecodeRaw` gives. `msgpack.Unmarshal` writes the fields in place,
  -- also where it fails.
  unfoldable pub decode_msgpack : ParsedOptions F → Error ⊎ Bytes → (Option Error × ParsedOptions F)
  decode_msgpack p raw = elim raw [
    | inl e ↦ (some e, p)
    | inr b ↦
        let (err, fields) = unmarshal p.fields b in
        elim err [
          | some e ↦ (some e, record p { fields = fields })
          | none ↦ (none, record { fields = fields; raw = b })
        ]
  ]

module _ {ℓ κ} {F : Type ℓ} {V : Type κ} (unmarshal : V → Bytes → (Option Error × V)) where
  -- `Extract` into a value.
  unfoldable pub extract : ParsedOptions F → V → (Option Error × V)
  extract p v = unmarshal v p.raw

  -- `Options` of a worker, of the pointer that it keeps.
  unfoldable pub options : Option (ParsedOptions F) → V → (Option Error × V)
  unfolding extract
  options p v = elim p [ some o ↦ extract o v | none ↦ (none, v) ]
