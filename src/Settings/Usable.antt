-- ===== src/Settings/Usable.antt =====
-- What a configuration that `LoadConfig` accepts is good for.
use mathlib.Core.Path.{subst}
use pikawire.Prelude.{
  ◌+◌, ◌≡◌, refl, Bool, true, false, not, ◌||◌, Option, none, some, [], ◌∷◌, Bytes, codes, same,
  ◌==◌, ltb, if◌then◌else◌, Result, ok, err, panic, ◌>>◌, refuse, arith,
}
use pikawire.Sql.Rows.{is_empty}
use pikawire.Settings.{
  Config, ConfigError, PipelineConfig, KafkaSinkConfig, FileSinkConfig, SinkKind, a_doris_sink,
  a_sql_sink, a_kafka_sink, a_file_sink, count_of, sinks, check, check_pipeline, check_kafka,
  check_file, check_source, check_modes, check_count, check_sections, rooted, validate,
  apply_defaults, load_config, build_sink,
}

checked :
    {A : Type 0} (m : Result ConfigError (Unit {0})) (k : Result ConfigError A) (x : A)
    → (m >> k) ≡ ok x
    → (m ≡ ok tt) × (k ≡ ok x)
checked (ok tt) k x h = (refl, h)
checked (err e) k x h = absurd (cc h)
checked panic k x h = absurd (cc h)

unrefused : (b : Bool) (e : ConfigError) → refuse b e ≡ ok tt → b ≡ false
unrefused true e h = absurd (cc h)
unrefused false e h = refl

neither : (a b : Bool) → (a || b) ≡ false → (a ≡ false) × (b ≡ false)
neither a b h = (ground (arith, h), ground (arith, h))

-- The parts that the sink of a configuration needs.
abbrev pub HasParts : Option SinkKind → Type 0
HasParts none = ⊥
HasParts (some (a_doris_sink p)) = (is_empty p.rules ≡ false) × (is_empty p.fenodes ≡ false)
HasParts (some (a_sql_sink p)) = (is_empty p.rules ≡ false) × (is_empty p.dsn ≡ false)
HasParts (some (a_kafka_sink k)) = (is_empty k.brokers ≡ false) × (is_empty k.topic ≡ false)
HasParts (some (a_file_sink f)) = is_empty f.path ≡ false

HasParts-build_sink :
    (c : Config) → sinks c ≡ 1 → check_sections c ≡ ok tt → HasParts (build_sink c)
unfolding build_sink sinks check_sections check_pipeline check_kafka check_file
HasParts-build_sink c some_sink h =
    let (p, rest) = checked (check check_pipeline c.pipeline) _ tt h in
    let (k, f) = checked (check check_kafka c.kafka) _ tt rest in
    by_section c.pipeline c.kafka c.file some_sink p k f
  where
    kind : Option PipelineConfig → Option KafkaSinkConfig → Option FileSinkConfig → Option SinkKind
    kind p k f = elim p [
      | some p ↦ some (if same p.driver (codes "doris") then a_doris_sink p else a_sql_sink p)
      | none ↦ elim k [
        | some k ↦ some (a_kafka_sink k)
        | none ↦ elim f [ some f ↦ some (a_file_sink f) | none ↦ none ]
      ]
    ]

    by_driver :
        (p : PipelineConfig) (b : Bool)
        → is_empty p.rules ≡ false
        → (if b
            then refuse (is_empty p.fenodes) ConfigError.fenodes_required
            else refuse (is_empty p.dsn) ConfigError.dsn_required)
          ≡ ok tt
        → HasParts (some (if b then a_doris_sink p else a_sql_sink p))
    by_driver p true rules h = (rules, unrefused (is_empty p.fenodes) _ h)
    by_driver p false rules h = (rules, unrefused (is_empty p.dsn) _ h)

    by_section :
        (p : Option PipelineConfig) (k : Option KafkaSinkConfig) (f : Option FileSinkConfig)
        → count_of k + count_of f + count_of p ≡ 1
        → check check_pipeline p ≡ ok tt
        → check check_kafka k ≡ ok tt
        → check check_file f ≡ ok tt
        → HasParts (kind p k f)
    by_section (some p) k f one pc kc fc =
        let (named, rest) = checked (refuse (is_empty p.driver || is_empty p.rules) _) _ tt pc in
        let rules : is_empty p.rules ≡ false =
          (neither (is_empty p.driver) (is_empty p.rules) (unrefused _ _ named)).1 in
        by_driver p (same p.driver (codes "doris")) rules rest
    by_section none (some k) f one pc kc fc =
        neither (is_empty k.brokers) (is_empty k.topic) (unrefused _ _ kc)
    by_section none none (some f) one pc kc fc = unrefused (is_empty f.path) _ fc
    by_section none none none one pc kc fc = absurd (omega (arith, one))

sinks_one : (c : Config) → check_count c ≡ ok tt → sinks c ≡ 1
unfolding check_count
sinks_one c h =
    let (some_sink, rest) = checked (refuse (sinks c == 0) ConfigError.sink_required) _ tt h in
    let zero_not = unrefused (sinks c == 0) _ some_sink in
    let not_more = unrefused (ltb 1 (sinks c)) _ rest in ground (arith, zero_not, not_more)

host_named : (c : Config) → check_source c ≡ ok tt → is_empty c.source.host ≡ false
unfolding check_source
host_named c h = (neither (is_empty c.source.host) (c.source.port == 0) (unrefused _ _ h)).0

defaulted : (d s : Bytes) → is_empty d ≡ false → is_empty (if is_empty s then d else s) ≡ false
defaulted d [] h = h
defaulted d (x ∷ s) h = refl

rooted-HasParts :
    (c : Config)
    → sinks c ≡ 1
    → HasParts (build_sink c)
    → (is_empty (rooted c).dump_root ≡ false)
      × ((sinks (rooted c) ≡ 1) × HasParts (build_sink (rooted c)))
unfolding rooted sinks build_sink
rooted-HasParts c one h = (defaulted (codes "pikawire-dump") c.dump_root refl, (one, h))

kept_host : (c : Config) → is_empty c.source.host ≡ false → is_empty (rooted c).source.host ≡ false
unfolding rooted
kept_host c h = h

kept_checkpoint :
    (buffer_in : Bytes → Bytes) (c : Config)
    → is_empty (rooted (apply_defaults buffer_in c)).checkpoint ≡ false
unfolding rooted apply_defaults
kept_checkpoint buffer_in c = defaulted (codes "pikawire.checkpoint.json") c.checkpoint refl

-- A configuration that `LoadConfig` accepts names a host, a checkpoint file and a dump directory, has exactly one sink, and that
-- sink, which `buildSink` builds, has what it needs: rules and front ends or a data source, brokers and a topic, or a path.
pub load_config-HasParts :
    (buffer_in : Bytes → Bytes) (reader_available : Bool) (c c' : Config)
    → load_config buffer_in reader_available c ≡ ok c'
    → (is_empty c'.source.host ≡ false)
      × ((is_empty c'.checkpoint ≡ false)
          × ((is_empty c'.dump_root ≡ false) × ((sinks c' ≡ 1) × HasParts (build_sink c'))))
unfolding load_config validate
load_config-HasParts buffer_in reader_available c c' h =
    let d = apply_defaults buffer_in c in
    let (source, h₁) = checked (check_source d) _ c' h in
    let (modes, h₂) = checked (check_modes d) _ c' h₁ in
    let (reader, h₃) = checked (refuse (not reader_available) ConfigError.no_reader) _ c' h₂ in
    let (one, h₄) = checked (check_count d) _ c' h₃ in
    let (sections, h₅) = checked (check_sections d) _ c' h₄ in
    let made : rooted d ≡ c' = ground (arith, h₅) in
    subst Usable made (usable c (host_named d source) (sinks_one d one) sections)
  where
    Usable : Config → Type 0
    Usable c =
        (is_empty c.source.host ≡ false)
        × ((is_empty c.checkpoint ≡ false)
            × ((is_empty c.dump_root ≡ false) × ((sinks c ≡ 1) × HasParts (build_sink c))))

    usable :
        (c : Config)
        → is_empty (apply_defaults buffer_in c).source.host ≡ false
        → sinks (apply_defaults buffer_in c) ≡ 1
        → check_sections (apply_defaults buffer_in c) ≡ ok tt
        → Usable (rooted (apply_defaults buffer_in c))
    usable c host one sections =
        let d = apply_defaults buffer_in c in
        (
          kept_host d host,
          (kept_checkpoint buffer_in c, rooted-HasParts d one (HasParts-build_sink d one sections)),
        )
