-- ===== src/Config/Valid.antt =====
-- What a configuration that is loaded promises to the rest of kelso.
use kelso.Common.{
  Bool, true, false, not, ◌||◌, Option, none, some, List, [], ◌∷◌, map, keep, if◌then◌else◌, ◌==◌,
  eq_nat, eq_list, ◌≡◌, refl, subst, All, Bool-cases, inl, inr, ◌⊎◌, ==_sym,
}
use kelso.Common.Result.{Result, ok, err}
use kelso.Common.Text.{Text, is_empty}
use kelso.Common.Dict.{Dict, get, has, keys}
use kelso.Common.Sort.{gather, when, append_nil, when_nil, gather_nil, All-map, sorted_nil}
use kelso.Names.Defs.{is_identifier}
use kelso.Repos.Read.{ok_injects}
use kelso.Config.Providers.{none_tag}
use kelso.Config.File.{
  RouteProviderEntry, HostVolumeEntry, ConfigError, reserved_tag, bad_schedule, bad_provider_tag,
  bad_volume_tag, unknown_default, is_noop, check_schedule, proxying, need_address, check_default,
  validate_config,
}
use kelso.Config.Load.{
  Config, unreadable, Document, builtin, config_of, when_valid, load_config_file, host_volume_of,
}
use kelso.Layout.Machine.{HostVolume}

-- the schedule parses
abbrev pub Runs : Option Text → Type 0
Runs none = Unit
Runs (some schedule) =
    (parsed : kelso.Cron.Schedule.CronSchedule) × (kelso.Cron.Schedule.parse schedule ≡ ok parsed)

pub record IsConfig (config : Config) : Type 0 where
  -- the provider `none` is the one that is built in, and the default is one that is configured
  pub none_there : get config.route_providers none_tag ≡ some builtin
  pub default_there : has config.route_providers config.default_route_provider ≡ true
  pub provider_tags :
      All (λ (item : Text × RouteProviderEntry). is_identifier item.0 ≡ true) config.route_providers
  pub volume_tags :
      All (λ (item : Text × HostVolume). is_identifier item.0 ≡ true) config.host_volumes
  -- without an address, no traffic is sent on
  pub addressed :
      (is_empty config.kelso_address ≡ false)
      ⊎ All
          (λ (item : Text × RouteProviderEntry). is_noop (item.1).kind ≡ true)
          config.route_providers
  pub scheduled : Runs (config.backup).schedule

schedule_lem : (schedule : Option Text) → check_schedule schedule ≡ [] → Runs schedule
unfolding check_schedule
schedule_lem none h = tt
schedule_lem (some schedule) h = runs (kelso.Cron.Schedule.parse schedule) refl h
  where
    runs :
        (r : Result kelso.Cron.Field.Error kelso.Cron.Schedule.CronSchedule)
        → kelso.Cron.Schedule.parse schedule ≡ r
        → elim r [ err e ↦ bad_schedule ∷ [] | ok parsed ↦ [] ] ≡ []
        → Runs (some schedule)
    runs (err e) same n = cc n
    runs (ok parsed) same n = (parsed, same)

tags_lem :
    {V : Type 0} (error : Text → ConfigError) (d : Dict Text V)
    → gather (λ (item : Text × V). when (not (is_identifier item.0)) (error item.0)) d ≡ []
    → All (λ (item : Text × V). is_identifier item.0 ≡ true) d
tags_lem error d h =
    All-map d (λ item none_wrong. identifier (is_identifier item.0) (when_nil _ _ none_wrong))
      (gather_nil _ d h)
  where
    identifier : (b : Bool) → not b ≡ false → b ≡ true
    identifier true n = refl
    identifier false n = cc n

noop_lem :
    (providers : Dict Text RouteProviderEntry)
    → keys (keep (λ (item : Text × RouteProviderEntry). not (is_noop (item.1).kind)) providers) ≡ []
    → All (λ (item : Text × RouteProviderEntry). is_noop (item.1).kind ≡ true) providers
unfolding keys
noop_lem [] h = tt
noop_lem ((tag, entry) ∷ providers) h = elim (Bool-cases (is_noop entry.kind)) [
  | inl idle ↦ (idle, noop_lem providers (rw idle at h))
  | inr busy ↦
      let k : tag
            ∷ keys
                (keep (λ (item : Text × RouteProviderEntry). not (is_noop (item.1).kind)) providers)
          ≡ [] =
        rw busy at h in
      cc k
]

address_lem :
    (address : Text) (providers : Dict Text RouteProviderEntry)
    → (if is_empty address then need_address (proxying providers) else []) ≡ []
    → (is_empty address ≡ false)
      ⊎ All (λ (item : Text × RouteProviderEntry). is_noop (item.1).kind ≡ true) providers
unfolding proxying
address_lem [] providers h = inr (noop_lem providers (sorted_nil _ (no_tag _ h)))
  where
    no_tag : (tags : List Text) → need_address tags ≡ [] → tags ≡ []
    no_tag [] n = refl
    no_tag (tag ∷ tags) n = cc n
address_lem (c ∷ s) providers h = inl refl

default_lem :
    (providers : Dict Text RouteProviderEntry) (default : Text)
    → check_default providers default ≡ []
    → has ((none_tag, builtin) ∷ providers) default ≡ true
unfolding check_default has get
default_lem providers [] h = cc h
default_lem providers (c ∷ s) h = known (none_tag == (c ∷ s)) (get providers (c ∷ s)) (
    subst (λ (b : Bool). when (not (b || has providers (c ∷ s))) (unknown_default (c ∷ s)) ≡ [])
      (==_sym (c ∷ s) none_tag) h)
  where
    known :
        (b : Bool) (o : Option RouteProviderEntry)
        → when (not (b || elim o [ none ↦ false | some v ↦ true ])) (unknown_default (c ∷ s)) ≡ []
        → elim (if b then some builtin else o) [ none ↦ false | some v ↦ true ] ≡ true
    known true o n = refl
    known false none n = cc n
    known false (some v) n = refl

volumes_lem :
    (expand : Text → Text) (master_key : Text) (d : Dict Text HostVolumeEntry)
    → All (λ (item : Text × HostVolumeEntry). is_identifier item.0 ≡ true) d
    → All
        (λ (item : Text × HostVolume). is_identifier item.0 ≡ true)
        (map (host_volume_of expand master_key) d)
unfolding host_volume_of
volumes_lem expand master_key [] h = tt
volumes_lem expand master_key ((tag, entry) ∷ d) h = (h.0, volumes_lem expand master_key d h.1)

document_lem :
    (expand : Text → Text) (master_key : Text) (document : Document)
    → validate_config document.0 ≡ []
    → IsConfig (config_of expand master_key document)
unfolding validate_config config_of is_identifier host_volume_of
document_lem expand master_key (parsed, table) h =
    let a = append_nil (when (has parsed.route_provider none_tag) reserved_tag) _ h in
    let b = append_nil (check_schedule (parsed.backup).schedule) _ a.1 in
    let c = append_nil (gather _ parsed.route_provider) _ b.1 in
    let d =
      append_nil
        (if is_empty parsed.kelso_address
          then need_address (proxying parsed.route_provider)
          else [])
        _ c.1 in
    let e = append_nil (gather _ parsed.host_volume) _ d.1 in
    record {
      none_there = refl;
      default_there = default_lem parsed.route_provider parsed.default_route_provider e.1;
      provider_tags = (refl, tags_lem bad_provider_tag parsed.route_provider c.0);
      volume_tags =
          volumes_lem expand master_key parsed.host_volume
            (tags_lem bad_volume_tag parsed.host_volume e.0);
      addressed = elim (address_lem parsed.kelso_address parsed.route_provider d.0) [
        | inl given ↦ inl given
        | inr idle ↦ inr (refl, idle)
      ];
      scheduled = schedule_lem (parsed.backup).schedule b.0;
    }

-- A configuration that is loaded has a route provider for its default, the built-in `none` among them,
-- tags that are identifiers, a schedule of backups that parses where it has one, and an address to
-- point traffic at where a provider sends some on.
pub load_config_file-IsConfig :
    (expand : Text → Text) (master_key : Text) (read : Text → Option Document) (content : Text)
    (config : Config)
    → load_config_file expand master_key read content ≡ ok config
    → IsConfig config
unfolding load_config_file
load_config_file-IsConfig expand master_key read content config h = of_document (read content) h
  where
    checked :
        (document : Document) (errors : List ConfigError)
        → validate_config document.0 ≡ errors
        → when_valid expand master_key errors (config_of expand master_key document) ≡ ok config
        → IsConfig config
    checked document [] same k =
        subst IsConfig (ok_injects _ config k) (document_lem expand master_key document same)
    checked document (e ∷ errors) same k = cc k

    of_document :
        (o : Option Document)
        → elim o [
          | none ↦ err unreadable
          | some document ↦
              when_valid expand master_key
                (validate_config document.0)
                (config_of expand master_key document)
        ]
          ≡ ok config
        → IsConfig config
    of_document none k = cc k
    of_document (some document) k = checked document (validate_config document.0) refl k
