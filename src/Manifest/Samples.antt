-- ===== src/Manifest/Samples.antt =====
-- A manifest to test with.
use kelso.Common.{true, false, none, some, List, [], ◌∷◌, Option, ℕ}
use kelso.Common.Text.{codes}
use kelso.Manifest.Entries.{Manifest, RunEntry, RouteEntry, normal, data_files, http, script}

abbrev web_route : RouteEntry
web_route = record { port = codes "8080:80"; private = false; scheme = http; desc = [] }

abbrev pub main_unit : RunEntry
main_unit = record {
  image = codes "shop:1";
  cmd = none;
  volumes = (codes "files", codes "/data") ∷ [];
  env = (codes "NAME", codes "${title} at ${routes.main}") ∷ [];
  routes = (codes "main", web_route) ∷ [];
  restart = true;
  shell = codes "/bin/sh" ∷ codes "-c" ∷ [];
  healthcheck = some (script (codes "true"));
  connections = [];
  compose = [];
}

abbrev pub shop : Manifest
shop = record {
  app = record {
    app_id = some (codes "shop");
    version = codes "1";
    network_mode = normal;
    display_name = [];
    description = [];
    author = [];
    url = [];
    main = codes "main";
  };
  run = (codes "main", main_unit) ∷ [];
  config =
      (codes "title", record { desc = []; default = some (codes "Shop"); secret = false }) ∷ [];
  adv_config = [];
  volumes =
      (codes "files", record { kind = data_files; src = none; desc = []; readonly = none }) ∷ [];
  commands = (codes "tidy", record { cmd = codes "tidy"; run_unit = codes "main"; desc = [] }) ∷ [];
  cron =
      (
        codes "nightly",
        record { schedule = codes "0 3 * * *"; command = codes "tidy"; args = codes "'all of it'" },
      )
      ∷ [];
  connections = [];
}

-- reads this manifest, whatever the bytes are
abbrev pub read_shop : List ℕ → Option Manifest
read_shop bytes = some shop
