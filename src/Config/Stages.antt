-- ===== src/Config/Stages.antt =====
-- What a successful `initMaps` of config/config.go has gone through, pass by pass.
use edward.Base.{◌≡◌, [], ok, bind-ok, arith}
use edward.Base.Text.{Text}
use edward.Config.{Config, FilePath, ServicePass}
use edward.Config.Init.{
  GroupPass, add_services, add_groups, link_groups, refuse_orphans, init_maps, no_services,
  no_groups, group_defs, service_defs,
}

pub record Stages (fp : FilePath) (goos : Text) (c c' : Config) : Type 0 where
  pub serviced : ServicePass
  pub grouped : GroupPass
  pub linked : GroupPass
  pub services_added : add_services fp goos c no_services (service_defs c) ≡ ok serviced
  pub groups_added :
      add_groups fp c.working_dir serviced.skipped (no_groups serviced) (group_defs c) ≡ ok grouped
  pub linking : link_groups grouped (group_defs c) ≡ ok linked
  pub no_orphans : linked.orphans ≡ []
  pub result : c' ≡ record c { service_map = linked.svcs; group_map = linked.groups }

pub init_maps-Stages :
    (fp : FilePath) (goos : Text) (c c' : Config)
    → init_maps fp goos c ≡ ok c'
    → Stages fp goos c c'
unfolding init_maps refuse_orphans
init_maps-Stages fp goos c c' h =
    let (s, h0, r0) = bind-ok (add_services fp goos c no_services (service_defs c)) _ h in
    let (g, h1, r1) =
      bind-ok (add_groups fp c.working_dir s.skipped (no_groups s) (group_defs c)) _ r0 in
    let (l, h2, r2) = bind-ok (link_groups g (group_defs c)) _ r1 in
    record {
      serviced = s;
      grouped = g;
      linked = l;
      services_added = h0;
      groups_added = h1;
      linking = h2;
      no_orphans = ground arith;
      result = ground arith;
    }
