-- ===== src/Config/MemberSamples.antt =====
-- A group and a service that are named, what they are in a small configuration, and the theorem on it.
use edward.Base.{◌≡◌, refl, some, List, [], ◌∷◌, ok, err, map}
use edward.Base.Text.{Text, codes}
use edward.Groups.{Member}
use edward.Config.Shared.{ServiceOrGroup, get_service_or_group, get_services_or_groups}
use edward.Config.Trees.{services_at, group_trees, tree_of}
use edward.Config.Members.{member_of, members_of, member_name, get_services_or_groups-members}
use edward.Config.Samples.{slash_paths, sample, loaded, init_maps-sample, backwards, program}

abbrev asked : List Text
asked = codes "all" ∷ codes "a" ∷ []

abbrev found : List ServiceOrGroup
found =
    elim (get_services_or_groups backwards
      (record {
        base_path = codes "/work";
        group_map = loaded.group_map;
        service_map = loaded.service_map;
      })
      asked) [ ok sgs ↦ sgs | err e ↦ [] ]

trees : Unit {0}
unfolding program get_services_or_groups get_service_or_group services_at group_trees tree_of
    member_of members_of edward.Services.matches
trees = tt

get_services_or_groups-members_example :
    (ms : List Member) × (members_of loaded.service_map loaded.group_map found ≡ some ms)
    × (map member_name ms ≡ codes "all" ∷ codes "api" ∷ [])
unfolding trees
get_services_or_groups-members_example =
    get_services_or_groups-members slash_paths (codes "linux") sample loaded init_maps-sample
      backwards (codes "/work") asked refl
