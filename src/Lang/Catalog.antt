-- ===== src/Lang/Catalog.antt =====
-- `default_command_catalog` of prayer-lang/src/catalog.rs. No name is inserted twice, so that the map is
-- the list of the insertions.
use prayer_rs.Prelude.{String, Bool, true, false, List, [], ◌∷◌, ◌++◌}
use prayer_rs.Prelude.Assoc.{Assoc}
use prayer_rs.Lang.Analysis.Nodes.{ArgType, ArgSpec, CommandSpec}

abbrev pub command : String → List ArgSpec → String × CommandSpec
command name args = (name, record { name = name; args = args })

abbrev pub arg : String → ArgType → Bool → ArgSpec
arg name kind required = record { name = name; kind = kind; required = required; variadic = false }

abbrev pub variadic_arg : String → ArgType → ArgSpec
variadic_arg name kind = record { name = name; kind = kind; required = false; variadic = true }

-- `(0..20).map(|_| arg("clause", ArgType::Any, false))`
abbrev clause : ArgSpec
clause = arg "clause" ArgType.any false

abbrev trade_clause_args : List ArgSpec
trade_clause_args =
    clause ∷ clause ∷ clause ∷ clause ∷ clause ∷ clause ∷ clause ∷ clause ∷ clause ∷ clause ∷ clause
    ∷ clause ∷ clause ∷ clause ∷ clause ∷ clause ∷ clause ∷ clause ∷ clause ∷ clause ∷ []

unfoldable pub simple_commands : Assoc String CommandSpec
simple_commands =
    command "cloak" (arg "mode" ArgType.any false ∷ [])
    ∷ command "hunt" (arg "target" ArgType.any true ∷ [])
    ∷ command "prepay_tax" (arg "quantity" ArgType.integer true ∷ [])
    ∷ command "cancel_craft_job" (arg "job_id" ArgType.any true ∷ [])
    ∷ command "refit_ship" []
    ∷ command "cancel_commission" (arg "commission_id" ArgType.any true ∷ [])
    ∷ command "cancel_ship_listing" (arg "listing_id" ArgType.listing_id true ∷ [])
    ∷ command "place_ship_buy_order"
        (arg "ship_class" ArgType.any true ∷ arg "price" ArgType.integer true ∷ [])
    ∷ command "cancel_ship_buy_order" (arg "order_id" ArgType.any true ∷ [])
    ∷ command "sell_ship_to_order"
        (arg "order_id" ArgType.any true ∷ arg "ship_id" ArgType.ship_id true ∷ [])
    ∷ command "release_wreck" []
    ∷ command "insure_ship" (arg "ticks" ArgType.integer true ∷ [])
    ∷ command "citizenship_apply" (arg "empire_id" ArgType.any true ∷ [])
    ∷ command "citizenship_withdraw" (arg "empire_id" ArgType.any true ∷ [])
    ∷ command "citizenship_renounce" (arg "empire_id" ArgType.any true ∷ [])
    ∷ command "trade_accept" (arg "trade_id" ArgType.any true ∷ [])
    ∷ command "faction_leave" []
    ∷ command "faction_withdraw_invite" (arg "player" ArgType.any true ∷ [])
    ∷ command "faction_propose_ally" (arg "faction" ArgType.any true ∷ [])
    ∷ command "faction_accept_ally" (arg "faction" ArgType.any true ∷ [])
    ∷ command "faction_remove_ally" (arg "faction" ArgType.any true ∷ [])
    ∷ command "faction_declare_war"
        (arg "faction" ArgType.any true ∷ arg "reason" ArgType.any false ∷ [])
    ∷ command "faction_propose_peace"
        (arg "faction" ArgType.any true ∷ arg "message" ArgType.any false ∷ [])
    ∷ command "faction_accept_peace" (arg "faction" ArgType.any true ∷ [])
    ∷ command "faction_set_enemy" (arg "faction" ArgType.any true ∷ [])
    ∷ command "faction_remove_enemy" (arg "faction" ArgType.any true ∷ [])
    ∷ command "faction_prepay_tax" (arg "quantity" ArgType.integer true ∷ [])
    ∷ command "faction_cancel_mission" (arg "mission_id" ArgType.mission_id true ∷ [])
    ∷ command "espionage" []
    ∷ command "scan_poi" (arg "poi_id" ArgType.poi_id true ∷ [])
    ∷ []

unfoldable pub mission_commands : Assoc String CommandSpec
mission_commands =
    command "supply_commission" (
      arg "commission_id" ArgType.any true
      ∷ arg "item" ArgType.item_id true
      ∷ arg "quantity" ArgType.integer true
      ∷ [])
    ∷ command "trade_offer" (arg "target" ArgType.any true ∷ trade_clause_args)
    ∷ command "mine" (arg "resource" ArgType.item_id false ∷ [])
    ∷ command "survey" []
    ∷ command "attack" (arg "target_id" ArgType.any true ∷ [])
    ∷ command "scan" (arg "target" ArgType.any false ∷ [])
    ∷ command "find" (variadic_arg "target" ArgType.any ∷ [])
    ∷ command "go" (arg "destination" ArgType.go_target true ∷ [])
    ∷ command "accept_mission" (arg "mission_id" ArgType.mission_id true ∷ [])
    ∷ command "abandon_mission" (arg "mission_id" ArgType.mission_id true ∷ [])
    ∷ command "decline_mission" (arg "template_id" ArgType.mission_id true ∷ [])
    ∷ command "complete_mission" (arg "mission_id" ArgType.mission_id true ∷ [])
    ∷ command "dock" []
    ∷ command "undock" []
    ∷ command "set_home" []
    ∷ command "repair" (
        arg "target" ArgType.any false
        ∷ arg "item" ArgType.item_id false
        ∷ arg "quantity" ArgType.integer false
        ∷ [])
    ∷ command "repair_module" (arg "module" ArgType.module_id true ∷ [])
    ∷ command "recycle"
        (arg "recipe" ArgType.recipe_id true ∷ arg "quantity" ArgType.integer false ∷ [])
    ∷ command "refuel" (arg "target" ArgType.any false ∷ arg "quantity" ArgType.integer false ∷ [])
    ∷ command "self_destruct" []
    ∷ []

unfoldable pub station_commands : Assoc String CommandSpec
station_commands =
    command "load_passenger" (arg "destination" ArgType.poi_id true ∷ [])
    ∷ command "unload_passenger" (arg "name" ArgType.any true ∷ arg "target" ArgType.any false ∷ [])
    ∷ command "sell" (
        arg "item" ArgType.item_id false
        ∷ arg "quantity" ArgType.integer false
        ∷ arg "min_price" ArgType.integer false
        ∷ arg "mode" ArgType.any false
        ∷ [])
    ∷ command "buy" (
        arg "item" ArgType.item_id true
        ∷ arg "quantity" ArgType.integer true
        ∷ arg "max_price" ArgType.integer false
        ∷ arg "mode" ArgType.any false
        ∷ [])
    ∷ command "cancel_buy" (arg "item" ArgType.item_id true ∷ [])
    ∷ command "cancel_sell" (arg "item" ArgType.item_id true ∷ [])
    ∷ command "faction_create" (arg "name" ArgType.any true ∷ arg "tag" ArgType.any true ∷ [])
    ∷ command "faction_invite" (arg "player" ArgType.any true ∷ [])
    ∷ command "faction_accept_invite" (arg "faction" ArgType.any true ∷ [])
    ∷ command "faction_kick" (arg "player" ArgType.any true ∷ [])
    ∷ command "faction_set_role" (arg "player" ArgType.any true ∷ arg "role" ArgType.any true ∷ [])
    ∷ command "found_station"
        (arg "name" ArgType.any true ∷ arg "public_access" ArgType.any true ∷ [])
    ∷ command "facility_build" (arg "facility_type" ArgType.any true ∷ [])
    ∷ command "faction_facility_build" (arg "facility_type" ArgType.any true ∷ [])
    ∷ command "facility_upgrade"
        (arg "facility_id" ArgType.any true ∷ arg "facility_type" ArgType.any true ∷ [])
    ∷ command "faction_facility_upgrade"
        (arg "facility_id" ArgType.any true ∷ arg "facility_type" ArgType.any true ∷ [])
    ∷ command "facility_dismantle" (arg "facility_id" ArgType.any true ∷ [])
    ∷ command "faction_facility_dismantle" (arg "facility_id" ArgType.any true ∷ [])
    ∷ command "facility_set_access"
        (arg "facility_id" ArgType.any true ∷ arg "access" ArgType.any true ∷ [])
    ∷ command "facility_set_output_price" (
        arg "facility_id" ArgType.any true
        ∷ arg "item_id" ArgType.item_id true
        ∷ arg "price" ArgType.integer true
        ∷ [])
    ∷ []

unfoldable pub ship_commands : Assoc String CommandSpec
ship_commands =
    command "facility_set_name"
      (arg "facility_id" ArgType.any true ∷ arg "custom_name" ArgType.any true ∷ [])
    ∷ command "use_item"
        (arg "item_id" ArgType.item_id true ∷ arg "quantity" ArgType.integer false ∷ [])
    ∷ command "switch_ship" (arg "ship" ArgType.ship_id true ∷ [])
    ∷ command "rename_ship" (arg "name" ArgType.any true ∷ [])
    ∷ command "install_mod" (arg "mod" ArgType.module_id true ∷ [])
    ∷ command "uninstall_mod" (arg "mod" ArgType.module_id true ∷ [])
    ∷ command "buy_ship" (arg "listing" ArgType.listing_id true ∷ [])
    ∷ command "buy_listed_ship" (arg "listing" ArgType.listing_id true ∷ [])
    ∷ command "commission_ship"
        (arg "ship_class" ArgType.any true ∷ arg "materials" ArgType.any false ∷ [])
    ∷ command "sell_ship" (arg "ship" ArgType.ship_id true ∷ [])
    ∷ command "scrap_ship" (arg "ship" ArgType.ship_id true ∷ [])
    ∷ command "list_ship_for_sale"
        (arg "ship" ArgType.ship_id true ∷ arg "price" ArgType.integer true ∷ [])
    ∷ command "cancel_order" (arg "order_id" ArgType.any true ∷ [])
    ∷ command "modify_order"
        (arg "order_id" ArgType.any true ∷ arg "price_each" ArgType.integer true ∷ [])
    ∷ command "craft"
        (arg "recipe_id" ArgType.recipe_id true ∷ arg "count" ArgType.integer false ∷ [])
    ∷ command "salvage_wreck" (arg "wreck_id" ArgType.any true ∷ [])
    ∷ command "tow_wreck" (arg "wreck_id" ArgType.any true ∷ [])
    ∷ command "scrap_wreck" []
    ∷ command "sell_wreck" []
    ∷ command "distress_signal" (arg "distress_type" ArgType.any false ∷ [])
    ∷ command "say" (
        arg "content" ArgType.any true
        ∷ arg "channel" ArgType.any true
        ∷ arg "target" ArgType.any false
        ∷ [])
    ∷ []

unfoldable pub default_command_catalog : Assoc String CommandSpec
unfolding simple_commands mission_commands station_commands ship_commands
default_command_catalog =
    simple_commands ++ (mission_commands ++ (station_commands ++ ship_commands))
