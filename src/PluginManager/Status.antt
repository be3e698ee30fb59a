-- ===== src/PluginManager/Status.antt =====
-- The states of the plugins after `initialize` and `deinitialize` of plugin-manager.cpp.
use stream_fdl.Prelude.{ℕ, String, ◌≡◌, refl, Bool, true, false, List, [], ◌∷◌, ◌++◌, arith}
use stream_fdl.PluginManager.{
  Plugins, PluginManager, PluginState, plugin_unknown, plugin_loaded, plugin_initialized, Loader,
  find_plugin, is_known, get_status, initialize_loop, initialize_all, deinitialize_loop,
  deinitialize_all,
}

-- The state of a plugin, where it is known.
abbrev pub state_if : Bool → PluginState → PluginState
state_if true s = s
state_if false s = plugin_unknown

state_of : String → Plugins → PluginState
state_of name ps = get_status name record { loaded_plugins = ps; calls = [] }

initialize_loop-state :
    (loader : Loader) (skip : Bool) (name : String) (ps : Plugins) (calls : List ℕ)
    → (initialize_loop loader skip ps calls).2 ≡ false
    → state_of name (initialize_loop loader skip ps calls).0
      ≡ state_if (is_known name ps) plugin_initialized
unfolding initialize_loop get_status find_plugin state_of
initialize_loop-state loader skip name [] calls h = refl
initialize_loop-state loader skip name ((n, p) ∷ ps) calls h =
    let rest = initialize_loop-state loader skip name ps calls in
    let rest' = initialize_loop-state loader skip name ps (calls ++ p.initialize ∷ []) in
    ground (arith, rest, rest')

deinitialize_loop-state :
    (skip : Bool) (name : String) (ps : Plugins) (calls : List ℕ)
    → state_of name (deinitialize_loop skip ps calls).0 ≡ state_if (is_known name ps) plugin_loaded
unfolding deinitialize_loop get_status find_plugin state_of
deinitialize_loop-state skip name [] calls = refl
deinitialize_loop-state skip name ((n, p) ∷ ps) calls =
    let rest = deinitialize_loop-state skip name ps calls in
    let rest' = deinitialize_loop-state skip name ps (calls ++ p.deinitialize ∷ []) in
    ground (arith, rest, rest')

-- Where `initialize` for all plugins does not throw, every plugin that is known is then initialised,
-- whether initialised plugins are skipped or not, and no other plugin is known.
pub initialize_all-get_status :
    (loader : Loader) (skip : Bool) (name : String) (m : PluginManager)
    → (initialize_all loader skip m).1 ≡ false
    → get_status name (initialize_all loader skip m).0
      ≡ state_if (is_known name m.loaded_plugins) plugin_initialized
unfolding initialize_all get_status state_of
initialize_all-get_status loader skip name m h =
    initialize_loop-state loader skip name m.loaded_plugins m.calls h

-- After `deinitialize` for all plugins, every plugin that is known is loaded and not initialised,
-- whether plugins that are not initialised are skipped or not, and no other plugin is known.
pub deinitialize_all-get_status :
    (skip : Bool) (name : String) (m : PluginManager)
    → get_status name (deinitialize_all skip m)
      ≡ state_if (is_known name m.loaded_plugins) plugin_loaded
unfolding deinitialize_all get_status state_of
deinitialize_all-get_status skip name m = deinitialize_loop-state skip name m.loaded_plugins m.calls
