-- ===== src/PluginManager.antt =====
-- src/fault-detection/plugin-manager.{hpp,cpp}: the plugins that are loaded, and which of them are
-- initialised. The dynamic loader and the plugins' own functions are a parameter. The map is
-- unordered: the list stands for its order of iteration, whatever that is.
use stream_fdl.Prelude.{
  ℕ, ◌+◌, String, Bool, true, false, not, ◌&&◌, ◌||◌, Option, none, some, List, [], ◌∷◌, ◌++◌, map,
  str_eq, ◌==◌, if◌then◌else◌,
}
pub mod Loading
pub mod Status
pub mod Closing

pub record Plugin : Type 0 where
  pub handle : ℕ
  pub initialized : Bool
  -- Addresses of functions.
  pub initialize : ℕ
  pub execute : ℕ
  pub deinitialize : ℕ

abbrev pub Plugins : Type 0
Plugins = List (String × Plugin)

-- The calls of plugins' functions are kept, by address.
pub record PluginManager : Type 0 where
  pub loaded_plugins : Plugins
  pub calls : List ℕ

pub data PluginState : Type 0 where
  plugin_unknown plugin_loaded plugin_initialized : PluginState

-- An entry of the plugin directory.
pub record DirectoryEntry : Type 0 where
  pub is_regular_file : Bool
  pub extension : String
  pub stem : String
  pub path : String

-- `dlopen` and `dlsym`, 0 for null, and what a plugin's `initialize` answers after earlier calls.
pub record Loader : Type 0 where
  pub open_library : String → (lazy : Bool) → ℕ
  pub initialize_symbol : ℕ → ℕ
  pub execute_symbol : ℕ → ℕ
  pub deinitialize_symbol : ℕ → ℕ
  pub initialize_answer : List ℕ → ℕ → Bool

-- A call ends in a state, and says whether it threw a `DynamicLibraryError`.
abbrev pub Ended : Type 0
Ended = PluginManager × Bool

unfoldable pub find_plugin : String → Plugins → Option Plugin
find_plugin name [] = none
find_plugin name ((n, p) ∷ ps) = if str_eq n name then some p else find_plugin name ps

unfoldable pub insert_or_assign : String → Plugin → Plugins → Plugins
insert_or_assign name plugin [] = (name, plugin) ∷ []
insert_or_assign name plugin ((n, p) ∷ ps) =
    if str_eq n name then (n, plugin) ∷ ps else (n, p) ∷ insert_or_assign name plugin ps

abbrev pub is_known : String → Plugins → Bool
is_known name ps = elim (find_plugin name ps) [ none ↦ false | some p ↦ true ]

unfoldable pub get_status : String → PluginManager → PluginState
get_status name m = elim (find_plugin name m.loaded_plugins) [
  | none ↦ plugin_unknown
  | some p ↦ if not p.initialized then plugin_loaded else plugin_initialized
]

-- `getLoaded`.
unfoldable pub get_loaded : PluginManager → List String
get_loaded m = map (λ e. e.0) m.loaded_plugins

module _ (loader : Loader) where
  -- The symbols of an open library, where none is missing.
  unfoldable pub read_plugin : ℕ → Option Plugin
  read_plugin handle =
      if handle == 0
        || loader.initialize_symbol handle == 0
        || loader.execute_symbol handle == 0
        || loader.deinitialize_symbol handle == 0
      then none
      else some record {
        handle = handle;
        initialized = false;
        initialize = loader.initialize_symbol handle;
        execute = loader.execute_symbol handle;
        deinitialize = loader.deinitialize_symbol handle;
      }

  -- `load`, entry by entry.
  unfoldable pub load : (skip_existing lazy : Bool) → List DirectoryEntry → PluginManager → Ended
  load skip_existing lazy [] m = (m, false)
  load skip_existing lazy (e ∷ es) m =
      let rest = load skip_existing lazy es in
      if not e.is_regular_file || not (str_eq e.extension ".so")
      then rest m
      else (if skip_existing && not (is_known e.stem m.loaded_plugins)
          then rest m
          else (elim (read_plugin (loader.open_library e.path lazy)) [
            | none ↦ (m, true)
            | some p ↦
                rest (record m { loaded_plugins = insert_or_assign e.stem p m.loaded_plugins })
          ]))

  -- The loop of `initialize`: the plugins, the calls, and whether it threw.
  unfoldable pub initialize_loop :
      (skip_initialized : Bool) → Plugins → List ℕ → Plugins × List ℕ × Bool
  initialize_loop skip_initialized [] calls = ([], calls, false)
  initialize_loop skip_initialized ((n, p) ∷ ps) calls =
      let rest = initialize_loop skip_initialized ps in
      let after = calls ++ p.initialize ∷ [] in
      if skip_initialized && p.initialized
      then (let (ps', calls', thrown) = rest calls in ((n, p) ∷ ps', calls', thrown))
      else (if not (loader.initialize_answer calls p.initialize)
          then ((n, p) ∷ ps, after, true)
          else (let (ps', calls', thrown) = rest after in
              ((n, record p { initialized = true }) ∷ ps', calls', thrown)))

  unfoldable pub initialize_all : (skip_initialized : Bool) → PluginManager → Ended
  unfolding initialize_loop
  initialize_all skip_initialized m =
      let (ps, calls, thrown) = initialize_loop skip_initialized m.loaded_plugins m.calls in
      (record { loaded_plugins = ps; calls = calls }, thrown)

  -- `initialize(pluginName, …)`: an unknown name is thrown by `getPlugin`.
  unfoldable pub initialize_one : String → (skip_initialized : Bool) → PluginManager → Ended
  initialize_one name skip_initialized m = elim (find_plugin name m.loaded_plugins) [
    | none ↦ (m, true)
    | some p ↦
        if skip_initialized && p.initialized
        then (m, false)
        else (let called = record m { calls = m.calls ++ p.initialize ∷ [] } in
            if not (loader.initialize_answer m.calls p.initialize) then (called, true) else (
              record called {
                loaded_plugins =
                    insert_or_assign name (record p { initialized = true }) m.loaded_plugins;
              },
              false,
            ))
  ]

-- The loop of `deinitialize`.
unfoldable pub deinitialize_loop : (skip_deinitialized : Bool) → Plugins → List ℕ → Plugins × List ℕ
deinitialize_loop skip_deinitialized [] calls = ([], calls)
deinitialize_loop skip_deinitialized ((n, p) ∷ ps) calls =
    let rest = deinitialize_loop skip_deinitialized ps in
    if skip_deinitialized && not p.initialized
    then (let (ps', calls') = rest calls in ((n, p) ∷ ps', calls'))
    else (let (ps', calls') = rest (calls ++ p.deinitialize ∷ []) in
        ((n, record p { initialized = false }) ∷ ps', calls'))

unfoldable pub deinitialize_all : (skip_deinitialized : Bool) → PluginManager → PluginManager
unfolding deinitialize_loop
deinitialize_all skip_deinitialized m =
    let (ps, calls) = deinitialize_loop skip_deinitialized m.loaded_plugins m.calls in
    record { loaded_plugins = ps; calls = calls }

-- `deinitialize(pluginName, …)`.
unfoldable pub deinitialize_one : String → (skip_deinitialized : Bool) → PluginManager → Ended
deinitialize_one name skip_deinitialized m = elim (find_plugin name m.loaded_plugins) [
  | none ↦ (m, true)
  | some p ↦ if skip_deinitialized && not p.initialized then (m, false) else (
    record {
      loaded_plugins = insert_or_assign name (record p { initialized = false }) m.loaded_plugins;
      calls = m.calls ++ p.deinitialize ∷ [];
    },
    false,
  )
]
