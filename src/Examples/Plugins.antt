-- ===== src/Examples/Plugins.antt =====
-- Plugins at concrete inputs.
use stream_fdl.Prelude.{◌+◌, String, ◌≡◌, refl, true, false, [], ◌∷◌}
use stream_fdl.PluginManager.{
  Plugin, PluginManager, DirectoryEntry, Loader, get_loaded, load, initialize_loop, initialize_all,
}
use stream_fdl.PluginManager.Loading.{load-names}
use stream_fdl.PluginManager.Closing.{called, closed, destroy, initialize_all-destroy}

abbrev loader : Loader
loader = record {
  open_library = λ path lazy. 9;
  initialize_symbol = λ h. h + 1;
  execute_symbol = λ h. h + 2;
  deinitialize_symbol = λ h. h + 3;
  initialize_answer = λ calls f. true;
}

abbrev mean_plugin : Plugin
mean_plugin = record {
  handle = 5;
  initialized = false;
  initialize = 6;
  execute = 7;
  deinitialize = 8;
}

abbrev manager : PluginManager
manager = record { loaded_plugins = ("mean", mean_plugin) ∷ []; calls = [] }

abbrev library : String → DirectoryEntry
library name = record { is_regular_file = true; extension = ".so"; stem = name; path = name }

load-names_example :
    get_loaded (load loader true true (library "mean" ∷ library "peak" ∷ []) manager).0
    ≡ "mean" ∷ []
unfolding get_loaded
load-names_example = load-names loader true (library "mean" ∷ library "peak" ∷ []) manager

-- Two plugins with open libraries.
abbrev two_plugins : PluginManager
two_plugins = record {
  loaded_plugins =
      ("mean", mean_plugin) ∷ ("peak", record mean_plugin { handle = 4; deinitialize = 3 }) ∷ [];
  calls = [];
}

initialize_all-destroy_example :
    destroy (initialize_all loader true two_plugins).0
    ≡ called 8 ∷ closed 5 ∷ called 3 ∷ closed 4 ∷ []
unfolding initialize_all initialize_loop
initialize_all-destroy_example = initialize_all-destroy loader true two_plugins refl refl
