-- ===== src/PluginManager/Loading.antt =====
-- What `load` of plugin-manager.cpp adds to the plugins.
use stream_fdl.Prelude.{
  String, ◌≡◌, refl, ◌∙◌, inl, inr, Bool, true, not, ◌||◌, List, [], ◌∷◌, map, arith, str_eq,
  Bool-cases, Option-cases,
}
use stream_fdl.PluginManager.{
  Plugin, Plugins, PluginManager, DirectoryEntry, Loader, find_plugin, insert_or_assign, is_known,
  get_loaded, read_plugin, load,
}

abbrev names : Plugins → List String
names ps = map (λ e. e.0) ps

names-insert_or_assign :
    (name : String) (p : Plugin) (ps : Plugins)
    → is_known name ps ≡ true
    → names (insert_or_assign name p ps) ≡ names ps
unfolding insert_or_assign find_plugin
names-insert_or_assign name p [] h = ground arith
names-insert_or_assign name p ((n, q) ∷ ps) h = elim (Bool-cases (str_eq n name)) [
  | inl e ↦ ground arith
  | inr e ↦ ground (arith, names-insert_or_assign name p ps)
]

-- With `skipExisting`, and whether it throws or not, `load` leaves the names of the loaded plugins as
-- they are, whatever is in the directory: no plugin is loaded that was not loaded before.
pub load-names :
    (loader : Loader) (lazy : Bool) (es : List DirectoryEntry) (m : PluginManager)
    → get_loaded (load loader true lazy es m).0 ≡ get_loaded m
unfolding load get_loaded
load-names loader lazy [] m = refl
load-names loader lazy (e ∷ es) m =
    elim (Bool-cases (not e.is_regular_file || not (str_eq e.extension ".so"))) [
      | inl other ↦ rw other (load-names loader lazy es m)
      | inr library ↦ elim (Bool-cases (is_known e.stem m.loaded_plugins)) [
        | inr new ↦ rw (library, new) (load-names loader lazy es m)
        | inl old ↦ elim (Option-cases (read_plugin loader (loader.open_library e.path lazy))) [
          | inl missing ↦ rw (library, old, missing) refl
          | inr (p, found) ↦
              let m' = record m { loaded_plugins = insert_or_assign e.stem p m.loaded_plugins } in
              rw (library, old, found)
                (load-names loader lazy es m'
                  ∙ names-insert_or_assign e.stem p m.loaded_plugins old)
        ]
      ]
    ]
