-- ===== src/PluginManager/Closing.antt =====
-- The destructor of plugin-manager.cpp.
use stream_fdl.Prelude.{
  ℕ, ◌≡◌, refl, ◌∙◌, Bool, true, false, not, ◌&&◌, List, [], ◌∷◌, ◌++◌, arith, ◌==◌, if◌then◌else◌,
}
use mathlib.Core.List.{append-nil, append_assoc}
use stream_fdl.PluginManager.{Plugins, PluginManager, Loader, initialize_loop, initialize_all}

-- What the destructor does, in order.
pub data Event : Type 0 where
  -- A plugin's function is called.
  called : ℕ → Event
  -- A library is closed by `dlclose`.
  closed : ℕ → Event

-- The loop: the events, and those before them.
destroy_loop : Plugins → (events : List Event) → List Event
destroy_loop [] events = events
destroy_loop ((n, p) ∷ ps) events =
    if p.handle == 0
    then destroy_loop ps events
    else destroy_loop ps (
        (if p.initialized then events ++ called p.deinitialize ∷ [] else events)
        ++ closed p.handle ∷ [])

-- `~PluginManager`.
unfoldable pub destroy : PluginManager → List Event
unfolding destroy_loop
destroy m = destroy_loop m.loaded_plugins []

-- For each plugin, its function is called and then its library closed.
abbrev pub closings : Plugins → List Event
closings [] = []
closings ((n, p) ∷ ps) = called p.deinitialize ∷ closed p.handle ∷ closings ps

-- Every plugin has an open library.
abbrev pub are_open : Plugins → Bool
are_open [] = true
are_open ((n, p) ∷ ps) = not (p.handle == 0) && are_open ps

abbrev are_ready : Plugins → Bool
are_ready [] = true
are_ready ((n, p) ∷ ps) = (not (p.handle == 0) && p.initialized) && are_ready ps

destroy_loop-are_ready :
    (ps : Plugins) (events : List Event)
    → are_ready ps ≡ true
    → destroy_loop ps events ≡ events ++ closings ps
unfolding destroy_loop
destroy_loop-are_ready [] events ready = rw (append-nil events)
destroy_loop-are_ready ((n, p) ∷ ps) events ready =
    let opened : (p.handle == 0) ≡ false = ground arith in
    let done : p.initialized ≡ true = ground arith in
    let rest : are_ready ps ≡ true = ground arith in
    rw (
      opened,
      done,
      destroy_loop-are_ready ps ((events ++ called p.deinitialize ∷ []) ++ closed p.handle ∷ [])
          rest,
      append_assoc,
      append_assoc,
    )

module _ (loader : Loader) (skip_initialized : Bool) where
  initialize_loop-are_ready :
      (ps : Plugins) (calls : List ℕ)
      → are_open ps ≡ true
      → (initialize_loop loader skip_initialized ps calls).2 ≡ false
      → are_ready (initialize_loop loader skip_initialized ps calls).0 ≡ true
  unfolding initialize_loop
  initialize_loop-are_ready [] calls opened h = refl
  initialize_loop-are_ready ((n, p) ∷ ps) calls opened h =
      let rest = initialize_loop-are_ready ps calls in
      let rest' = initialize_loop-are_ready ps (calls ++ p.initialize ∷ []) in
      ground (arith, rest, rest')

  initialize_loop-closings :
      (ps : Plugins) (calls : List ℕ)
      → closings (initialize_loop loader skip_initialized ps calls).0 ≡ closings ps
  unfolding initialize_loop
  initialize_loop-closings [] calls = refl
  initialize_loop-closings ((n, p) ∷ ps) calls =
      let rest = initialize_loop-closings ps calls in
      let rest' = initialize_loop-closings ps (calls ++ p.initialize ∷ []) in
      ground (arith, rest, rest')

  -- Where every plugin has an open library and `initialize` for all plugins does not throw, the
  -- destructor goes through the plugins in their order, and for each of them calls `deinitialize` once
  -- and then closes its library once, before it turns to the next, and does nothing else.
  pub initialize_all-destroy :
      (m : PluginManager)
      → are_open m.loaded_plugins ≡ true
      → (initialize_all loader skip_initialized m).1 ≡ false
      → destroy (initialize_all loader skip_initialized m).0 ≡ closings m.loaded_plugins
  unfolding initialize_all destroy
  initialize_all-destroy m opened h =
      let ps = m.loaded_plugins in
      destroy_loop-are_ready (initialize_loop loader skip_initialized ps m.calls).0 []
        (initialize_loop-are_ready ps m.calls opened h)
      ∙ initialize_loop-closings ps m.calls
