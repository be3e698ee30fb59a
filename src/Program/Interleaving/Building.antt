-- ===== src/Program/Interleaving/Building.antt =====
-- The steady state, and what a round of dynamic-subgraph.cpp leaves of it.
use stream_fdl.Prelude.{
  ℕ, ◌≤◌, ◌<◌, ◌≡◌, ap, ◌∙◌, inl, inr, false, [], ◌∷◌, arith, ◌==◌, Bool-cases, length, any,
}
use stream_fdl.Prelude.Double.{Double}
use stream_fdl.Graph.Vertices.{IsDistinct}
use stream_fdl.DataStore.{Channel, DataStore}
use stream_fdl.DataStore.Live.{IsLive-same, HasSameMembers}
use stream_fdl.DataStore.Typed.{IsTyped}
use stream_fdl.FaultDetection.{MemberWindow}
use stream_fdl.FaultDetection.Ready.{Goes, outline}
use stream_fdl.FaultDetection.Ready.Windows.{AreWindows, AreWindows-Goes}
use stream_fdl.FaultDetection.Ready.Round.{IsReady}
use stream_fdl.DynamicSubgraph.Turn.{HaveMembers}
use stream_fdl.DynamicSubgraph.Same.{AreLive-same}
use stream_fdl.DynamicSubgraph.Growth.{Grown}
use stream_fdl.DynamicSubgraph.Turn.Steps.{IsIdle, HasSameSettings}
use stream_fdl.DynamicSubgraph.Turn.Ending.{Continued}
use stream_fdl.DynamicSubgraph.Turn.Round.{IsCalm}
use stream_fdl.Program.{System}
use stream_fdl.Program.Interleaving.{
  IsFree, IsFree-outlines, IsFree-empty, HasVertices, HasVertices-Reads, AreAlerts-Delivery,
  AreAlerts-any, IsFree-AreExpandable,
}

module _ (d : Double) (ch : Channel d.Value) (rounds : ℕ) where
  open d use {Value, lt}

  -- The state between the turns.
  pub record IsSteady (s : System d) : Type 0 where
    pub ready : IsReady d ch s.builder.fault_detection s.builder.watchlist s.store
    pub positive : 0 < s.builder.blindspot_interval
    pub inside : s.builder.last_nr_alerts.current ≤ length s.builder.last_nr_alerts.buffer
    pub vertices : HasVertices s.store s.builder.sag.vertices
    pub distinct : IsDistinct s.builder.sag.vertices
    pub free : IsFree s.store s.builder.watchlist.members

  AreWindows-HaveMembers :
      (ds : DataStore Value) (windows : MemberWindow d)
      → AreWindows d ch ds windows
      → HaveMembers d ds windows
  AreWindows-HaveMembers ds [] are = tt
  AreWindows-HaveMembers ds (e ∷ windows) ((live, usable), are) =
      (live, AreWindows-HaveMembers ds windows are)

  pub IsSteady-IsCalm :
      (cpu : Value) (s : System d)
      → lt cpu s.builder.maximum_cpu_utilisation ≡ false
      → IsSteady s
      → IsCalm d ch rounds cpu s.builder s.store
  IsSteady-IsCalm cpu s busy steady =
      let (ms, reads) = HasVertices-Reads s.store s.builder.sag.vertices steady.vertices in
      record {
        not_due = ground arith;
        positive = steady.positive;
        inside = steady.inside;
        watched = steady.ready.watched;
        windows =
            AreWindows-HaveMembers s.store s.builder.fault_detection.moving_window
              steady.ready.windows;
        alerts = AreAlerts-Delivery s.store s.builder.fault_detection.alerts steady.ready.alerts;
        members = ms;
        vertices = reads;
        distinct = steady.distinct;
        expandable =
            IsFree-AreExpandable d ch rounds s.builder.watchlist s.store steady.ready.watched
              s.builder.fault_detection.alerts steady.free steady.ready.alerts;
      }

  pub Idle-IsSteady :
      (s s' : System d)
      → IsSteady s
      → IsTyped ch s'.store
      → HasSameSettings d ch rounds s.builder s'.builder
      → s'.builder.last_nr_alerts.current ≤ length s'.builder.last_nr_alerts.buffer
      → IsIdle d ch rounds s'.builder
      → IsSteady s'
  Idle-IsSteady s s' steady typed (interval, cpu, threshold, sized, named) inside
        (going, watched, windows, alerts, vertices) =
      record {
        ready = record {
          typed = typed;
          named = named ∙ steady.ready.named;
          single = rw watched tt;
          watched = rw watched tt;
          windows = rw windows tt;
          alerts = rw alerts tt;
          roomy = rw sized steady.ready.roomy;
        };
        positive = rw interval steady.positive;
        inside = inside;
        vertices = rw vertices (λ q inside. cc);
        distinct = rw vertices tt;
        free = rw watched (IsFree-empty s'.store);
      }

  Grown-HasVertices :
      (s s' : System d)
      → IsSteady s
      → HasSameMembers s.store s'.store
      → Grown d ch rounds s.builder.watchlist s.builder.fault_detection.alerts s.builder.sag
          s'.builder.sag
      → HasVertices s'.store s'.builder.sag.vertices
  Grown-HasVertices s s' steady same (distinct, grown) q inside =
      IsLive-same s.store s'.store q same
        (elim (Bool-cases (any (λ a. a.member == q) s.builder.fault_detection.alerts)) [
          | inl alerted ↦
              AreAlerts-any s.store s.builder.fault_detection.alerts q steady.ready.alerts alerted
          | inr other ↦ steady.vertices q (ground (arith, grown q))
        ])

  pub Continued-IsSteady :
      (s s' : System d) (mean : Value)
      → IsSteady s
      → IsTyped ch s'.store
      → HasSameMembers s.store s'.store
      → HasSameSettings d ch rounds s.builder s'.builder
      → s'.builder.last_nr_alerts.current ≤ length s'.builder.last_nr_alerts.buffer
      → Continued d ch rounds s.builder s'.builder mean
      → IsSteady s'
  Continued-IsSteady s s' mean steady typed same (interval, cpu, threshold, sized, named) inside
        (going, watchlist, faults, (distinct, grown)) =
      let goes : Goes ch s.store s'.store =
        (typed, (λ q. IsLive-same s.store s'.store q same), λ q. ap outline (same q)) in
      record {
        ready = record {
          typed = typed;
          named = named ∙ steady.ready.named;
          single = rw watchlist steady.ready.single;
          watched =
              rw watchlist (
                AreLive-same s.store s'.store s.builder.watchlist.members same
                  steady.ready.watched);
          windows = rw faults (
              AreWindows-Goes d ch s.store s'.store s.builder.fault_detection.moving_window goes
                steady.ready.windows);
          alerts = rw faults tt;
          roomy = rw sized steady.ready.roomy;
        };
        positive = rw interval steady.positive;
        inside = inside;
        vertices = Grown-HasVertices s s' steady same (distinct, grown);
        distinct = distinct;
        free =
            rw watchlist
              (IsFree-outlines s.store s'.store s.builder.watchlist.members goes.2 steady.free);
      }
