-- ===== src/Recovery/Resync.antt =====
-- Planning and recovery together (packages/vyne/src/vyne/reconcile.py and recovery.py): the snapshot
-- of a planned tree.
use vyne.Common.{subst, sym, Option, arith, none, ok, some, ℕ, ◌<◌, ◌∷◌, ◌≡◌, ◌≤◌, []}
use vyne.Common.Maps.{Distinct, Eq, lookup, nat_eq, string_eq}
use vyne.Common.Positions.{none_of}
use vyne.Reconcile.Diff.{plan_reconcile}
use vyne.Reconcile.Effects.{info}
use vyne.Reconcile.Model.{
  Element, Elements, Nodes, ReconcileResult, RenderNode, RenderSnapshot, clear, cons, element, nil,
  no_bindings, no_nodes, node, node_id, one_more,
}
use vyne.Reconcile.Mount.{plan_reconcile-mount}
use vyne.Reconcile.Native.{NativeModel, apply_op, apply_ops}
use vyne.Reconcile.Trees.{AllHaveDicts, HasDicts, Holds, HoldsAll, Matches, MatchesAll}
use vyne.Recovery.Placing.{AreBound}
use vyne.Recovery.Rebuild.{AllRenderable, IsRenderable, build_snapshot-Holds}
use vyne.Recovery.Snapshots.{build_snapshot}

module _ {K V : Type 0} ⦃k : Eq K⦄ ⦃v : Eq V⦄ (old : RenderSnapshot K V) where
  no_bindings-AreBound : AreBound no_bindings
  no_bindings-AreBound = (tt, λ event h. ground arith)

  mutual
    unfolding Holds Matches HasDicts IsRenderable

    -- A tree that was made for an element and stands in a model can be sent as a snapshot.
    Matches-IsRenderable :
        (t : RenderNode K V) (e : Element K V) (m : NativeModel V) (parent : Option ℕ) (above : ℕ)
        → Holds m parent t
        → Matches above t e
        → HasDicts e
        → IsRenderable t
    Matches-IsRenderable (node id kind key props b p x children) (element a kind' key' props' es) m
          parent above (here, i, e1, sp, e2, hr, ks, z, h) (q1, q2, q3, q4, q5, q6, hs) (d, ds) =
        (
          z,
          subst Distinct (sym q3) d,
          subst AreBound (sym q4) no_bindings-AreBound,
          MatchesAll-AllRenderable children es m id h hs ds,
        )

    MatchesAll-AllRenderable :
        (ts : Nodes K V) (es : Elements K V) (m : NativeModel V) (parent : ℕ)
        → HoldsAll m parent ts
        → MatchesAll parent ts es
        → AllHaveDicts es
        → AllRenderable ts
    MatchesAll-AllRenderable no_nodes nil m parent h q d = tt
    MatchesAll-AllRenderable no_nodes (cons e es) m parent h q d = tt
    MatchesAll-AllRenderable (one_more t ts) nil m parent h q d = absurd q
    MatchesAll-AllRenderable (one_more t ts) (cons e es) m parent (h, hs) (q, qs) (d, ds) = (
      Matches-IsRenderable t e m (some parent) parent h q d,
      MatchesAll-AllRenderable ts es m parent hs qs ds,
    )

  -- Whatever the native side shows: if clearing it succeeds and leaves no node with an id that the
  -- planner may hand out, the snapshot of a first plan's tree is taken in full, and the native side then
  -- shows exactly that tree, the one that was made for the element.
  pub build_snapshot-plan_reconcile :
      (fuel : ℕ) (desired : Element K V) (next : ℕ) (shown cleared : NativeModel V)
      → old.root ≡ none
      → ((j : ℕ) → next ≤ j → lookup j old.node_index ≡ none)
      → 0 < next
      → HasDicts desired
      → apply_op fuel (clear 0) shown ≡ ok cleared
      → ((j : ℕ) → next ≤ j → info cleared j ≡ none)
      → (result : ReconcileResult K V) × (t : RenderNode K V) × (m : NativeModel V)
        × (plan_reconcile old desired next ≡ ok result)
        × (result.new_snapshot.root ≡ some t)
        × (apply_ops fuel (build_snapshot t) shown ≡ ok m)
        × (m.root_children ≡ node_id t ∷ [])
        × Holds m (some 0) t
        × Matches 0 t desired
  build_snapshot-plan_reconcile fuel desired next shown cleared r f z d c free =
      let (result, t, m, plan, root, rev, ran, top, holds, matches, single, range) =
        plan_reconcile-mount old fuel desired next r f z d in
      let (m', sent, top', holds', rest) =
        build_snapshot-Holds fuel t shown cleared
          (Matches-IsRenderable t desired m (some 0) 0 holds matches d) single c
          (λ j q. free j (range j q)) (none_of _ (λ q. let l = range 0 q in omega arith)) in
      (result, t, m', plan, root, sent, top', holds', matches)
