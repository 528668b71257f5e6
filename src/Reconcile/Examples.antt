-- ===== src/Reconcile/Examples.antt =====
-- Runs of the planner (packages/vyne/src/vyne/reconcile.py) on a column with two texts.
use vyne.Common.{
  ℕ, String, none, some, List, [], ◌∷◌, ◌++◌, Result, ok, raise, insert_at, remove_at, key_error,
  ◌≡◌, ◌≢◌, ◌≤◌, refl, arith,
}
use vyne.Common.Ints
use vyne.Common.Ints.{pos}
use vyne.Common.Maps.{lookup, insert, delete, nat_eq, string_eq}
use vyne.Common.Positions.{NoRepeat, position}
use vyne.Reconcile.Model.{
  Element, element, nil, cons, RenderNode, node_id, RenderSnapshot, ReconcileResult, Op, create,
  set_prop, insert_child, move_child, remove_child, remove,
}
use vyne.Reconcile.Shadow
use vyne.Reconcile.Shadow.{ParentShadow, shadow_of}
use vyne.Reconcile.Shadow.Edits.{edit_all, edit_all-index_of, insertion, moving, removal}
use vyne.Reconcile.Shadow.Indexing.{
  IsIndexed, shadow_of-IsIndexed, insert_child-IsIndexed, remove-IsIndexed, move-IsIndexed,
}
use vyne.Reconcile.Planner
use vyne.Reconcile.Planner.{Planner, create_subtree, subtree_ids}
use vyne.Reconcile.Diff
use vyne.Reconcile.Diff.{plan_reconcile}
use vyne.Reconcile.Native
use vyne.Reconcile.Native.{NativeModel, empty, apply_ops}
use vyne.Reconcile.Effects.{kids}
use vyne.Reconcile.Trees.{Holds, Matches, HasDicts}
use vyne.Reconcile.Create.{Creates}
use vyne.Reconcile.Created.{create_subtree-Creates}
use vyne.Reconcile.Mount.{planner, start-Sim, plan_reconcile-mount}

abbrev title : Element String ℕ
title = element 2 "Text" (some "title") (("size", 12) ∷ ("bold", 1) ∷ []) nil

abbrev body : Element String ℕ
body = element 3 "Text" (some "body") [] nil

abbrev column : Element String ℕ
column = element 1 "Column" none (("gap", 4) ∷ []) (cons title (cons body nil))

abbrev nothing : RenderSnapshot String ℕ
nothing = record { root = none; node_index = []; revision = pos 0 }

column-HasDicts : HasDicts column
unfolding HasDicts lookup
column-HasDicts = ((refl, tt), (((refl, (refl, tt)), tt), ((tt, tt), tt)))

plan_reconcile-mount_example :
    (result : ReconcileResult String ℕ) × (t : RenderNode String ℕ) × (m : NativeModel ℕ)
    × (plan_reconcile nothing column 1 ≡ ok result)
    × (result.new_snapshot.root ≡ some t)
    × (result.new_snapshot.revision ≡ Ints.add_one (pos 0))
    × (apply_ops 0 result.ops empty ≡ ok m)
    × (m.root_children ≡ node_id t ∷ [])
    × Holds m (some 0) t
    × Matches 0 t column
    × NoRepeat (subtree_ids t)
    × ((j : ℕ) → position j (subtree_ids t) ≢ none → 1 ≤ j)
unfolding lookup
plan_reconcile-mount_example =
    plan_reconcile-mount nothing 0 column 1 refl (λ j h. refl) (omega arith) column-HasDicts

create_subtree-Creates_example :
    (t : RenderNode String ℕ) × (p : Planner String ℕ) × (m : NativeModel ℕ) × (create_subtree
        nothing column 7
        (planner nothing 1)
      ≡ ok (t, p))
    × Creates nothing 0 empty (planner nothing 1) empty column 7 t p m
unfolding lookup
create_subtree-Creates_example =
    create_subtree-Creates nothing 0 empty column (planner nothing 1) empty 7 column-HasDicts
      (start-Sim nothing 0 1 refl (λ j h. refl) (omega arith))

-- Three children under the parent 9.
abbrev shadow : ParentShadow
shadow = shadow_of 9 (4 ∷ 5 ∷ 6 ∷ [])

shadow-IsIndexed : IsIndexed shadow
shadow-IsIndexed = shadow_of-IsIndexed 9 (4 ∷ 5 ∷ 6 ∷ []) (refl, (refl, (refl, tt)))

edit_all-index_of_example :
    (s : ParentShadow) × (edit_all (insertion 8 1 ∷ moving 6 0 ∷ removal 4 ∷ []) shadow ≡ ok s)
    × (s.children ≡ 6 ∷ 8 ∷ 5 ∷ [])
    × ((c : ℕ)
        → Shadow.index_of c s
          ≡ elim (position c (6 ∷ 8 ∷ 5 ∷ [])) [ none ↦ raise key_error | some k ↦ ok k ])
edit_all-index_of_example =
    edit_all-index_of (insertion 8 1 ∷ moving 6 0 ∷ removal 4 ∷ []) 9 (4 ∷ 5 ∷ 6 ∷ [])
      (6 ∷ 8 ∷ 5 ∷ []) (refl, (refl, (refl, tt))) refl

insert_child-IsIndexed_example : IsIndexed (Shadow.insert_child 8 1 shadow)
unfolding shadow_of
insert_child-IsIndexed_example =
    insert_child-IsIndexed shadow 8 1 shadow-IsIndexed (omega arith) refl

remove-IsIndexed_example :
    (s : ParentShadow) × (Shadow.remove 5 shadow ≡ ok s)
    × (s.children ≡ remove_at 1 shadow.children)
    × IsIndexed s
unfolding shadow_of
remove-IsIndexed_example = remove-IsIndexed shadow 5 1 shadow-IsIndexed refl

move-IsIndexed_example :
    (s : ParentShadow) × (Shadow.move 6 2 0 shadow ≡ ok s)
    × (s.children ≡ insert_at 0 6 (remove_at 2 shadow.children))
    × IsIndexed s
unfolding shadow_of
move-IsIndexed_example = move-IsIndexed shadow 6 2 0 shadow-IsIndexed refl (omega arith)

-- The body moves to the front, a new text follows it, the title goes, and the gap changes.
abbrev footer : Element String ℕ
footer = element 5 "Text" (some "footer") [] nil

abbrev next_column : Element String ℕ
next_column = element 4 "Column" none (("gap", 8) ∷ []) (cons body (cons footer nil))

abbrev two_plans : Result (ReconcileResult String ℕ) → Result (List (Op ℕ) × Result (List ℕ))
two_plans (raise e) = raise e
two_plans (ok first) = elim (plan_reconcile first.new_snapshot next_column 4) [
  | raise e ↦ raise e
  | ok second ↦ ok (
    second.ops,
    elim (apply_ops 9 (first.ops ++ second.ops) empty) [ raise e ↦ raise e | ok m ↦ ok (kids m 1) ],
  )
]

second_plan :
    two_plans (plan_reconcile nothing column 1)
    ≡ ok (
      set_prop 1 "gap" 8
          ∷ move_child 1 3 0
          ∷ create 4 "Text"
          ∷ insert_child 1 4 1
          ∷ remove_child 1 2
          ∷ remove 2
          ∷ [],
      ok (3 ∷ 4 ∷ []),
    )
unfolding plan_reconcile Diff.plan_root Diff.insert_new create_subtree Planner.allocate_node_id
    Planner.shadow_for lookup insert Planner.shadow_insert Diff.diff_node Diff.reusable
    Diff.same_identity Diff.diff_props Diff.match_old_child Diff.keyed_from Diff.place_child
    Planner.shadow_index Shadow.index_of Ints.add_one delete Diff.match_keyed Diff.match_unkeyed
    Diff.remove_missing Diff.remove_unmatched Diff.replace_node Diff.set_changed Planner.drop_all
    Planner.initial_shadow Planner.remove_subtree Planner.shadow_move Planner.shadow_remove
    Planner.subtree_ids Shadow.enumerate_from Shadow.insert_child Shadow.move Shadow.reindex
    Shadow.reindex_range Shadow.remove shadow_of apply_ops Native.apply_op empty
second_plan = refl
