-- ===== src/Scheduler/Commands/Lifecycle.antt =====
-- One commit through the coordinator (packages/vyne/src/vyne/scheduler.py): stage, reserve, the
-- receipts that arrive while `send` runs, finish, and the acknowledgement or the rejection.
use vyne.Common.Ints
use vyne.Common.{
  Bool, Bool-cases, List, Option, Result, [], arith, false, if◌then◌else◌, inl, inr, none, not, ok,
  refl, some, true, ℕ, ◌&&◌, ◌>>=◌, ◌||◌, ◌∷◌, ◌≡◌,
}
use vyne.Common.Ints.{negsuc, pos, ℤ}
use vyne.Scheduler.Commands.Safety.{IsValid}
use vyne.Scheduler.Coordinator.{
  Coordinator, abort_send, finish_send, held_is, hold_provisional_ack, in_flight, or_else,
  reject_known, reserve_send, stage_candidate,
}
use vyne.Scheduler.Promotion.{promote}

-- What `Runtime.acknowledge_native_apply` (runtime.py) reads of the renderer: whether it is disposed,
-- whether it awaits an apply, and the latest revision.
pub record Renderer : Type 0 where
  pub disposed : Bool
  pub awaiting_apply : Bool
  pub revision : ℤ

-- The first two guards: a receipt of no negative revision, before the renderer is disposed.
abbrev pub heard : Renderer → ℤ → Bool
heard renderer (pos n) = not renderer.disposed
heard renderer (negsuc n) = false

module _ {Node Ref Registry Binding : Type 0} where
  -- `acknowledge_native_apply`, up to the promotion: a receipt is held while its send is
  -- provisional, and promoted otherwise if it is of the latest revision and awaited.
  unfoldable pub receive :
      Renderer × ℤ → Coordinator Node Ref Registry Binding → Coordinator Node Ref Registry Binding
  unfolding hold_provisional_ack promote
  receive (renderer, revision) c =
      if not (heard renderer revision)
      then c
      else (let (c', held) = hold_provisional_ack c revision in
          if held
          then c'
          else (if Ints.eq revision renderer.revision && renderer.awaiting_apply
              then (promote c' revision).0
              else c'))

  unfoldable pub receive_all :
      List (Renderer × ℤ)
      → Coordinator Node Ref Registry Binding
      → Coordinator Node Ref Registry Binding
  receive_all [] c = c
  receive_all (receipt ∷ receipts) c = receive_all receipts (receive receipt c)

-- Whether a receipt of the revision is heard among these.
abbrev pub among : ℤ → List (Renderer × ℤ) → Bool
among revision [] = false
among revision ((renderer, r) ∷ rs) = heard renderer r && Ints.eq r revision || among revision rs

-- The held revision after some receipts, by the revision in flight.
abbrev held_after : ℤ → Option ℤ → List (Renderer × ℤ) → Option ℤ
held_after revision held [] = held
held_after revision held ((renderer, r) ∷ rs) =
    held_after revision (if heard renderer r && Ints.eq r revision then some r else held) rs

held_is-held_after :
    (revision : ℤ) (held : Option ℤ) (rs : List (Renderer × ℤ))
    → held_is (held_after revision held rs) revision ≡ (held_is held revision || among revision rs)
held_is-held_after revision held [] = ground arith
held_is-held_after revision held ((renderer, r) ∷ rs) = ground (
  arith,
  held_is-held_after revision (if heard renderer r && Ints.eq r revision then some r else held) rs,
)

module _ {Node Ref Registry Binding : Type 0} where
  receive_provisional :
      (c : Coordinator Node Ref Registry Binding) (renderer : Renderer) (r : ℤ)
      → c.provisional ≡ true
      → receive (renderer, r) c ≡ (
          if heard renderer r && Ints.eq r c.in_flight_revision
          then record c { held_ack_revision = some r }
          else c)
  unfolding receive
  receive_provisional c renderer r h = ground arith

  receive_all_provisional :
      (rs : List (Renderer × ℤ)) (c : Coordinator Node Ref Registry Binding)
      → c.provisional ≡ true
      → receive_all rs c
        ≡ record c { held_ack_revision = held_after c.in_flight_revision c.held_ack_revision rs }
  unfolding receive_all
  receive_all_provisional [] c h = refl
  receive_all_provisional ((renderer, r) ∷ rs) c h =
      elim (Bool-cases (heard renderer r && Ints.eq r c.in_flight_revision)) [
        | inl e ↦
            rw (receive_provisional c renderer r h, e)
              (receive_all_provisional rs (record c { held_ack_revision = some r }) h)
        | inr e ↦ rw (receive_provisional c renderer r h, e) (receive_all_provisional rs c h)
      ]

  module _ (c : Coordinator Node Ref Registry Binding) (revision : ℤ)
      (receipts : List (Renderer × ℤ)) (root : Node) (index : List (ℕ × Node)) (next : ℕ)
      (refs : List (ℕ × Ref)) (registry : Option Registry) (bindings : List (ℕ × Binding)) where
    abbrev sent : Coordinator Node Ref Registry Binding
    sent = record c {
      candidate_root = some root;
      candidate_index = some index;
      next_node_id = next;
      candidate_ref_map = some refs;
      candidate_event_registry = registry;
      candidate_imperative_bindings = some bindings;
      in_flight_revision = revision;
      provisional = true;
      held_ack_revision = none;
    }

    finish-receive_all :
        finish_send (receive_all receipts sent) revision
        ≡ ok
            (record sent { provisional = false; held_ack_revision = none }, among revision receipts)
    unfolding finish_send
    finish-receive_all =
        rw (receive_all_provisional receipts sent refl)
          (ground (arith, Ints.eq_refl revision, held_is-held_after revision none receipts))

    -- One commit: stage, reserve, the receipts during `send`, finish, and the acknowledgement. The
    -- last Boolean is the answer of `finish_send`.
    unfoldable pub publish : Result ((Coordinator Node Ref Registry Binding × Bool) × Bool)
    publish = do
      staged ← stage_candidate c (some root) index next (some refs) registry (some bindings)
      reserved ← reserve_send staged revision
      (finished, held) ← finish_send (receive_all receipts reserved) revision
      ok (promote finished revision, held)

    -- A whole commit from a coordinator with nothing in flight: after staging a candidate and
    -- reserving its revision, any receipts may arrive during `send`; `finish_send` does not raise
    -- and answers whether the revision's own receipt was heard among them; promoting the revision
    -- succeeds and makes exactly the staged tree, index, id counter, refs, registry and bindings
    -- the accepted ones, with nothing staged, held or in flight.
    pub promote-stage :
        in_flight c ≡ false
        → publish
          ≡ ok (
            (
              record c {
                accepted = some (record {
                  root = some root;
                  node_index = index;
                  revision = revision;
                  next_node_id = next;
                });
                next_node_id = next;
                in_flight_revision = pos 0;
                candidate_root = none;
                candidate_index = none;
                candidate_ref_map = none;
                candidate_event_registry = none;
                candidate_imperative_bindings = none;
                ref_map = refs;
                accepted_event_registry = registry;
                imperative_bindings = bindings;
                last_ref_transition = some (c.ref_map, refs);
                last_imperative_transition = some (c.imperative_bindings, bindings);
                provisional = false;
                held_ack_revision = none;
              },
              true,
            ),
            among revision receipts,
          )
    unfolding publish stage_candidate reserve_send promote
    promote-stage idle = ground (arith, finish-receive_all, Ints.eq_refl revision)

  -- From a valid coordinator with nothing staged or in flight, staging a candidate, reserving and
  -- then rejecting or aborting that revision gives the coordinator back as it was, the id counter
  -- included, whatever was staged.
  pub reject-stage :
      (c : Coordinator Node Ref Registry Binding) (revision : ℤ) (root : Node)
      (index : List (ℕ × Node)) (next : ℕ) (refs : Option (List (ℕ × Ref)))
      (registry : Option Registry) (bindings : Option (List (ℕ × Binding)))
      → IsValid c
      → c.candidate_root ≡ none
      → c.in_flight_revision ≡ pos 0
      → c.provisional ≡ false
      → (staged : Coordinator Node Ref Registry Binding) × (sent : Coordinator Node Ref Registry
          Binding)
        × (stage_candidate c (some root) index next refs registry bindings ≡ ok staged)
        × (reserve_send staged revision ≡ ok sent)
        × (reject_known sent revision ≡ (c, true))
        × (abort_send sent revision ≡ (c, true))
  unfolding stage_candidate reserve_send reject_known abort_send
  reject-stage c revision root index next refs registry bindings v e f p =
      let staged = record c {
        candidate_root = some root;
        candidate_index = some index;
        next_node_id = next;
        candidate_ref_map = some (or_else refs c.ref_map);
        candidate_event_registry = registry;
        candidate_imperative_bindings = some (or_else bindings c.imperative_bindings);
      } in
      (
        staged,
        record staged {
          in_flight_revision = revision;
          provisional = true;
          held_ack_revision = none;
        },
        ground arith,
        ground arith,
        ground (arith, Ints.eq_refl revision),
        ground (arith, Ints.eq_refl revision),
      )
