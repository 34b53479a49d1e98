-- ===== src/Web/BoxStatus/Replay.antt =====
-- What the clients are told of the boxes adds up to what the server knows of them.
use callfxo.Prelude.{true, List, [], ◌∷◌, ◌≡◌, refl, arith, ap, ◌∙◌, if◌then◌else◌}
use callfxo.Prelude.Integers.{ℤ}
use callfxo.Prelude.Equality.{◌==◌, int_eq, ==_iff}
use callfxo.Prelude.GoMap.{GoMap, lookup, insert, lookup-insert}
use callfxo.Prelude.Rows.{exists, Unique}
use callfxo.Store.Boxes.{FxoBoxWithStatus}
use callfxo.Call.State.{Manager}
use callfxo.Web.Events.{BoxRuntimeState}
use callfxo.Web.BoxStatus.{current_states, box_changes}
use callfxo.Web.BoxStatus.Changes.{States, shown_state, last, changes-shown}

-- A client that keeps the last status that it was told of each box.
unfoldable pub replay : States → States → States
replay [] view = view
replay ((id, state) ∷ rest) view = replay rest (insert id state view)

-- What a client shows of a box: off, where it knows of none.
abbrev pub shown : ℤ → States → BoxRuntimeState
shown id m = shown_state (lookup id m)

lookup-replay :
    (id : ℤ) (msgs view : States) → lookup id (replay msgs view) ≡ last id msgs (lookup id view)
unfolding replay last
lookup-replay id [] view = refl
lookup-replay id ((k, state) ∷ rest) view =
    lookup-replay id rest (insert k state view) ∙ ap (last id rest) (lookup-insert k id state view)

exists-insert :
    (k id : ℤ) (state : BoxRuntimeState) (m : States)
    → exists (λ (p : ℤ × BoxRuntimeState). p.0 == id) (insert k state m)
      ≡ (if k == id then true else exists (λ (p : ℤ × BoxRuntimeState). p.0 == id) m)
unfolding exists insert
exists-insert k id state [] = refl
exists-insert k id state ((j, w) ∷ m) =
    ground (arith, exists-insert k id state m, ==_iff j k, ==_iff j id, ==_iff k id)

insert-Unique :
    (k : ℤ) (state : BoxRuntimeState) (m : States)
    → Unique (λ (p : ℤ × BoxRuntimeState). p.0) m
    → Unique (λ (p : ℤ × BoxRuntimeState). p.0) (insert k state m)
unfolding insert exists
insert-Unique k state [] u = (refl, tt)
insert-Unique k state ((j, w) ∷ m) (fresh, u) =
    ground (arith, ==_iff j k, ==_iff k j, insert-Unique k state m u, exists-insert k j state m)

current_states-Unique :
    (m : Manager) (bs : List FxoBoxWithStatus)
    → Unique (λ (p : ℤ × BoxRuntimeState). p.0) (current_states m bs)
unfolding current_states
current_states-Unique m [] = tt
current_states-Unique m (b ∷ bs) =
    insert-Unique _ _ (current_states m bs) (current_states-Unique m bs)

-- A client that showed the boxes as they were at the last round, and takes over each status that this
-- round sends, shows every box as it is now: on or off, in use or not, and off once it is gone.
pub replay-box_changes :
    (m : Manager) (old : GoMap ℤ BoxRuntimeState) (bs : List FxoBoxWithStatus) (id : ℤ)
    → shown id (replay (box_changes old (current_states m bs)) old) ≡ shown id (current_states m bs)
replay-box_changes m old bs id =
    ap shown_state (lookup-replay id (box_changes old (current_states m bs)) old)
    ∙ changes-shown id old (current_states m bs) (lookup id (current_states m bs))
        (current_states-Unique m bs) refl
